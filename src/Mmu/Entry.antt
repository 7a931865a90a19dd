-- ===== src/Mmu/Entry.antt =====
-- src/mmu.c: what an entry of the page table lets an access do, what the access leaves in it, and
-- the address that it gives.
use tinyvm.Base.{
  ℕ, zero, suc, min, ◌+◌, ◌-◌, ◌*◌, ◌/◌, ◌%◌, ◌^◌, ◌<◌, ◌≡◌, refl, sym, ap, ◌∙◌, Bool, true, false,
  ◌==◌, ◌&&◌, ◌||◌, bit_and, bit_or, if◌then◌else◌, has_flag, set_flags, shr, arith,
}
use tinyvm.Base.Bits.{
  bit, bit-zero, bit-suc, bit-complement, bits_ext, bit-bit_and, bit_and_mask, has_flag-bit,
  bit-set_flag, bit_or-add,
}
use native.Mathlib.Nat.{mod-lt, one-le-pow, pow-suc, pow-succ', div-div-eq-div-mul}
use tinyvm.Machine.{Cpu}
use tinyvm.Cpu.Csr.{csr_mstatus}
use tinyvm.Mmu.{
  MmuAccess, mmu_fetch, mmu_load, mmu_store, access_flag, pte_check, pte_ppn, pte_to_pa, mark_used,
}

-- The bit of an entry that an access needs: R, W or X.
abbrev pub permission : MmuAccess → ℕ
permission mmu_load = 1
permission mmu_store = 2
permission mmu_fetch = 3

-- The entry has the bit of the access. U-mode is on a page of the user (bit 4), and S-mode is not,
-- unless SUM (bit 18 of mstatus) is set.
pub record Permits (pte : ℕ) (c : Cpu) (access : MmuAccess) : Type 0 where
  pub allowed : bit pte (permission access) ≡ 1
  pub user : c.privilege ≡ 0 → bit pte 4 ≡ 1
  pub supervisor : c.privilege ≡ 1 → bit pte 4 ≡ 1 → bit (c.csrs csr_mstatus) 18 ≡ 1

has_flag-access_flag :
    (access : MmuAccess) (pte : ℕ)
    → has_flag pte (access_flag access) ≡ (bit pte (permission access) == 1)
unfolding access_flag
has_flag-access_flag mmu_load pte = has_flag-bit 1 pte
has_flag-access_flag mmu_store pte = has_flag-bit 2 pte
has_flag-access_flag mmu_fetch pte = has_flag-bit 3 pte

pub pte_check-Permits :
    (pte : ℕ) (c : Cpu) (access : MmuAccess) → pte_check pte c access ≡ true → Permits pte c access
unfolding pte_check
pte_check-Permits pte c access h =
    let flag = has_flag-access_flag access pte in
    let of_user = has_flag-bit 4 pte in
    let sum = has_flag-bit 18 (c.csrs csr_mstatus) in
    record {
      allowed = ground (arith, h, flag);
      user = λ e. ground (arith, h, e, of_user);
      supervisor = λ e u. ground (arith, h, e, u, of_user, sum);
    }

pub Permits-pte_check :
    (pte : ℕ) (c : Cpu) (access : MmuAccess) → Permits pte c access → pte_check pte c access ≡ true
unfolding pte_check
Permits-pte_check pte c access p =
    let flag = has_flag-access_flag access pte in
    let of_user = has_flag-bit 4 pte in
    let sum = has_flag-bit 18 (c.csrs csr_mstatus) in
    ground (arith, flag, of_user, sum, p.allowed, p.user, p.supervisor)

-- The access dirties the page.
abbrev pub writes : MmuAccess → Bool
writes mmu_load = false
writes mmu_store = true
writes mmu_fetch = false

-- The word is the entry with A (bit 6) set, and D (bit 7) for a store, and no other bit changed.
abbrev pub IsMarked : MmuAccess → ℕ → ℕ → Type 0
IsMarked access pte word =
    (i : ℕ) → bit word i ≡ (if i == 6 || (i == 7 && writes access) then 1 else bit pte i)

pub mark_used-IsMarked : (access : MmuAccess) (pte : ℕ) → IsMarked access pte (mark_used access pte)
unfolding mark_used
mark_used-IsMarked mmu_load pte i = ground (arith, bit-set_flag 6 pte i)
mark_used-IsMarked mmu_store pte i =
    ground (arith, bit-set_flag 6 pte i, bit-set_flag 7 (set_flags pte (2 ^ 6)) i)
mark_used-IsMarked mmu_fetch pte i = ground (arith, bit-set_flag 6 pte i)

-- The number of the page frame: bits 10 to 53.
abbrev pub frame : ℕ → ℕ
frame pte = pte / 2 ^ 10 % 2 ^ 44

bit-div : (k x i : ℕ) → bit (x / 2 ^ k) i ≡ bit x (k + i)
bit-div zero x i = ap (λ (t : ℕ). bit t i) (omega arith) ∙ ap (bit x) (omega arith)
bit-div (suc k) x i =
    let quotient : x / 2 ^ suc k ≡ x / 2 / 2 ^ k =
      rw (pow-succ' 2 k) (sym (div-div-eq-div-mul x 2 (2 ^ k))) in
    ap (λ (t : ℕ). bit t i) quotient
    ∙ bit-div k (x / 2) i
    ∙ sym (bit-suc x (k + i))
    ∙ ap (bit x) (omega arith)

bit-frame : (pte i : ℕ) → i < 44 → bit (frame pte) i ≡ bit pte (10 + i)
bit-frame pte i h =
    let ones : bit (2 ^ 44 - 1) i ≡ 1 =
      bit-complement 44 0 i (omega arith) h ∙ ap (λ (t : ℕ). 1 - t) (bit-zero i) in
    let low : bit (frame pte) i ≡ min (bit (pte / 2 ^ 10) i) 1 =
      ap (λ (t : ℕ). bit t i) (sym (bit_and_mask 44 (pte / 2 ^ 10)))
      ∙ bit-bit_and i (pte / 2 ^ 10) (2 ^ 44 - 1)
      ∙ ap (min (bit (pte / 2 ^ 10) i)) ones in
    omega (arith, low) ∙ bit-div 10 pte i

frame-mark_used : (access : MmuAccess) (pte : ℕ) → frame (mark_used access pte) ≡ frame pte
frame-mark_used access pte =
    bits_ext 44 (frame (mark_used access pte)) (frame pte) (omega arith) (omega arith)
      λ (i : ℕ) (h : i < 44).
        let same : bit (mark_used access pte) (10 + i) ≡ bit pte (10 + i) =
          ground (arith, mark_used-IsMarked access pte (10 + i)) in
        bit-frame (mark_used access pte) i h ∙ same ∙ sym (bit-frame pte i h)

-- The address is made of the frame of the entry and the offset in a page of the level. Where the
-- frame is aligned, as a page of level 0 always is, the offset is added to the start of the page.
pub record IsAddress (pte va level pa : ℕ) : Type 0 where
  pub joined : pa ≡ bit_or (frame pte * 2 ^ 12) (va % 2 ^ (12 + level * 9))
  pub aligned :
      (page : ℕ)
      → frame pte ≡ page * 2 ^ (level * 9)
      → pa ≡ page * 2 ^ (12 + level * 9) + va % 2 ^ (12 + level * 9)

joined_address :
    (access : MmuAccess) (pte va level : ℕ)
    → pte_to_pa (mark_used access pte) va level
      ≡ bit_or (frame pte * 2 ^ 12) (va % 2 ^ (12 + level * 9))
unfolding pte_to_pa pte_ppn
joined_address access pte va level =
    let word = mark_used access pte in
    let number : bit_and (shr word 10) (2 ^ 44 - 1) ≡ frame pte =
      bit_and_mask 44 (word / 2 ^ 10) ∙ frame-mark_used access pte in
    let no_wrap : frame pte * 2 ^ 12 % 2 ^ 64 ≡ frame pte * 2 ^ 12 = omega arith in
    rw (number, no_wrap, bit_and_mask (12 + level * 9) va) refl

double_page : (page n : ℕ) → page * 2 ^ suc n ≡ 2 * (page * 2 ^ n)
double_page page n = omega (arith, ap (λ (t : ℕ). page * t) (pow-suc 2 n))

page_start : (page n : ℕ) → page * 2 ^ n * 2 ^ 12 ≡ page * 2 ^ (12 + n)
page_start page zero = omega arith
page_start page (suc n) =
    let next : page * 2 ^ (12 + suc n) ≡ page * 2 ^ suc (12 + n) =
      ap (λ (t : ℕ). page * 2 ^ t) (omega arith) in
    omega (arith, next, page_start page n, double_page page n, double_page page (12 + n))

pub pte_to_pa-IsAddress :
    (access : MmuAccess) (pte va level : ℕ)
    → IsAddress pte va level (pte_to_pa (mark_used access pte) va level)
pte_to_pa-IsAddress access pte va level = record {
  joined = joined_address access pte va level;
  aligned = λ page e.
      let n = 12 + level * 9 in
      let start : frame pte * 2 ^ 12 ≡ page * 2 ^ n =
        ap (λ (t : ℕ). t * 2 ^ 12) e ∙ page_start page (level * 9) in
      joined_address access pte va level
      ∙ ap (λ (t : ℕ). bit_or t (va % 2 ^ n)) start
      ∙ bit_or-add n page (va % 2 ^ n) (mod-lt va (one-le-pow n 2 (omega arith)));
}
