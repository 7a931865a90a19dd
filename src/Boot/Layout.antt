-- ===== src/Boot/Layout.antt =====
-- src/main.c: the table of regions that the calls before boot() build, and what an address finds in it.
use mathlib.Core.Option.{none-ne-some, some-injective}
use tinyvm.Base.{
  ℕ, zero, suc, ◌+◌, ◌^◌, ◌≤◌, ◌<◌, ◌≡◌, ap, sym, subst, ◌∙◌, ◌⊎◌, inl, inr, true, false, Option,
  none, some, List, [], ◌∷◌, get_elem?, add64, arith,
}
use tinyvm.Machine.{MemRegion, Disk}
use tinyvm.Memory.{region_has, find_region, add_region, mem_add_region, mem_add_device}
use tinyvm.Device.Block.{HostFile}
use tinyvm.Device.Transport.{virtio_init, virtio_blk_init}
use tinyvm.Execute.Step.{cpu_add_irq_source}
use tinyvm.Boot.Main.{static_machine, init, uart_init, plic_init, clint_init}

-- Two regions do not overlap, and a region does not wrap around.
abbrev pub Beside : MemRegion → MemRegion → Type 0
Beside r s = (r.base + r.size ≤ s.base) ⊎ (s.base + s.size ≤ r.base)

abbrev pub BesideAll : MemRegion → List MemRegion → Type 0
BesideAll r [] = Unit
BesideAll r (s ∷ ss) = Beside r s × BesideAll r ss

abbrev pub AreApart : List MemRegion → Type 0
AreApart [] = Unit
AreApart (r ∷ rs) = (r.base + r.size < 2 ^ 64) × BesideAll r rs × AreApart rs

pub record Inside (r : MemRegion) (addr w : ℕ) : Type 0 where
  pub above : r.base ≤ addr
  pub below : addr + w ≤ r.base + r.size

-- The region of the index.
abbrev pub IsAt : List MemRegion → ℕ → MemRegion → Type 0
IsAt rs i r = get_elem? rs i ≡ some r

besides-at :
    (s r : MemRegion) (ss : List MemRegion) (i : ℕ) → BesideAll s ss → IsAt ss i r → Beside s r
besides-at s r [] i h e = absurd (none-ne-some r e)
besides-at s r (t ∷ ss) zero h e = subst (Beside s) (some-injective t r e) h.0
besides-at s r (t ∷ ss) (suc i) h e = besides-at s r ss i h.1 e

ends-at :
    (r : MemRegion) (ss : List MemRegion) (i : ℕ)
    → AreApart ss
    → IsAt ss i r
    → r.base + r.size < 2 ^ 64
ends-at r [] i h e = absurd (none-ne-some r e)
ends-at r (t ∷ ss) zero h e =
    subst (λ (x : MemRegion). x.base + x.size < 2 ^ 64) (some-injective t r e) h.0
ends-at r (t ∷ ss) (suc i) h e = ends-at r ss i h.2 e

Inside-has :
    (r : MemRegion) (addr w : ℕ)
    → r.base + r.size < 2 ^ 64
    → Inside r addr w
    → region_has r addr w ≡ true
Inside-has r addr w h k =
    let a = k.above in
    let b = k.below in
    let e : add64 addr w ≡ addr + w = omega arith in
    let e' : add64 r.base r.size ≡ r.base + r.size = omega arith in rw (e, e') (ground arith)

Beside-has :
    (s r : MemRegion) (addr w : ℕ)
    → s.base + s.size < 2 ^ 64
    → r.base + r.size < 2 ^ 64
    → Beside s r
    → 0 < w
    → Inside r addr w
    → region_has s addr w ≡ false
Beside-has s r addr w h h' k positive inside =
    let a = inside.above in
    let b = inside.below in
    let e : add64 addr w ≡ addr + w = omega arith in
    let e' : add64 s.base s.size ≡ s.base + s.size = omega arith in rw (e, e') (ground arith)

find_region-apart :
    (k : ℕ) (rs : List MemRegion) (i : ℕ) (r : MemRegion) (addr w : ℕ)
    → AreApart rs
    → IsAt rs i r
    → 0 < w
    → Inside r addr w
    → find_region k rs addr w ≡ some (k + i, r)
unfolding find_region
find_region-apart k [] i r addr w h e positive inside = absurd (none-ne-some r e)
find_region-apart k (s ∷ ss) zero r addr w h e positive inside =
    let here = some-injective s r e in
    let found = Inside-has s addr w h.0 (subst (λ x. Inside x addr w) (sym here) inside) in
    let index : k + 0 ≡ k = omega arith in
    rw (found, index) (ap (λ (x : MemRegion). some (k, x)) here)
find_region-apart k (s ∷ ss) (suc i) r addr w h e positive inside =
    let past =
      Beside-has s r addr w h.0 (ends-at r ss i h.2 e) (besides-at s r ss i h.1 e) positive
        inside in
    let index : k + 1 + i ≡ k + suc i = omega arith in
    rw (past, sym index) (find_region-apart (k + 1) ss i r addr w h.2 e positive inside)

-- The regions of a machine with a disk, in the order in which main adds them, and without one.
layout-AreApart :
    (file : HostFile) (opened : Option Disk) (input : List (Option ℕ))
    → AreApart (init file opened (static_machine input)).regions
unfolding init uart_init plic_init clint_init cpu_add_irq_source mem_add_region mem_add_device
    add_region virtio_init virtio_blk_init
layout-AreApart file none input = (
  omega arith,
  (inr (omega arith), (inr (omega arith), (inr (omega arith), tt))),
  (
    omega arith,
    (inr (omega arith), (inr (omega arith), tt)),
    (omega arith, (inr (omega arith), tt), (omega arith, tt, tt)),
  ),
)
layout-AreApart file (some disk) input = (
  omega arith,
  (inr (omega arith), (inr (omega arith), (inr (omega arith), (inr (omega arith), tt)))),
  (
    omega arith,
    (inr (omega arith), (inl (omega arith), (inr (omega arith), tt))),
    (
      omega arith,
      (inl (omega arith), (inr (omega arith), tt)),
      (omega arith, (inr (omega arith), tt), (omega arith, tt, tt)),
    ),
  ),
)

-- In the table that main builds, with a disk or without one, an access of at least one byte that
-- lies inside a region finds that region and no other.
pub init-find_region :
    (file : HostFile) (opened : Option Disk) (input : List (Option ℕ)) (i : ℕ) (r : MemRegion)
    (addr w : ℕ)
    → IsAt (init file opened (static_machine input)).regions i r
    → 0 < w
    → Inside r addr w
    → find_region 0 (init file opened (static_machine input)).regions addr w ≡ some (i, r)
init-find_region file opened input i r addr w e positive inside =
    let rs = (init file opened (static_machine input)).regions in
    let index : 0 + i ≡ i = omega arith in
    find_region-apart 0 rs i r addr w (layout-AreApart file opened input) e positive inside
    ∙ ap (λ (k : ℕ). some (k, r)) index
