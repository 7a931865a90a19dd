-- ===== src/Device/Reading.antt =====
-- src/virtio_blk.c: the loop of blk_do_read, chunk by chunk, against one copy of the whole range.
use tinyvm.Base.{
  Bool, Exec, Outcome, ℕ, zero, suc, ◌+◌, ◌-◌, ◌^◌, ◌≤◌, ◌<◌, ◌≡◌, refl, ap, sym, subst, ◌∙◌, true,
  false, ◌==◌, Option, none, some, List, [], pos, i64, add64, sub32, ok, spins, pure, spin, gets,
  ◌>>=◌, ◌>>◌, arith,
}
use tinyvm.Machine.{Machine, MemRegion, Disk}
use tinyvm.Memory.{load_list, store_list, mem_write_buf}
use tinyvm.Memory.Copy.{
  with_ram, InRam, write_ram, length-load_list, load_list-append, store_list-append,
}
use tinyvm.Device.Block.{HostFile, blk_do_read, chunk_of, virtio_blk_s_ok}

-- A read may be short: it gives the first `count` bytes, and at least one.
pub record ShortRead (file : HostFile) (disk : Disk) (offset len : ℕ) : Type 0 where
  pub count : ℕ
  pub positive : 0 < count
  pub at_most : count ≤ len
  pub gives : file.pread disk (pos offset) len ≡ some (load_list disk.bytes offset count)

-- pread inside a regular file.
abbrev pub Reads : HostFile → Disk → Type 0
Reads file disk =
    (offset len : ℕ) → 0 < len → offset + len ≤ disk.size → ShortRead file disk offset len

pub chunk_of-lt : (len : ℕ) → 0 < len → 0 < chunk_of len
chunk_of-lt len h = ground arith

pub chunk_of-le : (len : ℕ) → chunk_of len ≤ len
chunk_of-le len = ground arith

pub i64-small : (n : ℕ) → n < 2 ^ 63 → i64 n ≡ pos n
i64-small n h = ground arith

pub shorter :
    (base size dst len count : ℕ)
    → count ≤ len
    → InRam base size dst len
    → InRam base size dst count
shorter base size dst len count h k = record {
  above = k.above;
  below = omega (arith, h, k.below);
  no_wrap = k.no_wrap;
}

pub further :
    (base size dst len count : ℕ)
    → count ≤ len
    → InRam base size dst len
    → InRam base size (dst + count) (len - count)
further base size dst len count h k = record {
  above = omega (arith, k.above);
  below = omega (arith, h, k.below);
  no_wrap = k.no_wrap;
}

-- To go on in the branch that is taken.
pub when_false :
    (b : Bool) (x y : Exec Machine ℕ) {s : Machine} {o : Outcome (ℕ × Machine)}
    → b ≡ false
    → y s ≡ o
    → (elim b as (λ _. Exec Machine ℕ) [ true ↦ x | false ↦ y ]) s ≡ o
when_false true x y e h = absurd (ground (arith, e))
when_false false x y e h = h

when_some :
    (o : Option (List ℕ)) (x : Exec Machine ℕ) (f : List ℕ → Exec Machine ℕ) (buf : List ℕ)
    {s : Machine} {r : Outcome (ℕ × Machine)}
    → o ≡ some buf
    → f buf s ≡ r
    → (elim o as (λ _. Exec Machine ℕ) [ none ↦ x | some b ↦ f b ]) s ≡ r
when_some o x f buf {s} {r} e h =
    subst (λ o. (elim o as (λ _. Exec Machine ℕ) [ none ↦ x | some b ↦ f b ]) s ≡ r) (sym e) h

module _ (file : HostFile) (base size : ℕ) (rs : List MemRegion) (m : Machine) where
  -- The machine after one memcpy of the whole range into the RAM `f`.
  abbrev pub copied : ℕ → ℕ → ℕ → (ℕ → ℕ) → ℕ → ℕ
  copied offset dst len f = store_list f (dst - base) (load_list m.disk.bytes offset len)

  copied-add :
      (offset dst k l : ℕ) (f : ℕ → ℕ)
      → base ≤ dst
      → copied (offset + k) (dst + k) l (copied offset dst k f) ≡ copied offset dst (k + l) f
  copied-add offset dst k l f h =
      let shift : dst + k - base ≡ dst - base + k = omega (arith, h) in
      let joined =
        store_list-append f (dst - base) (load_list m.disk.bytes offset k)
          (load_list m.disk.bytes (offset + k) l) in
      rw
        (
          shift,
          load_list-append m.disk.bytes offset k l,
          joined,
          length-load_list m.disk.bytes offset k,
        )
        refl

  module _ (offset dst len : ℕ) (f : ℕ → ℕ) (positive : 0 < len) (fits : len < 2 ^ 32)
      (sized : offset + len < 2 ^ 63) where
    -- What a round comes to, once the read of the chunk is known.
    pub round_is :
        (rounds : ℕ) (r : ShortRead file m.disk offset (chunk_of len)) {o : Outcome (ℕ × Machine)}
        → (do
          mem_write_buf dst (load_list m.disk.bytes offset r.count)
          blk_do_read file rounds (add64 offset r.count) (add64 dst r.count) (sub32 len r.count))
            (with_ram base size rs m f)
          ≡ o
        → blk_do_read file (suc rounds) offset dst len (with_ram base size rs m f) ≡ o
    unfolding blk_do_read gets ◌>>=◌
    round_is rounds r h =
        let more : (len == 0) ≡ false = ground arith in
        let buf = load_list m.disk.bytes offset r.count in
        let got : file.pread m.disk (i64 offset) (chunk_of len) ≡ some buf =
          ap (λ z. file.pread m.disk z (chunk_of len)) (i64-small offset (omega arith)) ∙ r.gives in
        when_false (len == 0) _ _ more
          (when_some _ _ _ buf got (rw (length-load_list m.disk.bytes offset r.count) h))

    -- A round whose chunk lands in the RAM.
    pub next_round :
        (rounds : ℕ) (r : ShortRead file m.disk offset (chunk_of len))
        → InRam base size dst r.count
        → blk_do_read file (suc rounds) offset dst len (with_ram base size rs m f)
          ≡ blk_do_read file rounds
              (offset + r.count)
              (dst + r.count)
              (len - r.count)
              (with_ram base size rs m (copied offset dst r.count f))
    unfolding ◌>>=◌
    next_round rounds r in_ram =
        let a = r.at_most in
        let c = in_ram.below in
        let d = in_ram.no_wrap in
        let le : r.count ≤ len = omega (arith, a, chunk_of-le len) in
        let e : add64 offset r.count ≡ offset + r.count = omega arith in
        let e' : add64 dst r.count ≡ dst + r.count = omega arith in
        let e'' : sub32 len r.count ≡ len - r.count = omega arith in
        let buf = load_list m.disk.bytes offset r.count in
        let there =
          subst (InRam base size dst) (sym (length-load_list m.disk.bytes offset r.count)) in_ram in
        round_is rounds r (rw (write_ram base size rs m f dst buf there, e, e', e'') refl)

  module _ (reads : Reads file m.disk) (sized : m.disk.size < 2 ^ 63) where
    pub read_all :
        (rounds offset dst len : ℕ) (f : ℕ → ℕ)
        → len ≤ rounds
        → InRam base size dst len
        → len < 2 ^ 32
        → offset + len ≤ m.disk.size
        → blk_do_read file rounds offset dst len (with_ram base size rs m f)
          ≡ ok (virtio_blk_s_ok, with_ram base size rs m (copied offset dst len f))
    unfolding blk_do_read pure load_list store_list
    read_all zero offset dst zero f enough in_ram fits inside = refl
    read_all zero offset dst (suc l) f enough in_ram fits inside = absurd (omega (arith, enough))
    read_all (suc rounds) offset dst zero f enough in_ram fits inside = refl
    read_all (suc rounds) offset dst (suc l) f enough in_ram fits inside =
        let len = suc l in
        let r =
          reads offset (chunk_of len) (chunk_of-lt len (omega arith))
            (omega (arith, inside, chunk_of-le len)) in
        let a = r.positive in
        let le : r.count ≤ len = omega (arith, r.at_most, chunk_of-le len) in
        let rest =
          read_all rounds (offset + r.count) (dst + r.count) (len - r.count)
            (copied offset dst r.count f) (omega (arith, enough, a))
            (further base size dst len r.count le in_ram) (omega (arith, fits))
            (omega (arith, inside, le)) in
        let whole : r.count + (len - r.count) ≡ len = omega (arith, le) in
        next_round offset dst len f (omega arith) fits (omega (arith, inside, sized)) rounds r
          (shorter base size dst len r.count le in_ram)
        ∙ rest
        ∙ ap (λ g. ok (virtio_blk_s_ok, with_ram base size rs m g))
            (copied-add offset dst r.count (len - r.count) f in_ram.above
              ∙ ap (λ k. copied offset dst k f) whole)

    -- Inside the disk, and with the target inside the RAM, the loop over chunks ends after at most
    -- as many rounds as there are bytes, whatever short reads pread makes, and does what a single
    -- copy of the whole range into the guest's memory does, with the status for success.
    pub blk_do_read-mem_write_buf :
        (rounds offset dst len : ℕ) (f : ℕ → ℕ)
        → len ≤ rounds
        → InRam base size dst len
        → len < 2 ^ 32
        → offset + len ≤ m.disk.size
        → blk_do_read file rounds offset dst len (with_ram base size rs m f)
          ≡ (do mem_write_buf dst (load_list m.disk.bytes offset len); pure virtio_blk_s_ok)
              (with_ram base size rs m f)
    unfolding ◌>>=◌ pure
    blk_do_read-mem_write_buf rounds offset dst len f enough in_ram fits inside =
        let image = load_list m.disk.bytes offset len in
        let there =
          subst (InRam base size dst) (sym (length-load_list m.disk.bytes offset len)) in_ram in
        rw (write_ram base size rs m f dst image there)
          (read_all rounds offset dst len f enough in_ram fits inside)

  -- Where pread gives no byte, as it does at the end of the file, the loop goes on for ever if the
  -- target is inside the RAM: no
  -- number of rounds is enough for any length but 0.
  pub blk_do_read-spins :
      (rounds offset dst len : ℕ) (f : ℕ → ℕ)
      → 0 < len
      → InRam base size dst len
      → offset < 2 ^ 63
      → len < 2 ^ 32
      → file.pread m.disk (pos offset) (chunk_of len) ≡ some []
      → blk_do_read file rounds offset dst len (with_ram base size rs m f) ≡ spins
  unfolding blk_do_read spin gets ◌>>=◌ store_list
  blk_do_read-spins zero offset dst len f positive in_ram small fits eof =
      let more : (len == 0) ≡ false = ground arith in rw (more) refl
  blk_do_read-spins (suc rounds) offset dst len f positive in_ram small fits eof =
      let c = in_ram.below in
      let d = in_ram.no_wrap in
      let more : (len == 0) ≡ false = ground arith in
      let e : add64 offset 0 ≡ offset = omega arith in
      let e' : add64 dst 0 ≡ dst = omega arith in
      let e'' : sub32 len 0 ≡ len = omega arith in
      let got : file.pread m.disk (i64 offset) (chunk_of len) ≡ some [] =
        ap (λ z. file.pread m.disk z (chunk_of len)) (i64-small offset small) ∙ eof in
      when_false (len == 0) _ _ more (
        when_some _ _ _ [] got (
          rw
            (
              write_ram base size rs m f dst [] (shorter base size dst len 0 (omega arith) in_ram),
              e,
              e',
              e'',
            )
            (blk_do_read-spins rounds offset dst len f positive in_ram small fits eof)))
