-- ===== src/Device/Writing.antt =====
-- src/virtio_blk.c: the loop of blk_do_write, chunk by chunk, against one copy of the whole range.
use tinyvm.Base.{
  modify, ℕ, zero, suc, ◌+◌, ◌-◌, ◌^◌, ◌≤◌, ◌<◌, ◌≡◌, refl, ap, sym, subst, ◌∙◌, Exec, Outcome,
  false, ◌==◌, Option, none, some, List, ◌∷◌, length, pos, i64, add64, sub32, ok, pure, state,
  ◌>>=◌, ◌>>◌, arith,
}
use tinyvm.Machine.{Machine, MemRegion, Disk}
use tinyvm.Memory.{load_list, store_list, mem_read_buf}
use tinyvm.Memory.Copy.{
  with_ram, InRam, read_ram, length-load_list, load_list-append, store_list-append,
  load_list-store_list,
}
use tinyvm.Device.Block.{HostFile, take, blk_do_read, blk_do_write, chunk_of, virtio_blk_s_ok}
use tinyvm.Device.Reading.{
  Reads, read_all, chunk_of-lt, chunk_of-le, i64-small, shorter, further, when_false,
}

-- The disk after bytes are put over its old ones.
abbrev pub overwritten : Disk → ℕ → List ℕ → Disk
overwritten disk offset bs = record disk { bytes = store_list disk.bytes offset bs }

-- A write may be short: it puts the first `count` bytes, and at least one.
pub record ShortWrite (file : HostFile) (disk : Disk) (offset : ℕ) (bs : List ℕ) : Type 0 where
  pub count : ℕ
  pub positive : 0 < count
  pub at_most : count ≤ length bs
  pub puts :
      file.pwrite disk (pos offset) bs ≡ (some count, overwritten disk offset (take bs count))

-- pwrite inside a regular file.
abbrev pub Writes : HostFile → Type 0
Writes file =
    (disk : Disk) (offset : ℕ) (bs : List ℕ)
    → 0 < length bs
    → offset + length bs ≤ disk.size
    → ShortWrite file disk offset bs

take-load_list : (f : ℕ → ℕ) (off k n : ℕ) → k ≤ n → take (load_list f off n) k ≡ load_list f off k
unfolding take load_list
take-load_list f off zero n h = refl
take-load_list f off (suc k) zero h = absurd (omega (arith, h))
take-load_list f off (suc k) (suc n) h =
    ap (λ xs. f off ∷ xs) (take-load_list f (off + 1) k n (omega (arith, h)))

when_put :
    (o : Option ℕ) (x : Exec Machine ℕ) (f : ℕ → Exec Machine ℕ) (n : ℕ) {s : Machine}
    {r : Outcome (ℕ × Machine)}
    → o ≡ some n
    → f n s ≡ r
    → (elim o as (λ _. Exec Machine ℕ) [ none ↦ x | some k ↦ f k ]) s ≡ r
when_put o x f n {s} {r} e h =
    subst (λ o. (elim o as (λ _. Exec Machine ℕ) [ none ↦ x | some k ↦ f k ]) s ≡ r) (sym e) h

module _ (file : HostFile) (base size : ℕ) (rs : List MemRegion) (m : Machine) (f : ℕ → ℕ) where
  -- The machine with the RAM `f` and the disk.
  abbrev with_disk : Disk → Machine
  with_disk disk = with_ram base size rs (record m { disk = disk }) f

  abbrev dumped : ℕ → ℕ → ℕ → Disk → Disk
  dumped offset src len disk = overwritten disk offset (load_list f (src - base) len)

  dumped-add :
      (offset src k l : ℕ) (disk : Disk)
      → base ≤ src
      → dumped (offset + k) (src + k) l (dumped offset src k disk) ≡ dumped offset src (k + l) disk
  dumped-add offset src k l disk h =
      let shift : src + k - base ≡ src - base + k = omega (arith, h) in
      let joined =
        store_list-append disk.bytes offset (load_list f (src - base) k)
          (load_list f (src - base + k) l) in
      rw (shift, load_list-append f (src - base) k l, joined, length-load_list f (src - base) k)
        refl

  module _ (offset src len : ℕ) (disk : Disk) (in_ram : InRam base size src len)
      (positive : 0 < len) (fits : len < 2 ^ 32) (sized : offset + len < 2 ^ 63) where
    next_round :
        (rounds : ℕ) (r : ShortWrite file disk offset (load_list f (src - base) (chunk_of len)))
        → blk_do_write file (suc rounds) offset src len (with_disk disk)
          ≡ blk_do_write file rounds
              (offset + r.count)
              (src + r.count)
              (len - r.count)
              (with_disk (dumped offset src r.count disk))
    unfolding blk_do_write state ◌>>=◌
    next_round rounds r =
        let buf = load_list f (src - base) (chunk_of len) in
        let at_most : r.count ≤ chunk_of len =
          subst (λ n. r.count ≤ n) (length-load_list f (src - base) (chunk_of len)) r.at_most in
        let c = in_ram.below in
        let d = in_ram.no_wrap in
        let le : r.count ≤ len = omega (arith, at_most, chunk_of-le len) in
        let more : (len == 0) ≡ false = ground arith in
        let e : add64 offset r.count ≡ offset + r.count = omega arith in
        let e' : add64 src r.count ≡ src + r.count = omega arith in
        let e'' : sub32 len r.count ≡ len - r.count = omega arith in
        let put : file.pwrite disk (i64 offset) buf
            ≡ (some r.count, dumped offset src r.count disk) =
          ap (λ z. file.pwrite disk z buf) (i64-small offset (omega arith))
          ∙ r.puts
          ∙ ap (λ bs. (some r.count, overwritten disk offset bs))
              (take-load_list f (src - base) r.count (chunk_of len) at_most) in
        let read =
          read_ram base size rs (record m { disk = disk }) f src (chunk_of len)
            (shorter base size src len (chunk_of len) (chunk_of-le len) in_ram) in
        when_false (len == 0) _ _ more
          (rw (read) (when_put _ _ _ r.count (ap (λ p. p.0) put) (rw (put, e, e', e'') refl)))

  module _ (writes : Writes file) where
    pub write_all :
        (rounds offset src len : ℕ) (disk : Disk)
        → len ≤ rounds
        → InRam base size src len
        → len < 2 ^ 32
        → offset + len ≤ disk.size
        → disk.size < 2 ^ 63
        → blk_do_write file rounds offset src len (with_disk disk)
          ≡ ok (virtio_blk_s_ok, with_disk (dumped offset src len disk))
    unfolding blk_do_write pure load_list store_list
    write_all zero offset src zero disk enough in_ram fits inside sized = refl
    write_all zero offset src (suc l) disk enough in_ram fits inside sized =
        absurd (omega (arith, enough))
    write_all (suc rounds) offset src zero disk enough in_ram fits inside sized = refl
    write_all (suc rounds) offset src (suc l) disk enough in_ram fits inside sized =
        let len = suc l in
        let chunk = chunk_of len in
        let buf = load_list f (src - base) chunk in
        let measure = length-load_list f (src - base) chunk in
        let small = chunk_of-le len in
        let some_bytes : 0 < length buf =
          subst (λ n. 0 < n) (sym measure) (chunk_of-lt len (omega arith)) in
        let in_disk : offset + length buf ≤ disk.size =
          subst (λ n. offset + n ≤ disk.size) (sym measure) (omega (arith, small, inside)) in
        let r = writes disk offset buf some_bytes in_disk in
        let a = r.positive in
        let le : r.count ≤ len = omega (arith, r.at_most, measure, small) in
        let rest =
          write_all rounds (offset + r.count) (src + r.count) (len - r.count)
            (dumped offset src r.count disk) (omega (arith, enough, a))
            (further base size src len r.count le in_ram) (omega (arith, fits))
            (omega (arith, inside, le)) sized in
        let whole : r.count + (len - r.count) ≡ len = omega (arith, le) in
        next_round offset src len disk in_ram (omega arith) fits (omega (arith, inside, sized))
          rounds r
        ∙ rest
        ∙ ap (λ d. ok (virtio_blk_s_ok, with_disk d))
            (dumped-add offset src r.count (len - r.count) disk in_ram.above
              ∙ ap (λ k. dumped offset src k disk) whole)

    -- Inside the disk, and with the source inside the RAM, the loop over chunks ends after at most as
    -- many rounds as there are bytes, whatever short writes pwrite makes, and leaves the disk as one
    -- copy of the whole range over its old bytes would, with the status for success and the rest of
    -- the machine as it was.
    pub blk_do_write-mem_read_buf :
        (rounds offset src len : ℕ) (disk : Disk)
        → len ≤ rounds
        → InRam base size src len
        → len < 2 ^ 32
        → offset + len ≤ disk.size
        → disk.size < 2 ^ 63
        → blk_do_write file rounds offset src len (with_disk disk)
          ≡ (do
            buf ← mem_read_buf src len
            modify (λ m. record m { disk = overwritten m.disk offset buf })
            pure virtio_blk_s_ok)
              (with_disk disk)
    unfolding ◌>>=◌ pure modify
    blk_do_write-mem_read_buf rounds offset src len disk enough in_ram fits inside sized =
        let read = read_ram base size rs (record m { disk = disk }) f src len in_ram in
        rw (read) (write_all rounds offset src len disk enough in_ram fits inside sized)

module _ (file : HostFile) (writes : Writes file) (base size : ℕ) (rs : List MemRegion)
    (m : Machine) (f : ℕ → ℕ) where
  -- A range of the RAM that is written to the disk and read back from there to another range
  -- arrives as it was: the machine ends as after one copy from range to range, with the bytes
  -- also on the disk. Both ranges are inside the RAM, and the blocks inside the disk.
  pub blk_do_read-blk_do_write :
      (rounds offset src dst len : ℕ)
      → Reads file (overwritten m.disk offset (load_list f (src - base) len))
      → len ≤ rounds
      → InRam base size src len
      → InRam base size dst len
      → len < 2 ^ 32
      → offset + len ≤ m.disk.size
      → m.disk.size < 2 ^ 63
      → (do
        status ← blk_do_write file rounds offset src len
        blk_do_read file rounds offset dst len)
          (with_ram base size rs m f)
        ≡ ok (
          virtio_blk_s_ok,
          with_ram base size rs
              (record m { disk = overwritten m.disk offset (load_list f (src - base) len) })
              (store_list f (dst - base) (load_list f (src - base) len)),
        )
  unfolding ◌>>=◌
  blk_do_read-blk_do_write rounds offset src dst len reads enough in_src in_dst fits inside sized =
      let bs = load_list f (src - base) len in
      let disk = overwritten m.disk offset bs in
      let back : load_list disk.bytes offset len ≡ bs =
        subst (λ n. load_list disk.bytes offset n ≡ bs) (length-load_list f (src - base) len)
          (load_list-store_list m.disk.bytes offset bs) in
      rw
        (write_all file base size rs m f writes rounds offset src len m.disk enough in_src fits
          inside sized)
        (read_all file base size rs (record m { disk = disk }) reads sized rounds offset dst len f
            enough in_dst fits inside
          ∙ ap
              (λ xs. ok (
                virtio_blk_s_ok,
                with_ram base size rs (record m { disk = disk }) (store_list f (dst - base) xs),
              ))
              back)
