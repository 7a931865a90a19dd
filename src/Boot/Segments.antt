-- ===== src/Boot/Segments.antt =====
-- src/elf.c: what loading one segment leaves in the guest's RAM.
use tinyvm.Base.{
  if◌then◌else◌, if-elim, ℕ, ◌+◌, ◌-◌, ◌≤◌, ◌≡◌, refl, ap, sym, subst, ◌∙◌, true, leb, ltb, List,
  ◌++◌, length, add64, zero, suc, ok, pure, ◌>>=◌, arith, Exec,
}
use tinyvm.Machine.{Machine, MemRegion}
use tinyvm.Memory.{
  load_bytes, load_list, store_list, find_region, found_or_exit, mem_find_region, mem_write_buf,
}
use tinyvm.Memory.Copy.{
  with_ram, InRam, write_ram, first_found, length-load_list, store_list-append,
}
use tinyvm.Boot.Elf.{FileData, host_read, host_pointer, copy_in, zeros, load_segment}

pub length-zeros : (k : ℕ) → length (zeros k) ≡ k
unfolding zeros
length-zeros zero = refl
length-zeros (suc k) = ap suc (length-zeros k)

-- The fields of the program header at `phdr`.
abbrev pub paddr_of : FileData → ℕ → ℕ
paddr_of image phdr = load_bytes image.bytes (phdr + 24) 8

abbrev pub offset_of : FileData → ℕ → ℕ
offset_of image phdr = load_bytes image.bytes (phdr + 8) 8

abbrev pub file_size_of : FileData → ℕ → ℕ
file_size_of image phdr = load_bytes image.bytes (phdr + 32) 8

abbrev pub mem_size_of : FileData → ℕ → ℕ
mem_size_of image phdr = load_bytes image.bytes (phdr + 40) 8

-- The segment's bytes: those of the file, and then zeros.
abbrev pub contents : FileData → ℕ → List ℕ
contents image phdr =
    load_list image.bytes (offset_of image phdr) (file_size_of image phdr)
    ++ zeros (mem_size_of image phdr - file_size_of image phdr)

-- The header and the segment's bytes are inside the file, and the segment fits the RAM.
pub record FitsRam (image : FileData) (phdr phys_base base size : ℕ) : Type 0 where
  pub header_in_file : phdr + 48 ≤ image.size
  pub bytes_in_file : offset_of image phdr + file_size_of image phdr ≤ image.size
  pub grows : file_size_of image phdr ≤ mem_size_of image phdr
  pub in_ram : InRam base size (add64 (paddr_of image phdr) phys_base) (mem_size_of image phdr)

module _ (image : FileData) (base size : ℕ) (rs : List MemRegion) (m : Machine) where
  pub read_field :
      (off width : ℕ) (f : ℕ → ℕ)
      → off + width ≤ image.size
      → host_read image off width (with_ram base size rs m f)
        ≡ ok (load_bytes image.bytes off width, with_ram base size rs m f)
  unfolding host_read pure
  read_field off width f h =
      let inside : leb (off + width) image.size ≡ true = ground arith in rw (inside) refl

  copy_in-with_ram :
      (addr offset len : ℕ) (f : ℕ → ℕ)
      → offset + len ≤ image.size
      → InRam base size addr len
      → copy_in image addr offset len (with_ram base size rs m f)
        ≡ ok (
          tt,
          with_ram base size rs m (store_list f (addr - base) (load_list image.bytes offset len)),
        )
  unfolding copy_in host_pointer mem_find_region find_region found_or_exit pure ◌>>=◌
  copy_in-with_ram addr offset len f h k =
      let starts : leb offset image.size ≡ true = ground arith in
      let ends : leb (offset + len) image.size ≡ true = ground arith in
      let there = subst (InRam base size addr) (sym (length-load_list image.bytes offset len)) k in
      rw (starts, first_found base size rs m f addr len k, ends)
        (write_ram base size rs m f addr (load_list image.bytes offset len) there)

  copy_initialized :
      (addr phdr len : ℕ) (f : ℕ → ℕ)
      → phdr + 48 ≤ image.size
      → offset_of image phdr + len ≤ image.size
      → InRam base size addr len
      → (if ltb 0 len
            then (do offset ← host_read image (phdr + 8) 8; copy_in image addr offset len)
            else pure tt)
          (with_ram base size rs m f)
        ≡ ok (
          tt,
          with_ram base size rs m
              (store_list f (addr - base) (load_list image.bytes (offset_of image phdr) len)),
        )
  unfolding pure ◌>>=◌ load_list store_list
  copy_initialized addr phdr len f header inside part =
      let next : phdr + 8 + 8 ≤ image.size = omega (arith, header) in
      if-elim
        (λ (x : Exec Machine (Unit {0})).
          x (with_ram base size rs m f)
          ≡ ok (
            tt,
            with_ram base size rs m
                (store_list f (addr - base) (load_list image.bytes (offset_of image phdr) len)),
          ))
        (ltb 0 len) _ _
        (λ _.
          rw (read_field (phdr + 8) 8 f next)
            (copy_in-with_ram addr (offset_of image phdr) len f inside part))
        (λ e. let none : len ≡ 0 = ground (arith, e) in rw (none) refl)

  zero_bss :
      (addr file_size mem_size : ℕ) (g : ℕ → ℕ)
      → file_size ≤ mem_size
      → InRam base size addr mem_size
      → (if ltb file_size mem_size
            then mem_write_buf (add64 addr file_size) (zeros (mem_size - file_size))
            else pure tt)
          (with_ram base size rs m g)
        ≡ ok (
          tt,
          with_ram base size rs m
              (store_list g (addr - base + file_size) (zeros (mem_size - file_size))),
        )
  unfolding pure zeros store_list
  zero_bss addr file_size mem_size g le in_ram =
      let below = in_ram.below in
      let c = in_ram.no_wrap in
      let above = in_ram.above in
      let at : add64 addr file_size ≡ addr + file_size = omega (arith, le, below, c) in
      let there : addr + file_size - base ≡ addr - base + file_size = omega (arith, above) in
      let tail : InRam base size (addr + file_size) (length (zeros (mem_size - file_size))) =
        subst (InRam base size (addr + file_size)) (sym (length-zeros (mem_size - file_size)))
          (record {
            above = omega (arith, above);
            below = omega (arith, below, le);
            no_wrap = c;
          }) in
      if-elim
        (λ (x : Exec Machine (Unit {0})).
          x (with_ram base size rs m g)
          ≡ ok (
            tt,
            with_ram base size rs m
                (store_list g (addr - base + file_size) (zeros (mem_size - file_size))),
          ))
        (ltb file_size mem_size) _ _
        (λ _. rw (at) (
          write_ram base size rs m g (addr + file_size) (zeros (mem_size - file_size)) tail
          ∙ ap
              (λ o.
                ok (tt, with_ram base size rs m (store_list g o (zeros (mem_size - file_size)))))
              there))
        (λ e. let none : mem_size - file_size ≡ 0 = ground (arith, e, le) in rw (none) refl)

  -- A LOAD segment whose header and bytes are inside the file and whose memory is inside the RAM is
  -- loaded: the bytes of the file, and zeros up to the memory size after them, are stored from its
  -- physical address on, and nothing else changes.
  pub load_segment-contents :
      (phdr phys_base : ℕ) (f : ℕ → ℕ)
      → FitsRam image phdr phys_base base size
      → load_segment image phys_base phdr (with_ram base size rs m f)
        ≡ ok (
          tt,
          with_ram base size rs m
              (store_list f (add64 (paddr_of image phdr) phys_base - base) (contents image phdr)),
        )
  unfolding load_segment ◌>>=◌
  load_segment-contents phdr phys_base f fits =
      let header = fits.header_in_file in
      let addr = add64 (paddr_of image phdr) phys_base in
      let file_size = file_size_of image phdr in
      let mem_size = mem_size_of image phdr in
      let in_ram = fits.in_ram in
      let bytes = load_list image.bytes (offset_of image phdr) file_size in
      let g = store_list f (addr - base) bytes in
      let part : InRam base size addr file_size = record {
        above = in_ram.above;
        below = omega (arith, in_ram.below, fits.grows);
        no_wrap = in_ram.no_wrap;
      } in
      let copied = copy_initialized addr phdr file_size f header fits.bytes_in_file part in
      let paddr = read_field (phdr + 24) 8 f (omega (arith, header)) in
      let initialized = read_field (phdr + 32) 8 f (omega (arith, header)) in
      let total = read_field (phdr + 40) 8 g (omega (arith, header)) in
      let joined = store_list-append f (addr - base) bytes (zeros (mem_size - file_size)) in
      rw (paddr, initialized)
        (rw (copied, total)
          (zero_bss addr file_size mem_size g fits.grows in_ram
            ∙ ap (λ h. ok (tt, with_ram base size rs m h))
                (sym (
                  joined
                  ∙ ap (λ k. store_list g (addr - base + k) (zeros (mem_size - file_size)))
                      (length-load_list image.bytes (offset_of image phdr) file_size)))))
