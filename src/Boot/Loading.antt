-- ===== src/Boot/Loading.antt =====
-- src/elf.c: what loading a whole file leaves in the guest's RAM, and where it starts.
use Prim.Native.String.{String}
use tinyvm.Base.{
  ℕ, zero, suc, ◌+◌, ◌-◌, ◌*◌, ◌^◌, ◌≤◌, ◌<◌, ◌≡◌, refl, sym, Bool, true, false, Bool-cases, inl,
  inr, ◌==◌, leb, if◌then◌else◌, List, none, some, subst, Outcome, add64, sub64, ok, pure, Exec,
  ◌>>=◌, arith,
}
use tinyvm.Machine.{Machine, MemRegion}
use tinyvm.Memory.{load_bytes, store_list}
use tinyvm.Memory.Copy.{with_ram}
use tinyvm.Boot.Elf.{
  FileData, HostFiles, ElfHeader, elf_magic, elf_magic_len, elf_class64, elf_data_lsb,
  elf_mach_riscv, elf_pt_load, elf_header, elf_is_valid, program_header, host_pointer,
  virt_shift_from, load_segments_from, elf_load_data, elf_load, load_failed,
}
use tinyvm.Boot.Segments.{paddr_of, contents, FitsRam, read_field, load_segment-contents}

abbrev field_of : FileData → ℕ → ℕ → ℕ
field_of image off width = load_bytes image.bytes off width

-- The header of a 64-bit little-endian RISC-V file.
pub record IsElf (image : FileData) : Type 0 where
  pub header_in_file : 64 ≤ image.size
  pub magic_is : load_bytes image.bytes 0 4 ≡ elf_magic
  pub class_is : load_bytes image.bytes 4 1 ≡ elf_class64
  pub encoding_is : load_bytes image.bytes 5 1 ≡ elf_data_lsb
  pub machine_is : load_bytes image.bytes 18 2 ≡ elf_mach_riscv

abbrev pub header_of : FileData → ElfHeader
header_of image = record {
  entry = load_bytes image.bytes 24 8;
  ph_off = load_bytes image.bytes 32 8;
  ph_ent_size = load_bytes image.bytes 54 2;
  ph_num = load_bytes image.bytes 56 2;
}

-- The place of program header i, and whether it is of a LOAD segment.
abbrev pub header_at : ElfHeader → ℕ → ℕ
header_at ehdr i = ehdr.ph_off + i * ehdr.ph_ent_size

abbrev pub is_load : FileData → ElfHeader → ℕ → Bool
is_load image ehdr i = load_bytes image.bytes (header_at ehdr i) 4 == elf_pt_load

-- The bytes of the RAM after the LOAD segments among `left` headers from header i on, in their order.
unfoldable pub loaded : FileData → ElfHeader → ℕ → ℕ → ℕ → ℕ → (ℕ → ℕ) → ℕ → ℕ
loaded image ehdr phys_base base i zero f = f
loaded image ehdr phys_base base i (suc left) f =
    let phdr = header_at ehdr i in
    loaded image ehdr phys_base base (i + 1) left (
      if is_load image ehdr i
      then store_list f (add64 (paddr_of image phdr) phys_base - base) (contents image phdr)
      else f)

-- The virtual address less the physical one in the first LOAD segment, and 0 where there is none.
unfoldable pub shift_of : FileData → ElfHeader → ℕ → ℕ → ℕ
shift_of image ehdr i zero = 0
shift_of image ehdr i (suc left) =
    let rest = shift_of image ehdr (i + 1) left in
    if is_load image ehdr i
    then sub64 (load_bytes image.bytes (header_at ehdr i + 16) 8)
        (paddr_of image (header_at ehdr i))
    else rest

-- Header i is inside the file, its offset is an int, and if it is of a LOAD segment, that fits.
pub record IsHeader (image : FileData) (ehdr : ElfHeader) (phys_base base size i : ℕ) : Type 0 where
  pub no_overflow : i * ehdr.ph_ent_size < 2 ^ 31
  pub in_file : header_at ehdr i + 48 ≤ image.size
  pub segment_fits :
      is_load image ehdr i ≡ true → FitsRam image (header_at ehdr i) phys_base base size

module _ (image : FileData) (base size : ℕ) (rs : List MemRegion) (m : Machine) where
  program_header-at :
      (ehdr : ElfHeader) (i : ℕ) (f : ℕ → ℕ)
      → i * ehdr.ph_ent_size < 2 ^ 31
      → header_at ehdr i + 48 ≤ image.size
      → program_header image ehdr i (with_ram base size rs m f)
        ≡ ok (header_at ehdr i, with_ram base size rs m f)
  unfolding program_header host_pointer pure
  program_header-at ehdr i f small inside =
      let no_overflow : leb (2 ^ 31) (i * ehdr.ph_ent_size) ≡ false = ground arith in
      let there : leb (header_at ehdr i) image.size ≡ true = ground arith in
      rw (no_overflow, there) refl

  elf_is_valid-true :
      (f : ℕ → ℕ)
      → IsElf image
      → elf_is_valid image (with_ram base size rs m f) ≡ ok (true, with_ram base size rs m f)
  unfolding elf_is_valid pure ◌>>=◌
  elf_is_valid-true f h =
      let n = h.header_in_file in
      rw
        (
          read_field image base size rs m 0 elf_magic_len f (omega (arith, n)),
          h.magic_is,
          read_field image base size rs m 4 1 f (omega (arith, n)),
          h.class_is,
          read_field image base size rs m 5 1 f (omega (arith, n)),
          h.encoding_is,
          read_field image base size rs m 18 2 f (omega (arith, n)),
          h.machine_is,
        )
        refl

  elf_header-of :
      (f : ℕ → ℕ)
      → 64 ≤ image.size
      → elf_header image (with_ram base size rs m f)
        ≡ ok (header_of image, with_ram base size rs m f)
  unfolding elf_header pure ◌>>=◌
  elf_header-of f n =
      rw
        (
          read_field image base size rs m 24 8 f (omega (arith, n)),
          read_field image base size rs m 32 8 f (omega (arith, n)),
          read_field image base size rs m 54 2 f (omega (arith, n)),
          read_field image base size rs m 56 2 f (omega (arith, n)),
        )
        refl

  load_segments_from-loaded :
      (ehdr : ElfHeader) (phys_base i left : ℕ) (f : ℕ → ℕ)
      → ((j : ℕ) → i ≤ j → j < i + left → IsHeader image ehdr phys_base base size j)
      → load_segments_from image ehdr phys_base i left (with_ram base size rs m f)
        ≡ ok (tt, with_ram base size rs m (loaded image ehdr phys_base base i left f))
  unfolding load_segments_from loaded pure ◌>>=◌
  load_segments_from-loaded ehdr phys_base i zero f all = refl
  load_segments_from-loaded ehdr phys_base i (suc left) f all =
      let here = all i (omega arith) (omega arith) in
      let place = program_header-at ehdr i f here.no_overflow here.in_file in
      let type =
        read_field image base size rs m (header_at ehdr i) 4 f (omega (arith, here.in_file)) in
      let rest = λ (g : ℕ → ℕ).
        load_segments_from-loaded ehdr phys_base (i + 1) left g
          λ j l k. all j (omega arith) (omega arith) in
      elim (Bool-cases (is_load image ehdr i)) [
        | inl e ↦
            rw
              (
                place,
                type,
                e,
                load_segment-contents image base size rs m (header_at ehdr i) phys_base f
                    (here.segment_fits e),
              )
              (rest _)
        | inr e ↦ rw (place, type, e) (rest f)
      ]

  virt_shift_from-shift_of :
      (ehdr : ElfHeader) (phys_base i left : ℕ) (f : ℕ → ℕ)
      → ((j : ℕ) → i ≤ j → j < i + left → IsHeader image ehdr phys_base base size j)
      → virt_shift_from image ehdr i left (with_ram base size rs m f)
        ≡ ok (shift_of image ehdr i left, with_ram base size rs m f)
  unfolding virt_shift_from shift_of pure ◌>>=◌
  virt_shift_from-shift_of ehdr phys_base i zero f all = refl
  virt_shift_from-shift_of ehdr phys_base i (suc left) f all =
      let here = all i (omega arith) (omega arith) in
      let place = program_header-at ehdr i f here.no_overflow here.in_file in
      let type =
        read_field image base size rs m (header_at ehdr i) 4 f (omega (arith, here.in_file)) in
      let vaddr =
        read_field image base size rs m (header_at ehdr i + 16) 8 f (omega (arith, here.in_file)) in
      let paddr =
        read_field image base size rs m (header_at ehdr i + 24) 8 f (omega (arith, here.in_file)) in
      let rest =
        virt_shift_from-shift_of ehdr phys_base (i + 1) left f
          λ j l k. all j (omega arith) (omega arith) in
      elim (Bool-cases (is_load image ehdr i)) [
        | inl e ↦ rw (place, type, e, vaddr, paddr) refl
        | inr e ↦ rw (place, type, e) rest
      ]

  -- What the functions return, and the RAM that they leave.
  abbrev pub whole_load : ℕ → (ℕ → ℕ) → Outcome (ℕ × Machine)
  whole_load phys_base f =
      let ehdr = header_of image in
      ok (
        add64 (sub64 ehdr.entry (shift_of image ehdr 0 ehdr.ph_num)) phys_base,
        with_ram base size rs m (loaded image ehdr phys_base base 0 ehdr.ph_num f),
      )

  elf_load_data-loaded :
      (phys_base : ℕ) (f : ℕ → ℕ)
      → IsElf image
      → ((i : ℕ)
          → i < (header_of image).ph_num
          → IsHeader image (header_of image) phys_base base size i)
      → elf_load_data image phys_base (with_ram base size rs m f) ≡ whole_load phys_base f
  unfolding elf_load_data pure ◌>>=◌
  elf_load_data-loaded phys_base f valid all =
      let ehdr = header_of image in
      let within = λ (j : ℕ) (l : 0 ≤ j) (k : j < 0 + ehdr.ph_num). all j (omega (arith, k)) in
      rw
        (
          elf_is_valid-true f valid,
          elf_header-of f valid.header_in_file,
          virt_shift_from-shift_of ehdr phys_base 0 ehdr.ph_num f within,
          load_segments_from-loaded ehdr phys_base 0 ehdr.ph_num f within,
        )
        refl

  -- A 64-bit little-endian RISC-V file whose program headers are inside it and whose LOAD segments fit the
  -- RAM is loaded: for each of these segments in turn, the bytes of the file and then zeros are stored
  -- from its physical address on, nothing else changes, and the result is the entry less the shift of the
  -- first of them, moved by the base.
  pub elf_load-loaded :
      (files : HostFiles) (path : String) (phys_base : ℕ) (f : ℕ → ℕ)
      → files path ≡ some image
      → IsElf image
      → ((i : ℕ)
          → i < (header_of image).ph_num
          → IsHeader image (header_of image) phys_base base size i)
      → elf_load files path phys_base (with_ram base size rs m f) ≡ whole_load phys_base f
  unfolding elf_load
  elf_load-loaded files path phys_base f opens valid all =
      subst
        (λ o.
          (elim o as (λ _. Exec Machine ℕ) [
            | none ↦ pure load_failed
            | some file ↦ elf_load_data file phys_base
          ])
            (with_ram base size rs m f)
          ≡ whole_load phys_base f)
        (sym opens) (elf_load_data-loaded phys_base f valid all)
