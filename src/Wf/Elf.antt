-- ===== src/Wf/Elf.antt =====
-- src/elf.c, and mem_load_file of src/memory.c: loading a file keeps the machine well-formed.
use tinyvm.Base.{
  ℕ, zero, suc, ◌+◌, ◌*◌, ◌^◌, not, ◌==◌, ltb, leb, sub64, Gives, Keeps, Gives-pure, Keeps-pure,
  Gives-crash, Keeps-modify, Gives-if, Gives-bind, arith,
}
use tinyvm.Boot.Elf.{
  FileData, ElfHeader, host_read, host_pointer, elf_header, elf_is_valid, program_header,
  virt_shift_from, copy_in, zeros, load_segment, elf_magic, elf_class64, elf_data_lsb,
  load_segments_from, elf_load_data, elf_pt_load,
}
use tinyvm.Boot.Modes.{load_into}
use tinyvm.Wf.Defs.{IsMachine, IsU64, AllU8}
use tinyvm.Wf.Memory.{set_region-IsMachine, mem_find_region-Gives, data_or_crash-Gives, IsData}
use tinyvm.Wf.Buffer.{mem_write_buf-Keeps, load_list-fit, store_list-fit}

host_read-Keeps : (image : FileData) (off width : ℕ) → Keeps IsMachine (host_read image off width)
unfolding host_read
host_read-Keeps image off width =
    Gives-if (leb (off + width) image.size) _ _ (λ _. Keeps-pure _) (λ _. Gives-crash)

host_pointer-Keeps : (image : FileData) (off : ℕ) → Keeps IsMachine (host_pointer image off)
unfolding host_pointer
host_pointer-Keeps image off =
    Gives-if (leb off image.size) _ _ (λ _. Keeps-pure _) (λ _. Gives-crash)

elf_header-Keeps : (image : FileData) → Keeps IsMachine (elf_header image)
unfolding elf_header
elf_header-Keeps image =
    let field = host_read-Keeps image in
    Gives-bind _ _ (field 24 8) λ _ _.
      Gives-bind _ _ (field 32 8)
        λ _ _. Gives-bind _ _ (field 54 2) λ _ _. Gives-bind _ _ (field 56 2) λ _ _. Keeps-pure _

elf_is_valid-Keeps : (image : FileData) → Keeps IsMachine (elf_is_valid image)
unfolding elf_is_valid
elf_is_valid-Keeps image =
    let field = host_read-Keeps image in
    Gives-bind _ _ (field 0 4) λ magic _.
      Gives-if (not (magic == elf_magic)) _ _ (λ _. Keeps-pure _)
        λ _. Gives-bind _ _ (field 4 1) λ class _.
          Gives-if (not (class == elf_class64)) _ _ (λ _. Keeps-pure _)
            λ _. Gives-bind _ _ (field 5 1) λ encoding _.
              Gives-if (not (encoding == elf_data_lsb)) _ _ (λ _. Keeps-pure _)
                λ _. Gives-bind _ _ (field 18 2) λ machine _. Keeps-pure _

program_header-Keeps :
    (image : FileData) (ehdr : ElfHeader) (i : ℕ) → Keeps IsMachine (program_header image ehdr i)
unfolding program_header
program_header-Keeps image ehdr i =
    Gives-if (leb (2 ^ 31) (i * ehdr.ph_ent_size)) _ _ (λ _. Gives-crash)
      (λ _. host_pointer-Keeps image _)

virt_shift_from-Keeps :
    (image : FileData) (ehdr : ElfHeader) (i left : ℕ)
    → Keeps IsMachine (virt_shift_from image ehdr i left)
unfolding virt_shift_from
virt_shift_from-Keeps image ehdr i zero = Keeps-pure _
virt_shift_from-Keeps image ehdr i (suc left) =
    Gives-bind _ _ (program_header-Keeps image ehdr i) λ phdr _.
      Gives-bind _ _ (host_read-Keeps image phdr 4) λ type _.
        Gives-if (not (type == elf_pt_load)) _ _
          (λ _. virt_shift_from-Keeps image ehdr (i + 1) left)
          λ _.
            Gives-bind _ _ (host_read-Keeps image _ 8)
              λ _ _. Gives-bind _ _ (host_read-Keeps image _ 8) λ _ _. Keeps-pure _

zeros-AllU8 : (k : ℕ) → AllU8 (zeros k)
unfolding zeros
zeros-AllU8 zero = tt
zeros-AllU8 (suc k) = (omega arith, zeros-AllU8 k)

module _ (image : FileData) (is_image : IsData image.bytes) where
  copy_in-Keeps : (addr offset len : ℕ) → Keeps IsMachine (copy_in image addr offset len)
  unfolding copy_in
  copy_in-Keeps addr offset len = Gives-bind _ _ (host_pointer-Keeps image offset) λ at _.
      Gives-bind _ _ (mem_find_region-Gives addr len) λ found _.
        Gives-if (leb (at + len) image.size) _ _
          (λ _. mem_write_buf-Keeps addr _ (load_list-fit image.bytes at len is_image))
          (λ _. Gives-crash)

  load_segment-Keeps : (phys_base phdr : ℕ) → Keeps IsMachine (load_segment image phys_base phdr)
  unfolding load_segment
  load_segment-Keeps phys_base phdr =
      let field = host_read-Keeps image in
      Gives-bind _ _ (field _ 8) λ paddr _. Gives-bind _ _ (field _ 8) λ file_size _.
        Gives-bind _ _
          (Gives-if (ltb 0 file_size) _ _
            (λ _. Gives-bind _ _ (field _ 8) λ offset _. copy_in-Keeps _ offset file_size)
            (λ _. Keeps-pure tt))
          λ _ _. Gives-bind _ _ (field _ 8) λ mem_size _.
            Gives-if (ltb file_size mem_size) _ _ (λ _. mem_write_buf-Keeps _ _ (zeros-AllU8 _))
              (λ _. Keeps-pure tt)

  load_segments_from-Keeps :
      (ehdr : ElfHeader) (phys_base i left : ℕ)
      → Keeps IsMachine (load_segments_from image ehdr phys_base i left)
  unfolding load_segments_from
  load_segments_from-Keeps ehdr phys_base i zero = Keeps-pure tt
  load_segments_from-Keeps ehdr phys_base i (suc left) =
      let rest = load_segments_from-Keeps ehdr phys_base (i + 1) left in
      Gives-bind _ _ (program_header-Keeps image ehdr i) λ phdr _.
        Gives-bind _ _ (host_read-Keeps image phdr 4) λ type _.
          Gives-if (not (type == elf_pt_load)) _ _ (λ _. rest)
            (λ _. Gives-bind _ _ (load_segment-Keeps phys_base phdr) λ _ _. rest)

  pub elf_load_data-Gives : (phys_base : ℕ) → Gives IsMachine IsU64 (elf_load_data image phys_base)
  unfolding elf_load_data
  elf_load_data-Gives phys_base = Gives-bind _ _ (elf_is_valid-Keeps image) λ valid _.
      Gives-if (not valid) _ _ (λ _. Gives-pure _ (omega arith))
        λ _. Gives-bind _ _ (elf_header-Keeps image) λ ehdr _.
          Gives-bind _ _ (virt_shift_from-Keeps image ehdr 0 ehdr.ph_num) λ shift _.
            Gives-bind _ _ (load_segments_from-Keeps ehdr phys_base 0 ehdr.ph_num)
              λ _ _. Gives-pure _ (omega arith)

  pub load_into-Keeps : (addr : ℕ) → Keeps IsMachine (load_into image addr)
  unfolding load_into
  load_into-Keeps addr = Gives-bind _ _ (mem_find_region-Gives addr image.size) λ found k.
      Gives-bind _ _ (data_or_crash-Gives found.1.bytes k) λ f b.
        Gives-if (leb (sub64 addr found.1.base + image.size) found.1.size) _ _
          (λ _. Keeps-modify _ (λ m h.
            set_region-IsMachine found.0 _ m
              (store_list-fit f _ _ b (load_list-fit image.bytes 0 image.size is_image)) h))
          (λ _. Gives-crash)
