-- ===== src/Boot/Elf.antt =====
-- src/elf.c, include/elf.h: loading an ELF64 file into the guest's memory. A parameter gives the
-- files that fopen can open; malloc, calloc and fread are taken to succeed.
use Prim.Native.String.{String}
use tinyvm.Base.{
  ℕ, zero, suc, ◌+◌, ◌-◌, ◌*◌, ◌^◌, Bool, true, false, not, ◌==◌, ltb, leb, if◌then◌else◌, Option,
  none, some, List, [], ◌∷◌, add64, sub64, Exec, pure, crash, modify, ◌>>=◌, ◌>>◌,
}
use tinyvm.Machine.{Machine, on_cpu}
use tinyvm.Memory.{load_bytes, load_list, mem_find_region, mem_write_buf}

abbrev pub elf_class64 : ℕ
elf_class64 = 2

abbrev pub elf_data_lsb : ℕ
elf_data_lsb = 1

abbrev pub elf_mach_riscv : ℕ
elf_mach_riscv = 243

abbrev pub elf_pt_load : ℕ
elf_pt_load = 1

abbrev pub elf_magic_len : ℕ
elf_magic_len = 4

-- "\x7f" "ELF", as memcmp reads it.
abbrev pub elf_magic : ℕ
elf_magic = 0x464C457F

-- (u64)-1.
abbrev pub load_failed : ℕ
load_failed = 2 ^ 64 - 1

-- A file's bytes, in an array of `size` of them.
pub record FileData : Type 0 where
  pub bytes : ℕ → ℕ
  pub size : ℕ

abbrev pub HostFiles : Type 0
HostFiles = String → Option FileData

-- A read of the host's array: outside it, it is undefined.
unfoldable pub host_read : FileData → ℕ → ℕ → Exec Machine ℕ
host_read image off width =
    if leb (off + width) image.size then pure (load_bytes image.bytes off width) else crash

-- data + offset, where a pointer past the array is undefined.
unfoldable pub host_pointer : FileData → ℕ → Exec Machine ℕ
host_pointer image off = if leb off image.size then pure off else crash

-- The fields of ElfHeader that elf_load reads after the checks. It reads ph_num, the last of them,
-- in any case.
pub record ElfHeader : Type 0 where
  pub entry : ℕ
  pub ph_off : ℕ
  pub ph_ent_size : ℕ
  pub ph_num : ℕ

unfoldable pub elf_header : FileData → Exec Machine ElfHeader
elf_header image = do
  entry ← host_read image 24 8
  ph_off ← host_read image 32 8
  ph_ent_size ← host_read image 54 2
  ph_num ← host_read image 56 2
  pure (record { entry = entry; ph_off = ph_off; ph_ent_size = ph_ent_size; ph_num = ph_num })

-- ident and machine. && and || read no further than they have to.
unfoldable pub elf_is_valid : FileData → Exec Machine Bool
elf_is_valid image = do
  magic ← host_read image 0 elf_magic_len
  if not (magic == elf_magic) then pure false else do
    class ← host_read image 4 1
    if not (class == elf_class64) then pure false else do
      encoding ← host_read image 5 1
      if not (encoding == elf_data_lsb)
          then pure false
          else do machine ← host_read image 18 2; pure (machine == elf_mach_riscv)

-- data + ehdr->ph_off + i * ehdr->ph_ent_size. The product is an int, whose overflow is undefined.
unfoldable pub program_header : FileData → ElfHeader → ℕ → Exec Machine ℕ
program_header image ehdr i =
    if leb (2 ^ 31) (i * ehdr.ph_ent_size)
    then crash
    else host_pointer image (ehdr.ph_off + i * ehdr.ph_ent_size)

-- The first loop, from the header `i` on, with `left` headers left.
unfoldable pub virt_shift_from : FileData → ElfHeader → ℕ → ℕ → Exec Machine ℕ
virt_shift_from image ehdr i zero = pure 0
virt_shift_from image ehdr i (suc left) = do
  phdr ← program_header image ehdr i
  type ← host_read image phdr 4
  let rest = virt_shift_from image ehdr (i + 1) left
  if not (type == elf_pt_load) then rest else do
    vaddr ← host_read image (phdr + 16) 8
    paddr ← host_read image (phdr + 24) 8
    pure (sub64 vaddr paddr)

-- mem_write_buf(mem, addr, data + offset, len): the region is found before the array is read.
unfoldable pub copy_in : FileData → ℕ → ℕ → ℕ → Exec Machine (Unit {0})
copy_in image addr offset len = do
  at ← host_pointer image offset
  found ← mem_find_region addr len
  if leb (at + len) image.size then mem_write_buf addr (load_list image.bytes at len) else crash

unfoldable pub zeros : ℕ → List ℕ
zeros zero = []
zeros (suc k) = 0 ∷ zeros k

-- One LOAD segment.
unfoldable pub load_segment : FileData → ℕ → ℕ → Exec Machine (Unit {0})
load_segment image phys_base phdr = do
  paddr ← host_read image (phdr + 24) 8
  let phys_addr = add64 paddr phys_base
  file_size ← host_read image (phdr + 32) 8
  if ltb 0 file_size
      then (do offset ← host_read image (phdr + 8) 8; copy_in image phys_addr offset file_size)
      else pure tt
  mem_size ← host_read image (phdr + 40) 8
  if ltb file_size mem_size
      then mem_write_buf (add64 phys_addr file_size) (zeros (mem_size - file_size))
      else pure tt

-- The second loop.
unfoldable pub load_segments_from : FileData → ElfHeader → ℕ → ℕ → ℕ → Exec Machine (Unit {0})
load_segments_from image ehdr phys_base i zero = pure tt
load_segments_from image ehdr phys_base i (suc left) = do
  phdr ← program_header image ehdr i
  type ← host_read image phdr 4
  let rest = load_segments_from image ehdr phys_base (i + 1) left
  if not (type == elf_pt_load) then rest else (load_segment image phys_base phdr >> rest)

unfoldable pub elf_load_data : FileData → ℕ → Exec Machine ℕ
elf_load_data image phys_base = do
  valid ← elf_is_valid image
  if not valid then pure load_failed else do
    ehdr ← elf_header image
    virt_shift ← virt_shift_from image ehdr 0 ehdr.ph_num
    load_segments_from image ehdr phys_base 0 ehdr.ph_num
    pure (add64 (sub64 ehdr.entry virt_shift) phys_base)

module _ (files : HostFiles) where
  unfoldable pub elf_load : String → ℕ → Exec Machine ℕ
  elf_load path phys_base = elim (files path) [
    | none ↦ pure load_failed
    | some image ↦ elf_load_data image phys_base
  ]

  -- `true` is the result 0, and `false` is -1.
  unfoldable pub elf_boot : String → Exec Machine Bool
  elf_boot path = do
    entry ← elf_load path 0
    if entry == load_failed
        then pure false
        else do modify (on_cpu (λ c. record c { pc = entry })); pure true
