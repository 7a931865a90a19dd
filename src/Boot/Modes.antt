-- ===== src/Boot/Modes.antt =====
-- src/kernel_boot.c, src/linux_boot.c, and mem_load_file of src/memory.c.
use Prim.Native.String.{String}
use tinyvm.Base.{
  ℕ, ◌+◌, Bool, true, false, ◌==◌, leb, if◌then◌else◌, none, some, set_at, add64, sub64, Exec, pure,
  crash, modify, ◌>>=◌, ◌>>◌,
}
use tinyvm.Machine.{Machine, Cpu, on_cpu}
use tinyvm.Memory.{
  DeviceIo, load_list, store_list, mem_find_region, data_or_crash, set_region, mem_read16,
}
use tinyvm.Cpu.Csr.{reg_a0, reg_a1}
use tinyvm.Sbi.{sbi_init}
use tinyvm.Boot.Elf.{HostFiles, FileData, load_failed, elf_load}

abbrev pub linux_dtb_addr : ℕ
linux_dtb_addr = 0x82000000

abbrev pub linux_initramfs_addr : ℕ
linux_initramfs_addr = 0x84000000

-- fread into r->data: NULL and anything outside the array are undefined.
unfoldable pub load_into : FileData → ℕ → Exec Machine (Unit {0})
load_into image addr = do
  found ← mem_find_region addr image.size
  f ← data_or_crash found.1.bytes
  let off = sub64 addr found.1.base
  if leb (off + image.size) found.1.size
      then modify (
          set_region found.0 (record found.1 {
            bytes = some (store_list f off (load_list image.bytes 0 image.size));
          }))
      else crash

-- cpu->regs[REG_A0] = 0; cpu->regs[REG_A1] = dtb; sbi_init(cpu, entry).
abbrev pub start_kernel : ℕ → ℕ → Cpu → Cpu
start_kernel dtb entry c =
    sbi_init (record c { regs = set_at (set_at c.regs reg_a0 0) reg_a1 dtb }) entry

module _ (files : HostFiles) where
  unfoldable pub mem_load_file : String → ℕ → Exec Machine Bool
  mem_load_file path addr = elim (files path) [
    | none ↦ pure false
    | some image ↦ load_into image addr >> pure true
  ]

  -- `true` is the result 0, and `false` is -1, as in the next one.
  unfoldable pub kernel_boot : String → Exec Machine Bool
  kernel_boot kernel_path = do
    entry ← elf_load files kernel_path 0
    if entry == load_failed
        then pure false
        else do modify (on_cpu (start_kernel 0 entry)); pure true

  unfoldable pub linux_boot : DeviceIo → String → String → String → Exec Machine Bool
  linux_boot io kernel_path dtb_path initramfs_path = do
    entry ← elf_load files kernel_path 0x80000000
    if entry == load_failed then pure false else do
      magic ← mem_read16 io entry
      let start = if magic == 0x5a4d then add64 entry 2 else entry
      dtb ← mem_load_file dtb_path linux_dtb_addr
      if dtb
          then (do
            initramfs ← mem_load_file initramfs_path linux_initramfs_addr
            if initramfs
                then (do modify (on_cpu (start_kernel linux_dtb_addr start)); pure true)
                else pure false)
          else pure false
