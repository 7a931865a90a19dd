-- ===== src/Boot/Refusal.antt =====
-- src/elf.c, src/main.c: files that are missing or not for this machine are refused.
use Prim.Native.String.{String}
use tinyvm.Base.{
  Exec, if◌then◌else◌, ℕ, ◌+◌, ◌≤◌, ◌≡◌, refl, ◌&&◌, Bool, true, false, not, ◌==◌, leb, if-elim,
  Option, none, some, List, ◌∷◌, ok, exits, exit, pure, modify, ◌>>=◌, arith,
}
use tinyvm.Machine.{Machine}
use tinyvm.Memory.{DeviceIo, load_bytes}
use tinyvm.Boot.Elf.{
  FileData, HostFiles, elf_magic, elf_class64, elf_data_lsb, elf_mach_riscv, host_read,
  elf_is_valid, elf_load_data, elf_load, elf_boot, load_failed,
}
use tinyvm.Device.Table.{device_io}
use tinyvm.Boot.Modes.{kernel_boot, linux_boot}
use tinyvm.Boot.Main.{Host, boot, is_same, main, init, disk_path}

-- The ELF magic, 64-bit, little-endian, RISC-V.
abbrev pub is_riscv_elf : FileData → Bool
is_riscv_elf image =
    (load_bytes image.bytes 0 4 == elf_magic)
    && ((load_bytes image.bytes 4 1 == elf_class64)
        && ((load_bytes image.bytes 5 1 == elf_data_lsb)
            && (load_bytes image.bytes 18 2 == elf_mach_riscv)))

-- A file that does not exist, or one that reaches to the end of `machine` and is no such file.
abbrev pub Unloadable : Option FileData → Type 0
Unloadable none = Unit
Unloadable (some image) = (20 ≤ image.size) × (is_riscv_elf image ≡ false)

in_file :
    (image : FileData) (off width : ℕ) (m : Machine)
    → off + width ≤ 20
    → 20 ≤ image.size
    → host_read image off width m ≡ ok (load_bytes image.bytes off width, m)
unfolding host_read pure
in_file image off width m h k =
    let inside : leb (off + width) image.size ≡ true = ground arith in rw (inside) refl

if_not :
    (b : Bool) {c : Bool} (next : Exec Machine Bool) {m : Machine}
    → next m ≡ ok (c, m)
    → (if not b then pure false else next) m ≡ ok (b && c, m)
unfolding pure
if_not true next h = h
if_not false next h = refl

elf_is_valid-is_riscv_elf :
    (image : FileData) (m : Machine)
    → 20 ≤ image.size
    → elf_is_valid image m ≡ ok (is_riscv_elf image, m)
unfolding elf_is_valid pure ◌>>=◌
elf_is_valid-is_riscv_elf image m h = rw (in_file image 0 4 m (omega arith) h) (
    if_not (load_bytes image.bytes 0 4 == elf_magic) _ (
      rw (in_file image 4 1 m (omega arith) h) (
        if_not (load_bytes image.bytes 4 1 == elf_class64) _ (
          rw (in_file image 5 1 m (omega arith) h) (
            if_not (load_bytes image.bytes 5 1 == elf_data_lsb) _
              (rw (in_file image 18 2 m (omega arith) h) refl))))))

module _ (m : Machine) (phys_base : ℕ) where
  refuse :
      (o : Option FileData)
      → Unloadable o
      → (elim o as (λ _. Exec Machine ℕ) [
        | none ↦ pure load_failed
        | some image ↦ elf_load_data image phys_base
      ])
          m
        ≡ ok (load_failed, m)
  unfolding pure elf_load_data ◌>>=◌
  refuse none h = refl
  refuse (some image) (long, invalid) = rw (elf_is_valid-is_riscv_elf image m long, invalid) refl

module _ (files : HostFiles) (m : Machine) where
  elf_load-refuses :
      (path : String) (phys_base : ℕ)
      → Unloadable (files path)
      → elf_load files path phys_base m ≡ ok (load_failed, m)
  unfolding elf_load
  elf_load-refuses path phys_base h = refuse m phys_base (files path) h

  -- A binary that does not exist, or that has not the header of a 64-bit little-endian RISC-V ELF
  -- file, is refused in every mode, and no byte of the guest's memory nor any register has changed.
  pub boot-refuses :
      (io : DeviceIo) (mode binary : String)
      → Unloadable (files binary)
      → boot files io mode binary m ≡ ok (false, m)
  unfolding boot elf_boot kernel_boot linux_boot pure ◌>>=◌
  boot-refuses io mode binary h =
      let a = elf_load-refuses binary 0 h in
      let b = elf_load-refuses binary 0x80000000 h in
      if-elim (λ (x : Exec Machine Bool). x m ≡ ok (false, m)) (is_same mode "linux") _ _
        (λ _. rw (b) refl)
        λ _.
          if-elim (λ (x : Exec Machine Bool). x m ≡ ok (false, m)) (is_same mode "elf") _ _
            (λ _. rw (a) refl)
            λ _.
              if-elim (λ (x : Exec Machine Bool). x m ≡ ok (false, m)) (is_same mode "kernel") _ _
                (λ _. rw (a) refl) (λ _. refl)

-- If the binary does not exist, or is at least 20 bytes long and has not the header of a 64-bit
-- little-endian RISC-V ELF file, main ends with status 1 in every mode, before it runs an instruction.
pub main-refuses :
    (host : Host) (requests depth rounds : ℕ) (mode binary : String) (rest : List String)
    (m : Machine)
    → Unloadable (host.files binary)
    → main host requests depth rounds (mode ∷ binary ∷ rest) m ≡ exits 1
unfolding main modify exit ◌>>=◌
main-refuses host requests depth rounds mode binary rest m h =
    let m₁ = init host.file (host.open_disk (disk_path rest)) m in
    rw (boot-refuses host.files m₁ (device_io host.file requests depth) mode binary h) refl
