-- ===== src/Tests/Files.antt =====
-- The files of the host that the tests use.
use tinyvm.Tests.Fixtures.{zero_host, test_disk}
use tinyvm.Base.{refl, ap, ◌≡◌, ◌-◌}
use tinyvm.Memory.{load_list}
use tinyvm.Device.Block.{take}
use tinyvm.Device.Reading.{Reads}
use tinyvm.Device.Writing.{Writes}
use tinyvm.Boot.Elf.{FileData}
use tinyvm.Boot.Main.{Host}
use tinyvm.Base.{some, ℕ, ◌+◌, ◌-◌, ◌==◌, if◌then◌else◌, [], ◌∷◌, arith}
use tinyvm.Base.{zero, suc, List, Option, none, ℤ, pos, negsuc, min, max, length, u8}
use tinyvm.Machine.{Disk}
use tinyvm.Device.Block.{HostFile}
use tinyvm.Memory.{store_list}
use tinyvm.Wf.Defs.{IsFile, IsRead, AllU8}

-- A file of bytes, on which every call succeeds.
unfoldable pub host_bytes : Disk → ℕ → ℕ → List ℕ
host_bytes disk off zero = []
host_bytes disk off (suc k) = u8 (disk.bytes off) ∷ host_bytes disk (off + 1) k

abbrev pub host_pread : Disk → ℤ → ℕ → Option (List ℕ)
host_pread disk (pos off) len = some (host_bytes disk off (min len (disk.size - off)))
host_pread disk (negsuc off) len = none

abbrev pub host_pwrite : Disk → ℤ → List ℕ → Option ℕ × Disk
host_pwrite disk (pos off) bs = (
  some (length bs),
  record { bytes = store_list disk.bytes off bs; size = max disk.size (off + length bs) },
)
host_pwrite disk (negsuc off) bs = (none, disk)

abbrev pub test_file : HostFile
test_file = record {
  pread = host_pread;
  pwrite = host_pwrite;
  ftruncate = λ disk size. record disk { size = size };
}

host_bytes-AllU8 : (disk : Disk) (off k : ℕ) → AllU8 (host_bytes disk off k)
unfolding host_bytes
host_bytes-AllU8 disk off zero = tt
host_bytes-AllU8 disk off (suc k) = (omega arith, host_bytes-AllU8 disk (off + 1) k)

host_pread-IsRead : (disk : Disk) (off : ℤ) (len : ℕ) → IsRead (host_pread disk off len)
host_pread-IsRead disk (pos off) len = host_bytes-AllU8 disk off _
host_pread-IsRead disk (negsuc off) len = tt

pub test_file-IsFile : IsFile test_file
test_file-IsFile = record { pread_gives = host_pread-IsRead }

-- The same file without the cast to bytes: what is read is what the disk holds.
abbrev pub exact_pread : Disk → ℤ → ℕ → Option (List ℕ)
exact_pread disk (pos off) len = some (load_list disk.bytes off (min len (disk.size - off)))
exact_pread disk (negsuc off) len = none

abbrev pub exact_file : HostFile
exact_file = record {
  pread = exact_pread;
  pwrite = host_pwrite;
  ftruncate = λ disk size. record disk { size = size };
}

pub exact_file-Reads : (disk : Disk) → Reads exact_file disk
exact_file-Reads disk offset len positive inside = record {
  count = min len (disk.size - offset);
  positive = omega (arith, positive, inside);
  at_most = omega arith;
  gives = refl;
}

take-length : (bs : List ℕ) → take bs (length bs) ≡ bs
unfolding take
take-length [] = refl
take-length (b ∷ bs) = ap (λ xs. b ∷ xs) (take-length bs)

pub exact_file-Writes : Writes exact_file
exact_file-Writes disk offset bs positive inside = record {
  count = length bs;
  positive = positive;
  at_most = omega arith;
  puts =
      let kept : max disk.size (offset + length bs) ≡ disk.size = omega (arith, inside) in
      rw (kept, take-length bs) refl;
}

-- A RISC-V ELF file with one segment of 4 bytes, and 4 more of zeros, at 0x80000000.
abbrev pub elf_bytes : ℕ → ℕ
elf_bytes i = u8 (
    if i == 0
    then 0x7F
    else if i == 1
    then 0x45
    else if i == 2
    then 0x4C
    else if i == 3
    then 0x46
    else if i == 4
    then 2
    else if i == 5
    then 1
    else if i == 18
    then 243
    else if i == 27
    then 0x80
    else if i == 32
    then 64
    else if i == 54
    then 56
    else if i == 56
    then 1
    else if i == 64
    then 1
    else if i == 72
    then 120
    else if i == 83
    then 0x80
    else if i == 91
    then 0x80
    else if i == 96
    then 4
    else if i == 104
    then 8
    else if i == 120
    then 0x13
    else 0)

abbrev pub elf_image : FileData
elf_image = record { bytes = elf_bytes; size = 124 }

abbrev pub blank_image : FileData
blank_image = record { bytes = λ _. 0; size = 64 }

abbrev pub host_with : FileData → Host
host_with image = record {
  file = test_file;
  files = λ path. some image;
  open_disk = λ path. some test_disk;
  floats = zero_host;
}
