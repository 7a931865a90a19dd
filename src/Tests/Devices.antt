-- ===== src/Tests/Devices.antt =====
-- The theorems on the virtio devices at concrete inputs.
use tinyvm.Base.{
  exits, inr, ℕ, ◌-◌, ◌≡◌, refl, [], ◌∷◌, ok, fault, spins, pure, ◌>>=◌, ◌>>◌, ltb, ◌==◌,
  if◌then◌else◌, modify, arith, Outcome, true,
}
use tinyvm.Base.Bits.{bit}
use tinyvm.Machine.{Machine}
use tinyvm.Memory.{
  load_list, store_list, mem_write_buf, mem_read_buf, load_bytes, mem_read16, mem_read,
  mem_find_region, find_region, found_or_exit, region_read, default_read, data_or_crash,
}
use tinyvm.Memory.RoundTrip.{ram}
use tinyvm.Memory.Copy.{with_ram, InRam}
use tinyvm.Device.Block.{blk_do_read, blk_do_write, blk_notify, virtio_blk_s_ok}
use tinyvm.Device.Transport.{virtio_read, virtio_write, set_addr_low, set_addr_high}
use tinyvm.Device.Reading.{blk_do_read-mem_write_buf, blk_do_read-spins}
use tinyvm.Device.Writing.{overwritten, blk_do_write-mem_read_buf, blk_do_read-blk_do_write}
use tinyvm.Device.Stopping.{blk_do_read-exits}
use tinyvm.Device.Rings.{blk_notify-fault}
use tinyvm.Device.Registers.{acknowledged, virtio_write-acknowledges, set_addr_high-set_addr_low}
use tinyvm.Tests.Fixtures.{
  test_machine, test_bytes, test_disk, test_slot, test_virtio, test_ring, no_virtio,
}
use tinyvm.Tests.Files.{test_file, exact_file, exact_file-Reads, exact_file-Writes}

-- The RAM of the tests, and a range of it.
abbrev test_ram : (ℕ → ℕ) → Machine
test_ram f = with_ram 0x80000000 0x1000 [] test_machine f

range-InRam : InRam 0x80000000 0x1000 0x80000010 700
range-InRam = record { above = omega arith; below = omega arith; no_wrap = omega arith }

other-InRam : InRam 0x80000000 0x1000 0x80000800 700
other-InRam = record { above = omega arith; below = omega arith; no_wrap = omega arith }

blk_do_read-mem_write_buf_example :
    blk_do_read exact_file 700 100 0x80000010 700 (test_ram test_bytes)
    ≡ (do mem_write_buf 0x80000010 (load_list test_disk.bytes 100 700); pure virtio_blk_s_ok)
        (test_ram test_bytes)
blk_do_read-mem_write_buf_example =
    blk_do_read-mem_write_buf exact_file 0x80000000 0x1000 [] test_machine
      (exact_file-Reads test_disk) (omega arith) 700 100 0x80000010 700 test_bytes (omega arith)
      range-InRam (omega arith) (omega arith)

blk_do_read-spins_example :
    blk_do_read exact_file 1000 1024 0x80000010 700 (test_ram test_bytes) ≡ spins
unfolding load_list
blk_do_read-spins_example =
    blk_do_read-spins exact_file 0x80000000 0x1000 [] test_machine 1000 1024 0x80000010 700
      test_bytes (omega arith) range-InRam (omega arith) (omega arith) refl

blk_do_write-mem_read_buf_example :
    blk_do_write exact_file 700 100 0x80000010 700 (test_ram test_bytes)
    ≡ (do
      buf ← mem_read_buf 0x80000010 700
      modify (λ m. record m { disk = overwritten m.disk 100 buf })
      pure virtio_blk_s_ok)
        (test_ram test_bytes)
blk_do_write-mem_read_buf_example =
    blk_do_write-mem_read_buf exact_file 0x80000000 0x1000 [] test_machine test_bytes
      exact_file-Writes 700 100 0x80000010 700 test_disk (omega arith) range-InRam (omega arith)
      (omega arith) (omega arith)

blk_do_read-blk_do_write_example :
    (do
      status ← blk_do_write exact_file 700 100 0x80000010 700
      blk_do_read exact_file 700 100 0x80000800 700)
      (test_ram test_bytes)
    ≡ ok (
      virtio_blk_s_ok,
      with_ram 0x80000000 0x1000 []
          (record test_machine { disk = overwritten test_disk 100 (load_list test_bytes 0x10 700) })
          (store_list test_bytes 0x800 (load_list test_bytes 0x10 700)),
    )
blk_do_read-blk_do_write_example =
    blk_do_read-blk_do_write exact_file exact_file-Writes 0x80000000 0x1000 [] test_machine
      test_bytes 700 100 0x80000010 0x80000800 700 (exact_file-Reads _) (omega arith) range-InRam
      other-InRam (omega arith) (omega arith) (omega arith)

-- The first chunk is inside the RAM, and the second is not.
blk_do_read-exits_example :
    blk_do_read exact_file 700 100 0x80000E00 700 (test_ram test_bytes) ≡ exits 1
unfolding find_region
blk_do_read-exits_example =
    blk_do_read-exits exact_file 0x80000000 0x1000 [] test_machine (omega arith)
      (exact_file-Reads test_disk) (omega arith) 700 100 0x80000E00 700 test_bytes (omega arith)
      (omega arith) (omega arith) (omega arith) (omega arith) (λ _ _ _ _ _. refl)
      (inr (omega arith))

-- A ready queue of no entries, in a RAM full of ones.
abbrev unsized_machine : Machine
unsized_machine = record test_machine {
  regions = ram 0x80000000 0x1000 (λ _. 1) ∷ [];
  virtio = record test_virtio {
    slots = λ _. record test_slot {
      vq = record {
        desc_base = 0x80000100;
        avail = record { base = 0x80000200; size = 0; cursor = 0 };
        used = test_ring 0x80000300;
        ready = true;
      };
    };
  };
}

blk_notify-fault_example : blk_notify test_file no_virtio 1 0 unsized_machine ≡ fault
unfolding mem_read16 mem_read mem_find_region find_region found_or_exit region_read default_read
    data_or_crash load_bytes pure ◌>>=◌
blk_notify-fault_example =
    blk_notify-fault test_file no_virtio 0 0 0x101 unsized_machine refl refl refl
      (λ e. omega (arith, e))

abbrev do_nothing : ℕ → Machine → Outcome (Unit {0} × Machine)
do_nothing n m = ok (tt, m)

virtio_write-acknowledges_example :
    (virtio_write do_nothing 0 0x64 1 test_machine ≡ ok (tt, acknowledged 0 1 test_machine))
    × (bit (virtio_read 0 0x60 (acknowledged 0 1 test_machine)) 0
        ≡ (if bit 1 0 == 1 then 0 else bit (virtio_read 0 0x60 test_machine) 0))
virtio_write-acknowledges_example =
    virtio_write-acknowledges do_nothing 0 1 0 test_machine (omega arith)

set_addr_high-set_addr_low_example :
    (bit (set_addr_high (set_addr_low 0 0x80001000) 1) 32
      ≡ (if ltb 32 32 then bit 0x80001000 32 else bit 1 (32 - 32)))
    × (bit (set_addr_low (set_addr_high 0 1) 0x80001000) 32
        ≡ (if ltb 32 32 then bit 0x80001000 32 else bit 1 (32 - 32)))
set_addr_high-set_addr_low_example = set_addr_high-set_addr_low 0 0x80001000 1 32 (omega arith)
