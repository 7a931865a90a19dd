-- ===== src/Tests/Requests.antt =====
-- A request of the guest on the ring of the test machine.
use tinyvm.Base.{ℕ, ◌≡◌, [], ok, ◌==◌, if◌then◌else◌, arith}
use tinyvm.Base.{refl}
use tinyvm.Memory.{load_bytes, store_bytes, load_list, store_list}
use tinyvm.Device.Virtio.{virtio_notify_guest}
use tinyvm.Device.Block.{blk_notify}
use tinyvm.Device.Notifying.{machine_left, memory_left, blk_notify-serves}
use tinyvm.Memory.Copy.{with_ram}
use tinyvm.Device.Virtio.{queue_of}
use tinyvm.Device.Block.{blk_handle_request}
use tinyvm.Device.Request.{Request, request_of, disk_after, served}
use tinyvm.Device.Requests.{IsRequest, blk_handle_request-served}
use tinyvm.Tests.Fixtures.{test_machine, test_disk, no_virtio}
use tinyvm.Tests.Files.{exact_file, exact_file-Reads, exact_file-Writes}

-- Descriptors 0, 1 and 2 at 0x80000100: a header at 0x80000400 that asks to read sector 0, a buffer of 4
-- bytes at 0x80000500, and the status at 0x80000600.
abbrev test_chain : ℕ → ℕ
test_chain i =
    if i == 0x101
    then 4
    else if i == 0x103
    then 0x80
    else if i == 0x108
    then 16
    else if i == 0x10E
    then 1
    else if i == 0x111
    then 5
    else if i == 0x113
    then 0x80
    else if i == 0x118
    then 4
    else if i == 0x11E
    then 2
    else if i == 0x121
    then 6
    else if i == 0x123
    then 0x80
    else if i == 0x128
    then 1
    else 0

abbrev test_request : Request
test_request = request_of 0x80000000 test_chain 0x80000100 0

test_chain-IsRequest : IsRequest 0x80000000 0x1000 0x80000100 0 test_chain test_disk
unfolding load_bytes
test_chain-IsRequest = record {
  header_desc = record { above = omega arith; below = omega arith; no_wrap = omega arith };
  buffer_desc = record { above = omega arith; below = omega arith; no_wrap = omega arith };
  status_desc = record { above = omega arith; below = omega arith; no_wrap = omega arith };
  header = record { above = omega arith; below = omega arith; no_wrap = omega arith };
  buffer = record { above = omega arith; below = omega arith; no_wrap = omega arith };
  status = record { above = omega arith; below = omega arith; no_wrap = omega arith };
  on_disk = λ _. omega arith;
}

blk_handle_request-served_example :
    blk_handle_request exact_file no_virtio 0 0
      (with_ram 0x80000000 0x1000 [] test_machine test_chain)
    ≡ ok (
      tt,
      with_ram 0x80000000 0x1000 []
          (record test_machine { disk = disk_after 0x80000000 test_request test_disk test_chain })
          (served 0x80000000 (queue_of 0 test_machine).used 0 test_request test_disk test_chain),
    )
blk_handle_request-served_example =
    blk_handle_request-served exact_file 0x80000000 0x1000 [] test_machine no_virtio 0 0 test_chain
      (exact_file-Reads test_disk) exact_file-Writes (omega arith) (omega arith)
      (record { above = omega arith; below = omega arith; no_wrap = omega arith })
      test_chain-IsRequest

-- The same chain, published at entry 0 of the available ring.
abbrev ring_bytes : ℕ → ℕ
ring_bytes i = if i == 0x202 then 1 else test_chain i

ring_bytes-IsRequest : IsRequest 0x80000000 0x1000 0x80000100 0 ring_bytes test_disk
unfolding load_bytes
ring_bytes-IsRequest = record {
  header_desc = record { above = omega arith; below = omega arith; no_wrap = omega arith };
  buffer_desc = record { above = omega arith; below = omega arith; no_wrap = omega arith };
  status_desc = record { above = omega arith; below = omega arith; no_wrap = omega arith };
  header = record { above = omega arith; below = omega arith; no_wrap = omega arith };
  buffer = record { above = omega arith; below = omega arith; no_wrap = omega arith };
  status = record { above = omega arith; below = omega arith; no_wrap = omega arith };
  on_disk = λ _. omega arith;
}

blk_notify-serves_example :
    blk_notify exact_file no_virtio 1 0 (with_ram 0x80000000 0x1000 [] test_machine ring_bytes)
    ≡ ok (
      tt,
      virtio_notify_guest 0 (
          with_ram 0x80000000 0x1000 []
            (machine_left no_virtio 0x80000000 0x1000 [] 0 exact_file test_machine ring_bytes)
            (memory_left no_virtio 0x80000000 0x1000 [] 0 exact_file test_machine ring_bytes)),
    )
unfolding load_bytes store_bytes load_list store_list
blk_notify-serves_example =
    blk_notify-serves no_virtio 0x80000000 0x1000 [] 0 exact_file test_machine ring_bytes 0
      (exact_file-Reads test_disk) exact_file-Writes (omega arith) refl
      (record {
        avail_entries = omega arith;
        avail_ring = record { above = omega arith; below = omega arith; no_wrap = omega arith };
        used_entries = omega arith;
        used_ring = record { above = omega arith; below = omega arith; no_wrap = omega arith };
      })
      (omega arith) refl ring_bytes-IsRequest refl
