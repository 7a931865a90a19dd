-- ===== src/Wf/Table.antt =====
-- src/clint.c, src/plic.c, src/uart.c, src/virtio.c: the handlers that the devices register keep the
-- machine well-formed, so that the invariant of the emulator asks something of the host alone.
use tinyvm.Base.{
  ℕ, zero, suc, Exec, Gives, Keeps, Gives-gets, Gives-crash, Gives-spin, Keeps-modify, Gives-state,
}
use tinyvm.Machine.{Machine, Device, plain_ram, clint_mmio, uart_mmio, plic_mmio, virtio_mmio}
use tinyvm.Device.Block.{HostFile}
use tinyvm.Device.Table.{device_read, device_write, device_io}
use tinyvm.Execute.Float.{HostFloat}
use tinyvm.Execute.Step.{run}
use tinyvm.Wf.Defs.{IsMachine, IsIo, IsHost, IsFile, IsU64}
use tinyvm.Wf.Device.{
  clint_read-fits, clint_write-IsMachine, plic_read-IsReply, plic_write-IsMachine,
}
use tinyvm.Wf.Serial.{uart_read-Gives, uart_write-IsMachine}
use tinyvm.Wf.Virtio.{virtio_read-fits, virtio_write-Keeps}
use tinyvm.Wf.Block.{blk_notify-Keeps}
use tinyvm.Wf.Step.{run-Keeps}

device_read-Gives :
    (d : Device) (offset width : ℕ) → Gives IsMachine IsU64 (device_read d offset width)
unfolding device_read
device_read-Gives plain_ram offset width = Gives-crash
device_read-Gives clint_mmio offset width = Gives-gets _ (clint_read-fits offset)
device_read-Gives uart_mmio offset width = uart_read-Gives offset
device_read-Gives plic_mmio offset width =
    Gives-state _ λ m h. let r = plic_read-IsReply offset m h in (r.value_fits, r.is_machine)
device_read-Gives (virtio_mmio n) offset width = Gives-gets _ (virtio_read-fits n offset)

module _ (notify : ℕ → Exec Machine (Unit {0})) (keeps : (n : ℕ) → Keeps IsMachine (notify n)) where
  device_write-Keeps :
      (d : Device) (offset val width : ℕ)
      → IsU64 val
      → Keeps IsMachine (device_write notify d offset val width)
  unfolding device_write
  device_write-Keeps plain_ram offset val width h = Gives-crash
  device_write-Keeps clint_mmio offset val width h =
      Keeps-modify _ (λ m k. clint_write-IsMachine offset val m k h)
  device_write-Keeps uart_mmio offset val width h = Keeps-modify _ (uart_write-IsMachine offset val)
  device_write-Keeps plic_mmio offset val width h = Keeps-modify _ (plic_write-IsMachine offset val)
  device_write-Keeps (virtio_mmio n) offset val width h =
      virtio_write-Keeps notify keeps n offset val

module _ (file : HostFile) (is_file : IsFile file) (requests : ℕ) where
  pub device_io-IsIo : (depth : ℕ) → IsIo (device_io file requests depth)
  unfolding device_io
  device_io-IsIo zero = record {
    read_gives = device_read-Gives;
    write_keeps = device_write-Keeps _ (λ n. Gives-spin);
  }
  device_io-IsIo (suc depth) = record {
    read_gives = device_read-Gives;
    write_keeps =
        device_write-Keeps _ (blk_notify-Keeps file is_file _ (device_io-IsIo depth) requests);
  }

  -- With a host file that gives bytes and host floats that give 64-bit words, any number of rounds
  -- of the main loop, with any bounds on the requests that a notification serves and on the
  -- notifications inside each other, leaves a well-formed machine if it started from one and
  -- returns: every register, CSR, byte of RAM, device register and virtqueue field fits its C
  -- type, x0 is zero and the privilege is at most 3.
  pub emulator-Keeps :
      (depth : ℕ) (host : HostFloat)
      → IsHost host
      → (rounds : ℕ) → Keeps IsMachine (run (device_io file requests depth) host rounds)
  emulator-Keeps depth host is_host rounds =
      run-Keeps (device_io file requests depth) (device_io-IsIo depth) host is_host rounds
