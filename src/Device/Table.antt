-- ===== src/Device/Table.antt =====
-- The handlers that src/clint.c, src/uart.c, src/plic.c and src/virtio.c give to mem_add_device.
-- A notification makes the block device access memory, which may be registers again, so the table
-- takes the number of notifications that may be inside each other.
use tinyvm.Base.{ℕ, zero, suc, Exec, spin, crash, gets, modify, state}
use tinyvm.Machine.{Machine, Device, plain_ram, clint_mmio, uart_mmio, plic_mmio, virtio_mmio}
use tinyvm.Device.Clint.{clint_read, clint_write}
use tinyvm.Device.Uart.{uart_read, uart_write}
use tinyvm.Device.Plic.{plic_read, plic_write}
use tinyvm.Device.Block.{HostFile, blk_notify}
use tinyvm.Device.Transport.{virtio_read, virtio_write}
use tinyvm.Memory.{DeviceIo}

-- The RAM has handlers of its own, in src/memory.c.
unfoldable pub device_read : Device → ℕ → ℕ → Exec Machine ℕ
device_read plain_ram offset width = crash
device_read clint_mmio offset width = gets (clint_read offset)
device_read uart_mmio offset width = uart_read offset
device_read plic_mmio offset width = state (plic_read offset)
device_read (virtio_mmio n) offset width = gets (virtio_read n offset)

unfoldable pub device_write :
    (ℕ → Exec Machine (Unit {0})) → Device → ℕ → ℕ → ℕ → Exec Machine (Unit {0})
device_write notify plain_ram offset val width = crash
device_write notify clint_mmio offset val width = modify (clint_write offset val)
device_write notify uart_mmio offset val width = modify (uart_write offset val)
device_write notify plic_mmio offset val width = modify (plic_write offset val)
device_write notify (virtio_mmio n) offset val width = virtio_write notify n offset val

-- `rounds` bounds the requests that one notification serves, `depth` the nested notifications.
unfoldable pub device_io : HostFile → ℕ → ℕ → DeviceIo
device_io file rounds zero = record { read = device_read; write = device_write (λ n. spin) }
device_io file rounds (suc depth) = record {
  read = device_read;
  write = device_write (blk_notify file (device_io file rounds depth) rounds);
}
