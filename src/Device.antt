-- ===== src/Device.antt =====
-- The memory-mapped devices: src/clint.c, src/plic.c, src/uart.c, src/virtio.c and src/virtio_blk.c.
pub mod Clint
pub mod Plic
pub mod Uart
pub mod Table
pub mod Sources
pub mod Claims
pub mod Lines
pub mod Receive
pub mod Virtio
pub mod Block
pub mod Reading
pub mod Writing
pub mod Registers
pub mod Rings
pub mod Stopping
pub mod Transport
pub mod Request
pub mod Serving
pub mod Requests
pub mod Notifying
