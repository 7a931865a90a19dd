-- ===== src/Wf.antt =====
-- Well-formedness: every value fits the C type that holds it, and x0 is zero. The children prove
-- that each operation of the emulator keeps this.
pub mod Defs
pub mod Cpu
pub mod Trap
pub mod Device
pub mod Serial
pub mod Memory
pub mod Mmu
pub mod Alu
pub mod Sbi
pub mod Execute
pub mod Access
pub mod Float
pub mod Dispatch
pub mod Step
pub mod Slot
pub mod Virtio
pub mod Buffer
pub mod Block
pub mod Table
pub mod Init
pub mod Elf
pub mod Boot
