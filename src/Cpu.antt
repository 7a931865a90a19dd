-- ===== src/Cpu.antt =====
-- src/cpu.c: control and status registers (Cpu/Csr), traps (Cpu/Trap) and the laws about them.
pub mod Csr
pub mod Trap
pub mod Status
pub mod TrapReturn
pub mod Supervisor
pub mod MachineReturn
