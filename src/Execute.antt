-- ===== src/Execute.antt =====
-- src/cpu.c: execute and the functions it calls; src/exec_a.c: the atomic instructions.
pub mod Alu
pub mod Float
pub mod Atomic
pub mod Dispatch
pub mod Step
pub mod Priority
pub mod Delivery
pub mod Division
pub mod AtomicStep
pub mod Fetching
pub mod Manual
pub mod Integer
pub mod Running
pub mod Operands
pub mod Access
pub mod Transfers
pub mod Reservation
