-- ===== src/Lib.antt =====
-- A model of tinyvm, an emulator of one RISC-V hart (RV64IMAFDC with M, S and U modes and sv39), and
-- theorems about it.
--
-- The parts and how they interact. src/main.c builds the table of regions, loads a kernel
-- (src/elf.c, src/kernel_boot.c, src/linux_boot.c) and steps the CPU until it halts. A step (cpu_step in
-- src/cpu.c) counts time, polls the interrupt sources, and either takes an interrupt or fetches an
-- instruction through the MMU (src/mmu.c), decodes it (src/cpu.c, src/exec_c.c) and executes it
-- (src/cpu.c, src/exec_a.c). Loads and stores go through the MMU to the table of regions
-- (src/memory.c), which has the RAM and the handlers of the devices (src/clint.c, src/plic.c,
-- src/uart.c, src/virtio.c). The block device (src/virtio_blk.c) moves bytes between the disk and
-- the RAM. The devices raise lines in the CSR mip. An ecall from S-mode is
-- answered by the built-in firmware (src/sbi.c).
--
-- The files, by the code that they model; the definitions keep the functions' names.
--   Machine: CPU of include/cpu.h, Memory of include/memory.h and the static state of the devices.
--   Cpu/Csr, Cpu/Trap: csr_read, csr_write, cpu_trap and the trap returns of src/cpu.c.
--   Device/Clint, Device/Plic, Device/Uart: src/clint.c, src/plic.c, src/uart.c; Device/Virtio,
--     Device/Transport: src/virtio.c; Device/Block: src/virtio_blk.c; Device/Table: the handlers by
--     region.
--   Memory: src/memory.c. Mmu: src/mmu.c. Sbi: src/sbi.c.
--   Decode/Base32, Decode/Rvc: decode of src/cpu.c and src/exec_c.c; Decode/Instr: include/exec.h.
--   Execute/Alu, Execute/Float, Execute/Dispatch: the cases of execute in src/cpu.c;
--     Execute/Atomic: src/exec_a.c; Execute/Step: interrupts and cpu_step of src/cpu.c and the loop
--     of src/main.c.
--   Boot/Elf, Boot/Modes, Boot/Main: src/elf.c; src/kernel_boot.c, src/linux_boot.c and mem_load_file
--     of src/memory.c; src/main.c and the init functions of the devices.
--   Decode/Formats, Decode/Compressed, Execute/Manual: the formats, the compressed instructions and the
--     integer instructions of the RISC-V manual, with which the code is compared. Device/Request: what
--     a request of the guest to the disk asks for and does, on arrays of bytes.
--   Base: words, signed views, arrays, and actions on a state; Tests: runs at concrete inputs.
-- The other children of these modules are proofs, named for what they prove; Wf has the invariant
-- of the machine and that every operation keeps it.
--
-- How it is modelled. A word is a natural number, and an operation that can leave the width says
-- % 2 ^ w. A C array is a function from its index. Code that can exit, or whose behaviour the C
-- standard leaves undefined, is an action with four outcomes: a value and a new state, exit with a
-- code, a fault, or a loop that is still running after the rounds that it is given. An access of
-- the host outside an array, and an overflow of a signed product or quotient, are such faults. The
-- terminal is a list of what its reads will give and a list of what was written. The host is
-- little-endian.
--
-- Fuel. The loop of main is unbounded, so `run` takes the number of rounds, and what is proved of it
-- holds for every number. A transfer of the disk gets as many rounds as it has bytes, which is enough
-- inside the disk; outside it the loop of the source does not end. A notification serves as many
-- requests as it is given, and serving one may notify again when an address in it is a register of a
-- device, as often as the depth says: what is proved holds for every number of both. All other loops have
-- the bounds of the source: 31 sources of the interrupt controller, 12 and 10 lines, three levels of
-- the page table, the headers of an ELF file, and the regions in the table.
--
-- Not modelled. The operators of the host on floats and the functions of math.h are a parameter of the
-- float instructions. What pread, pwrite and ftruncate do to the file of the disk is a parameter of
-- the block device, and so are the files that fopen finds, and what open finds for the disk. The
-- setup of the terminal and the messages that are printed are left out, and malloc, calloc and
-- fread are taken to succeed.
mod Base
pub mod Machine
pub mod Cpu
pub mod Device
pub mod Memory
pub mod Mmu
pub mod Sbi
pub mod Decode
pub mod Execute
pub mod Boot
pub mod Wf
mod Tests
