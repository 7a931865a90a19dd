-- ===== src/Boot.antt =====
-- From the command line to the first instruction: src/elf.c (Boot/Elf), mem_load_file of src/memory.c
-- with src/kernel_boot.c and src/linux_boot.c (Boot/Modes), and src/main.c (Boot/Main).
pub mod Elf
pub mod Modes
pub mod Main
pub mod Refusal
pub mod Segments
pub mod Loading
pub mod Contents
pub mod Layout
pub mod Start
