-- ===== src/Decode.antt =====
-- src/cpu.c and src/exec_c.c: decoding of the base instructions and of the compressed ones.
pub mod Base32
pub mod Rvc
pub mod Instr
pub mod Fields
pub mod RvcImm
pub mod RvcFields
pub mod Encode
pub mod Compressed
pub mod Expansion
pub mod Formats
pub mod Immediates
pub mod Lengths
