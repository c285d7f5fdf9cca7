-- ===== src/Code.antt =====
-- The package `code`: the primary types, and the state of the assembly writer.
pub mod Types
pub mod Lines
pub mod Asm
