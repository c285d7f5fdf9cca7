-- ===== src/Emit.antt =====
-- emit_nasm.go: the instructions that the compiler writes, and what they do on a machine.
pub mod Instr
pub mod Ops
pub mod Machine
pub mod Writes
pub mod Correct
pub mod Compare
pub mod Consts
pub mod Strings
pub mod Concat
pub mod Append
pub mod AssignObjects
pub mod AssignInts
pub mod Objects
pub mod Values
pub mod Elements
pub mod Floats
pub mod AssignFloats
pub mod Balance
pub mod Frame
pub mod Stores
