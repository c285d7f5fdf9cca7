-- ===== src/Operators.antt =====
-- ops.go: the infix operations, with `TypeFromConstValue` of expression.go.
pub mod Folding
pub mod Generate
pub mod Integers
pub mod Types
pub mod Refines
pub mod Constants
