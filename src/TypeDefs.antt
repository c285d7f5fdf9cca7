-- ===== src/TypeDefs.antt =====
-- types.go: type definitions and `CanAssign`.
pub mod Defs
pub mod Assign
