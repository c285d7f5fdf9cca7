-- ===== src/Values.antt =====
-- values.go: the values of the parser, and the tables of literals.
pub mod Defs
pub mod Literals
