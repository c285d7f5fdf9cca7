-- ===== src/Functions.antt =====
-- functions.go: the table of the functions that a program may call.
pub mod Defs
pub mod Lookup
pub mod Labels
