-- ===== src/Examples.antt =====
-- Runs of the compiler's parts on concrete inputs, with a concrete library.
mod Go
mod Runs
mod Emitted
mod Operations
mod Assignments
mod Imports
