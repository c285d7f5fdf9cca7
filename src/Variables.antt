-- ===== src/Variables.antt =====
-- variables.go: the table of variables; expression.go: assignments to a variable.
pub mod Defs
pub mod Free
pub mod Expressions
pub mod Assign
pub mod Table
pub mod Blocks
pub mod Checked
