-- ===== src/Token.antt =====
-- token.go: the tokens and the scanner.
pub mod Kind
pub mod Scanner
pub mod Next
pub mod Termination
