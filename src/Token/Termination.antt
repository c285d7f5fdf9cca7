-- ===== src/Token/Termination.antt =====
-- The scanner's loops end: what each `nextChar` leaves to be read, and the fuel that this bounds.
pub mod Chars
pub mod Loops
pub mod Cases
