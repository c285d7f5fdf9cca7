-- ===== src/Utf8.antt =====
-- utf8.go: the decoder and the encoder of code points, with their tables.
pub mod Tables
pub mod Codec
pub mod Transitions
pub mod Sequences
pub mod RoundTrip
pub mod Sound
