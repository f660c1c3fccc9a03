-- ===== src/Strings.antt =====
-- What the program uses of Go's package strings, on texts as bytes.
pub mod Trim
pub mod Split
