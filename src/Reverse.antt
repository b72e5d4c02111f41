-- ===== src/Reverse.antt =====
-- internal/reverse: mapping the physical names in a ClickHouse error text back to the logical ones,
-- and withholding a text that still names the physical routing.
pub mod Words
pub mod Withheld
pub mod Boundary
