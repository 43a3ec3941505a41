-- ===== src/Text.antt =====
-- The standard library's text: numbers in decimal, and UTF-8.
pub mod Number
pub mod Utf8
pub mod Trim
pub mod Paths
