-- ===== src/Library.antt =====
-- The standard libraries (src/lib).
pub mod Utf8
pub mod Dump
