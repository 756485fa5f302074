-- ===== src/Klib.antt =====
-- The kernel's own C library: src/lib/string.c.
pub mod Bytes
pub mod Strings
pub mod Hash
