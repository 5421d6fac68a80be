-- ===== src/Printf.antt =====
-- kernel/printf.c, as the bytes that a call writes.
pub mod Defs
pub mod Number
pub mod Fits
pub mod Pieces
mod Tests
