-- ===== src/Exec.antt =====
-- kernel/exec.c and kernel/elf.h: checking and loading the program image.
pub mod Elf
pub mod Validate
pub mod Load
pub mod Fill
pub mod Pages
pub mod Segments
pub mod Space
pub mod Accept
pub mod Alias
pub mod Top
