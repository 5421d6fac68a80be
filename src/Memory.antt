-- ===== src/Memory.antt =====
-- Physical memory: a byte for each address, and the little-endian 64-bit loads and stores through
-- which the kernel reads and writes pointers, page table entries and saved registers.
pub mod Defs
pub mod Laws
pub mod Ranges
