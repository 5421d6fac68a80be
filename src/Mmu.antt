-- ===== src/Mmu.antt =====
-- kernel/mmu.c and kernel/mmu.h: Sv39 page tables in physical memory.
pub mod Pte
pub mod Defs
pub mod Spaces
pub mod Fields
pub mod Lookup
pub mod Find
pub mod Tree
pub mod Grow
pub mod Leaf
pub mod Walk
pub mod Map
pub mod Owned
pub mod Release
pub mod Reclaim
pub mod Frame
pub mod Grows
pub mod Root
pub mod Access
pub mod Identity
pub mod Maps
pub mod Init
pub mod Boot
pub mod Copy
