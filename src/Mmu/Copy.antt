-- ===== src/Mmu/Copy.antt =====
-- `copy_user_page_table` of kernel/mmu.c, from the innermost loop to the whole address space.
pub mod Twin
pub mod Rounds
pub mod Leaf
pub mod Fresh
pub mod Table
pub mod Root
pub mod Space
