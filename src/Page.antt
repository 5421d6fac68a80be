-- ===== src/Page.antt =====
-- kernel/page.c and kernel/page.h: the allocator of physical pages.
pub mod Defs
pub mod FreeList
pub mod Alloc
pub mod Count
pub mod Init
pub mod Uses
