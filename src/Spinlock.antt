-- ===== src/Spinlock.antt =====
-- kernel/spinlock.c and kernel/spinlock.h: the lock that a processor waits for in a loop.
pub mod Defs
pub mod Spin
