-- ===== src/Mutex.antt =====
-- kernel/spinlock.c and kernel/mutex.c: a sleeping lock behind a spinning one, under every
-- interleaving of the tasks.
pub mod Defs
pub mod Invariant
pub mod Exclusion
pub mod Lost
