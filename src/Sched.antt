-- ===== src/Sched.antt =====
-- kernel/sched.c and kernel/sched.h: the task table's states and the round-robin scheduler.
pub mod Defs
pub mod Pick
pub mod Switch
pub mod Fair
