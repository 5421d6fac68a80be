-- ===== src/Trap.antt =====
-- kernel/trap_handler.c, kernel/timer.c and kernel/main.c: interrupts, system calls and start-up.
pub mod Defs
pub mod Reports
pub mod Dispatch
pub mod Read
pub mod Stages
pub mod Boot
