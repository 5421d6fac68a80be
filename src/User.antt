-- ===== src/User.antt =====
-- kernel/user_lib.c and `task_shell` of kernel/main.c: system calls from a program's side.
pub mod Defs
pub mod Calls
pub mod Print
pub mod Read
pub mod Exit
