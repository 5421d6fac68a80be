-- ===== src/Task.antt =====
-- kernel/task.c, kernel/trapframe.h and kernel/switch.S: processes and the switch between them.
pub mod Frame
pub mod Defs
pub mod Process
pub mod Switching
pub mod Copy
pub mod Fork
pub mod Slots
pub mod Spawn
pub mod Ranges
pub mod Start
pub mod Fresh
pub mod Maps
pub mod Space
pub mod Init
pub mod Created
pub mod Exit
