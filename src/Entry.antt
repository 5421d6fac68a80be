-- ===== src/Entry.antt =====
-- kernel/trap.S: the way from a program into the handler and back.
pub mod Defs
pub mod Words
pub mod Trap
pub mod Stacks
pub mod Transparent
pub mod First
