-- ===== src/Kernel.antt =====
-- The machine that the kernel's code runs on, and the form of its functions.
pub mod Defs
pub mod Say
