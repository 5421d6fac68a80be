-- ===== src/Shell.antt =====
-- user/app.c: the shell, which runs as a program of its own.
pub mod Defs
pub mod Strings
pub mod Line
pub mod Read
pub mod Commands
pub mod Round
