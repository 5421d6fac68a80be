-- ===== src/Tests.antt =====
-- The theorems at concrete inputs, and runs of the definitions.
mod States
mod Pages
mod Tables
mod Tasks
mod Locks
mod Images
mod Traps
mod Lines
mod Commands
mod Spaces
mod Loading
mod Programs
mod Copies
mod Forks
mod Boots
mod Exits
