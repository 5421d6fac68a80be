-- ===== src/Tests/Forks.antt =====
-- A fork of task 0, whose address space holds its stack and no more.
