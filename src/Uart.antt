-- ===== src/Uart.antt =====
-- kernel/uart.c: the polling driver of the serial line.
pub mod Defs
pub mod Driver
