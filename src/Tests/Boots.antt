-- ===== src/Tests/Boots.antt =====
-- The start of the kernel with a small image.
use riscvkernel_hit.Kernel.Defs.{Kernel}
