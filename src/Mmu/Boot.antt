-- ===== src/Mmu/Boot.antt =====
-- `page_init` and then `mmu_init`, as `os_main` of kernel/main.c calls them.
use riscvkernel_hit.Kernel.Defs.{Kernel}
