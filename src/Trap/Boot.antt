-- ===== src/Trap/Boot.antt =====
-- `os_main`: from power-on to the first instruction of the first process.
use riscvkernel_hit.Base.{ℕ, ◌+◌, ◌-◌, ◌*◌, ◌%◌, ◌^◌, ◌≤◌, ◌<◌, ◌≡◌, ◌≢◌, ◌⊎◌, List, ◌++◌, bit_or}
use riscvkernel_hit.Memory.Defs.{Mem, read64}
use riscvkernel_hit.Sched.Defs.{TaskState}
use riscvkernel_hit.Kernel.Defs.{Kernel, Layout, switched, current}
use riscvkernel_hit.Page.Defs.{page_size, ram_start, ram_end}
use riscvkernel_hit.Page.FreeList.{IsPage}
use riscvkernel_hit.Page.Alloc.{IsClear}
use riscvkernel_hit.Mmu.Pte.{mmu_make_satp}
use riscvkernel_hit.Mmu.Defs.{clint_base, clint_end, uart_base}
use riscvkernel_hit.Mmu.Tree.{Role, Spaces}
use riscvkernel_hit.Mmu.Identity.{IsIdentity}
use riscvkernel_hit.Mmu.Maps.{device_flags, ram_flags}
use riscvkernel_hit.Mmu.Init.{MmuOn}
use riscvkernel_hit.Task.Frame.{task_trap_frame}
use riscvkernel_hit.Task.Start.{start_word}
use riscvkernel_hit.Task.Space.{StartSpace}
use riscvkernel_hit.Task.Created.{Created}
use riscvkernel_hit.Trap.Defs.{timer_freq, os_main}

-- The kernel when `os_main` has left for the first process.
pub record Booted (l : Layout) (s : Kernel) : Type 0 where
  pub kernel : Kernel
  pub root : ℕ
  pub stack : ℕ
  pub rw_page : ℕ
  pub ro_page : ℕ
  pub role : ℕ → Role
  pub xs : List ℕ
  pub leaves : os_main l s ≡ switched l.trap_return kernel
  pub spaces : Spaces l kernel.mem kernel.free_list role xs
  pub space : StartSpace l kernel.mem root stack rw_page ro_page
  pub stack_page : IsPage l stack
  pub stack_clear : IsClear kernel.mem stack
  pub satp : kernel.cpu.satp ≡ mmu_make_satp root
  pub sp : kernel.cpu.sp ≡ task_trap_frame l 0
  pub words :
      (k : ℕ) → k < 32 → read64 kernel.mem (task_trap_frame l 0 + 8 * k) ≡ start_word l.task_shell k
  pub clint : IsIdentity kernel.mem kernel.root_page_table clint_base clint_end device_flags
  pub uart :
      IsIdentity kernel.mem kernel.root_page_table uart_base (uart_base + page_size) device_flags
  pub ram : IsIdentity kernel.mem kernel.root_page_table ram_start ram_end ram_flags
  pub csrs : kernel.csrs ≡ record {
    mie = bit_or s.csrs.mie (2 ^ 7);
    mstatus = bit_or s.csrs.mstatus (2 ^ 3);
    mtvec = l.trap_vector;
    pmpaddr0 = 2 ^ 64 - 1;
    pmpcfg0 = 0x1f;
  }
  pub timer : kernel.mtimecmp ≡ (s.mtime + timer_freq) % 2 ^ 64
  pub runs : kernel.sched.task_states 0 ≡ TaskState.running
  pub other_states : (j : ℕ) → j ≢ 0 → kernel.sched.task_states j ≡ s.sched.task_states j
  pub image :
      (b : ℕ)
      → b < l.kernel_end
      → (b < task_trap_frame l 0) ⊎ (task_trap_frame l 0 + 256 ≤ b)
      → kernel.mem b ≡ s.mem b

module _ (l : Layout) (s : Kernel) (m : Mem) (head : ℕ) (o : List ℕ) (xs : List ℕ)
    (first : current s ≡ 0) (image : (b : ℕ) → b < l.kernel_end → m b ≡ s.mem b)
    (on : MmuOn l (record s { mem = m; free_list = head; sent = o }) xs) where
  abbrev mapped : Kernel
  mapped = record s {
    mem = on.mem';
    free_list = on.head';
    root_page_table = on.root;
    cpu = record (s.cpu) { satp = on.satp };
    sent = o ++ on.out;
  }
