-- ===== src/Entry/First.antt =====
-- The first process: `os_main`, its jump to `trap_return`, and what the program then finds.
use riscvkernel_hit.Base.{ℕ, ◌+◌, ◌≤◌, ◌<◌, ◌≡◌, ◌≢◌, none, some, true, false, if◌then◌else◌}
use riscvkernel_hit.Kernel.Defs.{Kernel, Layout}
use riscvkernel_hit.Page.Defs.{page_size}
use riscvkernel_hit.Mmu.Pte.{mmu_make_satp}
use riscvkernel_hit.Mmu.Access.{Access, permits, user_byte}
use riscvkernel_hit.Task.Frame.{task_trap_frame}
use riscvkernel_hit.Task.Process.{user_stack_top, user_stack_page_va}
use riscvkernel_hit.Task.Maps.{IsLinked}
use riscvkernel_hit.Trap.Boot.{Booted}
use riscvkernel_hit.Entry.Defs.{Hart, reg_sp, load_frame}

-- What the first process finds: the processor `h`, and in its space the memory `m` of the start.
pub record FirstProgram (l : Layout) (s : Kernel) (h : Hart) (k : Kernel) (root : ℕ) : Type 0 where
  pub pc : h.pc ≡ l.task_shell
  pub sp : h.regs reg_sp ≡ user_stack_top
  pub regs : (r : ℕ) → 0 < r → r < 32 → r ≢ reg_sp → h.regs r ≡ 0
  pub kernel_stack : h.mscratch ≡ l.task_kernel_stacks + page_size
  pub satp : k.cpu.satp ≡ mmu_make_satp root
  pub code :
      (access : Access) (a : ℕ)
      → l.text_start ≤ a
      → a < l.text_end
      → user_byte access k.mem root a
        ≡ (if permits access true false true then some (s.mem a) else none)
  pub stack :
      (access : Access) (a : ℕ)
      → user_stack_page_va ≤ a
      → a < user_stack_top
      → user_byte access k.mem root a ≡ (if permits access true true false then some 0 else none)

-- The program that `trap_return` loads from the frame of the first process.
module _ (l : Layout) (s : Kernel) (lay : IsLinked l) (apart : l.text_end ≤ l.task_kernel_stacks)
    (inside : l.task_kernel_stacks + page_size ≤ l.kernel_end) (b : Booted l s) where
  abbrev program : Hart
  program = load_frame (task_trap_frame l 0) b.kernel.mem
