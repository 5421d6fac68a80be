-- ===== src/Task/Spawn.antt =====
-- `task_fork` as a whole: the slot, the copy of the address space, and the child.
use riscvkernel_hit.Base.{ℕ, ◌+◌, ◌*◌, ◌≤◌, ◌<◌, ◌≡◌, List, Option, none, some, false}
use riscvkernel_hit.Memory.Defs.{read64}
use riscvkernel_hit.Kernel.Defs.{Kernel, Layout, ok}
use riscvkernel_hit.Page.FreeList.{FreeList}
use riscvkernel_hit.Mmu.Pte.{get_vpn}
use riscvkernel_hit.Mmu.Access.{Access, user_byte}
use riscvkernel_hit.Mmu.Copy.Twin.{Taken}
use riscvkernel_hit.Mmu.Copy.Root.{is_shared}
use riscvkernel_hit.Mmu.Copy.Space.{Copiable, Cloned}
use riscvkernel_hit.Task.Frame.{task_trap_frame}
use riscvkernel_hit.Task.Process.{user_stack_page_va, task_fork}
use riscvkernel_hit.Task.Fork.{child_word, Forked}

-- The kernel with the copy of the address space.
abbrev pub cloned : {l : Layout} {s : Kernel} {src : ℕ} {xs : List ℕ} → Cloned l s src xs → Kernel
cloned {s} c = record s { mem = c.mem'; free_list = c.head' }

-- A child was made in the slot `id`.
pub record Spawned (l : Layout) (s : Kernel) (parent_tf epc id src : ℕ) (xs : List ℕ) : Type 0 where
  pub clone : Cloned l s src xs
  pub stack_pte : ℕ
  pub kernel : Kernel
  pub returns : task_fork l parent_tf epc s ≡ ok (some id) kernel
  pub child : Forked l (cloned clone) parent_tf epc id clone.dst stack_pte kernel
  pub registers :
      (k : ℕ)
      → k < 32
      → read64 kernel.mem (task_trap_frame l id + 8 * k) ≡ child_word s.mem parent_tf epc k
  pub sees :
      (k : Access) (va : ℕ)
      → is_shared s.mem s.root_page_table src (get_vpn va 2) ≡ false
      → user_byte k kernel.mem clone.dst va ≡ user_byte k s.mem src va
  pub user_stack : Taken xs clone.xs' (kernel.task_user_stacks id)
  pub frees : FreeList l kernel.mem kernel.free_list clone.xs'

-- What `task_fork` does by the slot that is free, and by the parent's translation of the page of
-- the user stack: without it the copy stays, and the result is -1.
abbrev pub ForkEnds : Layout → Kernel → ℕ → ℕ → ℕ → List ℕ → Option ℕ → Option ℕ → Type 0
ForkEnds l s parent_tf epc src xs none _ = task_fork l parent_tf epc s ≡ ok none s
ForkEnds l s parent_tf epc src xs (some id) none =
    (c : Cloned l s src xs) × (task_fork l parent_tf epc s ≡ ok none (cloned c))
ForkEnds l s parent_tf epc src xs (some id) (some pte) = Spawned l s parent_tf epc id src xs

module _ (l : Layout) (s : Kernel) (parent_tf epc src id : ℕ) (xs : List ℕ)
    (c : Copiable l s src xs) (z : Cloned l s src xs)
    (own : is_shared s.mem s.root_page_table src (get_vpn user_stack_page_va 2) ≡ false)
    (child_low : task_trap_frame l id + 256 ≤ l.kernel_end)
    (parent_low : parent_tf + 256 ≤ l.kernel_end) where
  abbrev slot_no : ℕ
  slot_no = get_vpn user_stack_page_va 0
