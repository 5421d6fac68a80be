-- ===== src/Task/Process.antt =====
-- The life of a process: its address space, its creation, its end and its duplication.
use riscvkernel_hit.Base.{
  ℕ, ◌+◌, ◌-◌, ◌*◌, ◌/◌, ◌%◌, ◌^◌, bit_and, bit_or, Option, none, some, Bool, [], ◌∷◌, ◌==◌,
  if◌then◌else◌,
}
use riscvkernel_hit.Sched.Defs.{TaskState}
use riscvkernel_hit.Printf.Defs.{word}
use riscvkernel_hit.Kernel.Defs.{
  Kernel, Layout, Cmd, pure, gets, modify, hang, current, set_task, set_state, set_stack, ◌>>=◌,
  ◌>>◌,
}
use riscvkernel_hit.Kernel.Say.{say}
use riscvkernel_hit.Page.Defs.{page_size, alloc_page, get_free_page_count}
use riscvkernel_hit.Mmu.Pte.{
  pte_v, pte_r, pte_w, pte_x, pte_u, pte_to_pa, is_valid, mmu_make_satp, mmu_satp_to_pgd,
}
use riscvkernel_hit.Mmu.Defs.{load64, store64, walk_pte, map_page, map_identity}
use riscvkernel_hit.Mmu.Spaces.{free_user_page_table, copy_user_page_table}
use riscvkernel_hit.Task.Frame.{
  tf_epc, tf_user_sp, tf_a0, trapframe_clear, trapframe_copy, task_trap_frame,
}
use riscvkernel_hit.Task.Defs.{context_copy, alloc_task_slot, task_yield}

-- kernel/user_layout.h
abbrev pub user_rw_page_va : ℕ
user_rw_page_va = 0x4000_0000

abbrev pub user_stack_top : ℕ
user_stack_top = 0x4010_0000

abbrev pub user_stack_page_va : ℕ
user_stack_page_va = user_stack_top - page_size

abbrev pub user_stack_guard_va : ℕ
user_stack_guard_va = user_stack_top - 2 * page_size

abbrev pub user_ro_page_va : ℕ
user_ro_page_va = 0x5000_0000

-- `a & ~(PAGE_SIZE - 1)`
abbrev pub page_of : ℕ → ℕ
page_of a = bit_and a (2 ^ 64 - page_size)

unfoldable pub task_page_table : ℕ → Kernel → ℕ
task_page_table id s = mmu_satp_to_pgd (s.tasks id).satp

-- `map_range`; the fuel is one more than the pages of the range.
unfoldable pub map_range : ℕ → ℕ → ℕ → ℕ → Cmd (Unit {0})
map_range pgd start end flags =
    let begin = page_of start in
    let limit = page_of ((end + page_size - 1) % 2 ^ 64) in
    map_identity ((limit - begin) / page_size + 1) pgd begin limit flags

unfoldable pub map_boot_user_text : Layout → ℕ → Cmd (Unit {0})
map_boot_user_text l pgd = do
  map_range pgd l.text_start l.text_end (bit_or (bit_or (bit_or pte_r pte_x) pte_u) pte_v)
  map_range pgd l.rodata_start l.rodata_end (bit_or (bit_or pte_r pte_u) pte_v)

-- `map_user_stack` of kernel/task.c and of kernel/exec.c
unfoldable pub map_user_stack : ℕ → ℕ → Cmd (Unit {0})
map_user_stack pgd stack_pa =
    map_page pgd user_stack_page_va stack_pa (bit_or (bit_or (bit_or pte_r pte_w) pte_u) pte_v)

unfoldable pub map_boot_user_data : ℕ → Cmd (Unit {0})
map_boot_user_data pgd = do
  rw_page ← alloc_page
  map_page pgd user_rw_page_va rw_page (bit_or (bit_or (bit_or pte_r pte_w) pte_u) pte_v)
  ro_page ← alloc_page
  map_page pgd user_ro_page_va ro_page (bit_or (bit_or pte_r pte_u) pte_v)

unfoldable pub init_user_address_space : Layout → ℕ → ℕ → Cmd (Unit {0})
init_user_address_space l pgd stack_pa = do
  map_boot_user_text l pgd
  map_user_stack pgd stack_pa
  map_boot_user_data pgd

unfoldable pub bind_task_frame : Layout → ℕ → ℕ → Kernel → Kernel
bind_task_frame l id tf s = set_task id (record (s.tasks id) { ra = l.trap_return; sp = tf }) s

unfoldable pub bind_task_page_table : ℕ → ℕ → Kernel → Kernel
bind_task_page_table id pgd s = set_task id (record (s.tasks id) { satp = mmu_make_satp pgd }) s

unfoldable pub init_user_frame : Layout → ℕ → ℕ → Cmd (Unit {0})
init_user_frame l id entry = do
  let tf = task_trap_frame l id
  modify (trapframe_clear tf)
  store64 (tf + tf_epc) entry
  store64 (tf + tf_user_sp) user_stack_top
  modify (bind_task_frame l id tf)

unfoldable pub task_init : Layout → ℕ → ℕ → Cmd (Unit {0})
task_init l id func = do
  pgd ← alloc_page
  stack ← alloc_page
  modify (set_stack id stack)
  init_user_frame l id func
  init_user_address_space l pgd stack
  modify (bind_task_page_table id pgd)
  modify (set_state id TaskState.ready)
  say "[SYS] Process %d created! Private PGD at phys: 0x%x\n" (word id ∷ word pgd ∷ [])

-- `task_exit`: `status` is an `int` as its 64-bit pattern.
unfoldable pub task_exit : Layout → ℕ → Cmd (Unit {0})
task_exit l status = do
  pages_before ← get_free_page_count
  id ← gets current
  say "\n[KERNEL] Process %d exited with status %d.\n" (word id ∷ word status ∷ [])
  say "[KERNEL] Before reclamation, free pages: %d\n" (word pages_before ∷ [])
  pgd ← gets (task_page_table id)
  free_user_page_table l pgd
  modify (set_stack id 0)
  modify (set_state id TaskState.dead)
  now ← get_free_page_count
  again ← get_free_page_count
  say "[KERNEL] After reclamation, free pages: %d (Recovered %d pages!)\n"
      (word now ∷ word ((again + 2 ^ 32 - pages_before) % 2 ^ 32) ∷ [])
  task_yield
  hang

-- The end of `task_fork`, with the child's stack entry read.
unfoldable pub fork_child : Layout → ℕ → ℕ → ℕ → ℕ → ℕ → Cmd (Option ℕ)
fork_child l parent_tf epc child_id child_pgd stack_pte = do
  let child_tf = task_trap_frame l child_id
  modify (trapframe_copy child_tf parent_tf)
  parent ← gets (λ s. context_copy (s.tasks (current s)))
  modify (set_task child_id parent)
  modify (bind_task_frame l child_id child_tf)
  modify (bind_task_page_table child_id child_pgd)
  store64 (child_tf + tf_epc) ((epc + 4) % 2 ^ 64)
  store64 (child_tf + tf_a0) 0
  pte ← load64 stack_pte
  modify (set_stack child_id (pte_to_pa pte))
  modify (set_state child_id TaskState.ready)
  pure (some child_id)

-- `task_fork` once a slot is found.
unfoldable pub fork_into : Layout → ℕ → ℕ → ℕ → Cmd (Option ℕ)
fork_into l parent_tf epc child_id = do
  src ← gets (λ s. task_page_table (current s) s)
  child_pgd ← copy_user_page_table src
  stack_pte ← walk_pte child_pgd user_stack_page_va Bool.false
  if stack_pte == 0 then pure none else do
    pte ← load64 stack_pte
    if is_valid pte then fork_child l parent_tf epc child_id child_pgd stack_pte else pure none

-- `task_fork`; `none` is the result -1.
unfoldable pub task_fork : Layout → ℕ → ℕ → Cmd (Option ℕ)
task_fork l parent_tf epc = do
  slot ← gets alloc_task_slot
  elim slot [ none ↦ pure none | some child_id ↦ fork_into l parent_tf epc child_id ]
