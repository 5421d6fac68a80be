-- ===== src/Task/Defs.antt =====
-- Scheduling of tasks: the switch of contexts, yielding, sleeping and waking.
use riscvkernel_hit.Base.{
  ℕ, zero, suc, ◌+◌, Option, none, some, Bool, true, false, [], ◌==◌, if◌then◌else◌, update,
}
use riscvkernel_hit.Sched.Defs.{TaskState, max_tasks, sched_pick_next, sched_prepare_switch}
use riscvkernel_hit.Kernel.Defs.{
  Kernel, Context, Layout, switched, Cmd, pure, gets, modify, hang, current, set_state, ◌>>=◌, ◌>>◌,
}
use riscvkernel_hit.Kernel.Say.{say}

-- `context_copy`: every field.
unfoldable pub context_copy : Context → Context
context_copy src = record {
  ra = src.ra;
  sp = src.sp;
  s0 = src.s0;
  s1 = src.s1;
  s2 = src.s2;
  s3 = src.s3;
  s4 = src.s4;
  s5 = src.s5;
  s6 = src.s6;
  s7 = src.s7;
  s8 = src.s8;
  s9 = src.s9;
  s10 = src.s10;
  s11 = src.s11;
  satp = src.satp;
}

abbrev pub is_dead : TaskState → Bool
is_dead TaskState.dead = true
is_dead _ = false

-- The loop of `alloc_task_slot`, with the rounds that are left and the index; `none` is -1.
unfoldable pub slot_loop : ℕ → ℕ → (ℕ → TaskState) → Option ℕ
slot_loop zero i states = none
slot_loop (suc left) i states =
    let rest = slot_loop left (i + 1) states in if is_dead (states i) then some i else rest

unfoldable pub alloc_task_slot : Kernel → Option ℕ
unfolding slot_loop
alloc_task_slot s = slot_loop max_tasks 0 s.sched.task_states

-- The registers after `switch_to`: those of the caller are stored in one entry of `tasks`, and
-- those of the other entry loaded, its root page table with them.
unfoldable pub exchange : ℕ → ℕ → Kernel → Kernel
exchange prev next s =
    let saved = update s.tasks prev s.cpu in record s { tasks = saved; cpu = saved next }

-- `switch_to`: the `ret` at its end goes to the `ra` that was loaded.
unfoldable pub switch_to : ℕ → ℕ → Cmd (Unit {0})
unfolding exchange
switch_to prev next s = let s' = exchange prev next s in switched s'.cpu.ra s'

abbrev prepare : ℕ → Kernel → Kernel
prepare next s = record s { sched = sched_prepare_switch s.sched next }

unfoldable pub switch_task : ℕ → Cmd (Unit {0})
unfolding switch_to
switch_task next = do
  prev ← gets current
  modify (prepare next)
  now ← gets current
  switch_to prev now

-- `task_yield` with what the scheduler picked. Without a runnable task the processor waits for
-- ever.
unfoldable pub yield_to : Option ℕ → Cmd (Unit {0})
unfolding switch_task
yield_to none = say "\n[SYS] All tasks have exited. System halting.\n" [] >> hang
yield_to (some next) = do now ← gets current; if next == now then pure tt else switch_task next

unfoldable pub task_yield : Cmd (Unit {0})
unfolding yield_to
task_yield = do next ← gets (λ s. sched_pick_next s.sched.task_states (current s)); yield_to next

unfoldable pub task_sleep : Cmd (Unit {0})
task_sleep = do id ← gets current; modify (set_state id TaskState.sleeping); task_yield

unfoldable pub task_wakeup : ℕ → Kernel → Kernel
task_wakeup id s = set_state id TaskState.ready s

unfoldable pub get_task_satp : ℕ → Kernel → ℕ
get_task_satp id s = (s.tasks id).satp

abbrev pub set_sp : ℕ → Kernel → Kernel
set_sp sp s = record s { cpu = record (s.cpu) { sp = sp } }

-- `task_wrapper`: the jump to `trap_return` with the frame of the current task on the stack.
unfoldable pub task_wrapper : Layout → Cmd (Unit {0})
task_wrapper l = do
  id ← gets current
  modify (set_state id TaskState.running)
  sp ← gets (λ s. (s.tasks id).sp)
  modify (set_sp sp)
  λ s. switched l.trap_return s
