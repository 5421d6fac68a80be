-- ===== src/Sched/Defs.antt =====
-- The scheduler's state and its two operations.
use riscvkernel_hit.Base.{
  ℕ, zero, suc, ◌+◌, ◌%◌, Option, none, some, Bool, true, false, if◌then◌else◌, update,
}

-- TASK_READY, TASK_RUNNING, TASK_SLEEPING, TASK_DEAD
pub data TaskState : Type 0 where
  ready : TaskState
  running : TaskState
  sleeping : TaskState
  dead : TaskState

abbrev pub max_tasks : ℕ
max_tasks = 4

-- `current_task` and `task_states`; an entry from `max_tasks` on stands for no task.
pub record Sched : Type 0 where
  pub current_task : ℕ
  pub task_states : ℕ → TaskState

abbrev pub is_running : TaskState → Bool
is_running TaskState.running = true
is_running _ = false

-- `task_states[id] == TASK_READY || task_states[id] == TASK_RUNNING`
abbrev pub is_runnable : TaskState → Bool
is_runnable TaskState.ready = true
is_runnable TaskState.running = true
is_runnable TaskState.sleeping = false
is_runnable TaskState.dead = false

unfoldable pub task_is_runnable : (ℕ → TaskState) → ℕ → Bool
task_is_runnable states id = is_runnable (states id)

-- The loop of `sched_pick_next`, with the rounds that are left.
unfoldable pub pick_loop : (ℕ → TaskState) → ℕ → ℕ → Option ℕ
unfolding task_is_runnable
pick_loop states zero next = none
pick_loop states (suc left) next =
    let next' = (next + 1) % max_tasks in
    let rest = pick_loop states left next' in
    if task_is_runnable states next' then some next' else rest

-- `sched_pick_next`; `none` is the result -1.
unfoldable pub sched_pick_next : (ℕ → TaskState) → ℕ → Option ℕ
unfolding pick_loop
sched_pick_next states current = pick_loop states max_tasks current

-- `sched_prepare_switch`
unfoldable pub sched_prepare_switch : Sched → ℕ → Sched
sched_prepare_switch s next =
    let prev = s.current_task in
    let states =
      if is_running (s.task_states prev)
      then update s.task_states prev TaskState.ready
      else s.task_states in
    record { current_task = next; task_states = update states next TaskState.running }
