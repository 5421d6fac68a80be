-- ===== src/Sched/Switch.antt =====
-- `sched_prepare_switch`: who is marked as running.
use riscvkernel_hit.Base.{ℕ, ◌≡◌, ◌≢◌, refl, false, arith, if◌then◌else◌}
use riscvkernel_hit.Sched.Defs.{TaskState, Sched, is_running, sched_prepare_switch}

-- No task but the current one is marked as running.
abbrev pub OnlyCurrentRuns : Sched → Type 0
OnlyCurrentRuns s = (j : ℕ) → j ≢ s.current_task → is_running (s.task_states j) ≡ false

-- If no task but the current one is marked as running, then after `sched_prepare_switch` the next
-- task is current and running, and it alone; the task that ran before is ready if it was running
-- and keeps its state otherwise, and all others keep theirs.
pub sched_prepare_switch-OnlyCurrentRuns :
    (s : Sched) (next : ℕ)
    → OnlyCurrentRuns s
    → let s' = sched_prepare_switch s next in
      (s'.current_task ≡ next)
      × (s'.task_states next ≡ TaskState.running)
      × OnlyCurrentRuns s'
      × ((j : ℕ)
          → j ≢ next
          → s'.task_states j
            ≡ (if is_running (s.task_states j) then TaskState.ready else s.task_states j))
unfolding sched_prepare_switch
sched_prepare_switch-OnlyCurrentRuns s next h =
    (refl, ground arith, λ j ne. ground (arith, h j), λ j ne. ground (arith, h j))
