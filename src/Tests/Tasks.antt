-- ===== src/Tests/Tasks.antt =====
-- The scheduler, the switch of contexts and the making of a child on the tasks of `some_sched`.
use riscvkernel_hit.Base.{ℕ, ◌≡◌, ◌≢◌, refl, List, [], ◌∷◌, Option, true, arith, has, if◌then◌else◌}
use riscvkernel_hit.Sched.Defs.{
  TaskState, max_tasks, is_running, sched_pick_next, sched_prepare_switch,
}
use riscvkernel_hit.Sched.Pick.{IsFirstRunnable, sched_pick_next-IsFirstRunnable}
use riscvkernel_hit.Sched.Fair.{picks, picks-fair}
use riscvkernel_hit.Sched.Switch.{OnlyCurrentRuns, sched_prepare_switch-OnlyCurrentRuns}
use riscvkernel_hit.Kernel.Defs.{Context}
use riscvkernel_hit.Task.Defs.{task_yield}
use riscvkernel_hit.Task.Switching.{switches, switches-restore, YieldsTo, task_yield-YieldsTo}
use riscvkernel_hit.Tests.States.{context, some_states, some_sched, two_pages}

-- Task 2 comes next after task 0, since task 1 sleeps.
picks_two : sched_pick_next some_states 0 ≡ Option.some 2
unfolding sched_pick_next
picks_two = refl

some_sched-OnlyCurrentRuns : OnlyCurrentRuns some_sched
some_sched-OnlyCurrentRuns j ne = ground (arith, ne)

sched_pick_next-IsFirstRunnable_example :
    IsFirstRunnable some_states 0 max_tasks (sched_pick_next some_states 0)
sched_pick_next-IsFirstRunnable_example = sched_pick_next-IsFirstRunnable some_states 0

picks-fair_example :
    has 2 (picks (some_states ∷ some_states ∷ some_states ∷ some_states ∷ []) 0) ≡ true
picks-fair_example =
    picks-fair (some_states ∷ some_states ∷ some_states ∷ some_states ∷ []) 2 0 (omega arith)
      (omega arith) (refl, (refl, (refl, (refl, tt)))) (omega arith)

sched_prepare_switch-OnlyCurrentRuns_example :
    ((sched_prepare_switch some_sched 2).current_task ≡ 2)
    × ((sched_prepare_switch some_sched 2).task_states 2 ≡ TaskState.running)
    × OnlyCurrentRuns (sched_prepare_switch some_sched 2)
    × ((j : ℕ)
        → j ≢ 2
        → (sched_prepare_switch some_sched 2).task_states j
          ≡ (if is_running (some_states j) then TaskState.ready else some_states j))
sched_prepare_switch-OnlyCurrentRuns_example =
    sched_prepare_switch-OnlyCurrentRuns some_sched 2 some_sched-OnlyCurrentRuns

task_yield-YieldsTo_example :
    (picked : Option ℕ) × IsFirstRunnable some_states 0 max_tasks picked
    × YieldsTo two_pages (task_yield two_pages) picked
task_yield-YieldsTo_example = task_yield-YieldsTo two_pages some_sched-OnlyCurrentRuns

abbrev two_hops : List (ℕ × Context)
two_hops = (2, context 5) ∷ (1, context 6) ∷ []

switches-restore_example : (switches 0 two_hops 0 two_pages).cpu ≡ context 7
switches-restore_example = switches-restore 0 two_hops two_pages (omega arith, (omega arith, tt))
