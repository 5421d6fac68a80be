-- ===== src/Task/Switching.antt =====
-- The switch of contexts: what a task finds when it runs again, and all outcomes of `task_yield`.
use riscvkernel_hit.Base.{
  ℕ, ◌≡◌, ◌≢◌, refl, ◌∙◌, List, [], ◌∷◌, ◌++◌, Option, none, some, arith, All, Bool-cases, inl, inr,
  ◌==◌, ◌⊎◌, update, if◌then◌else◌,
}
use riscvkernel_hit.Printf.Defs.{codes, printf}
use riscvkernel_hit.Sched.Defs.{
  TaskState, max_tasks, is_running, sched_pick_next, sched_prepare_switch,
}
use riscvkernel_hit.Sched.Pick.{IsFirstRunnable, sched_pick_next-IsFirstRunnable}
use riscvkernel_hit.Kernel.Defs.{Kernel, Context, Run, ok, switched, hung, current}
use riscvkernel_hit.Sched.Switch.{OnlyCurrentRuns, sched_prepare_switch-OnlyCurrentRuns}
use riscvkernel_hit.Kernel.Say.{say_sends}
use riscvkernel_hit.Task.Defs.{exchange, switch_task, yield_to, task_yield}

-- A series of switches from the task `cur`: to each task of the list in turn, which gives up the
-- processor with the registers that stand beside it, and to `last` in the end.
unfoldable pub switches : ℕ → List (ℕ × Context) → ℕ → Kernel → Kernel
switches cur [] last s = exchange cur last s
switches cur ((next, regs) ∷ later) last s =
    switches next later last (record (exchange cur next s) { cpu = regs })

switches-keep :
    (a cur : ℕ) (hops : List (ℕ × Context)) (s : Kernel)
    → cur ≢ a
    → All (λ (hop : ℕ × Context). hop.0 ≢ a) hops
    → (switches cur hops a s).cpu ≡ s.tasks a
unfolding switches exchange
switches-keep a cur [] s ne h = ground (arith, ne)
switches-keep a cur ((next, regs) ∷ later) s ne h =
    switches-keep a next later (record (exchange cur next s) { cpu = regs }) h.0 h.1
    ∙ ground (arith, ne)

-- Whatever other tasks run in between and whatever registers they leave, a task that gave up the
-- processor finds all its registers, the root of its page table among them, as it left them.
pub switches-restore :
    (a : ℕ) (hops : List (ℕ × Context)) (s : Kernel)
    → All (λ (hop : ℕ × Context). hop.0 ≢ a) hops
    → (switches a hops a s).cpu ≡ s.cpu
unfolding switches exchange
switches-restore a [] s h = ground arith
switches-restore a ((next, regs) ∷ later) s h =
    switches-keep a next later (record (exchange a next s) { cpu = regs }) h.0 h.1 ∙ ground arith

-- The kernel in which `next` runs after a switch from the current task of `s`.
pub record SwitchedTo (next : ℕ) (s s' : Kernel) : Type 0 where
  pub registers : s'.cpu ≡ s.tasks next
  pub saved : s'.tasks (current s) ≡ s.cpu
  pub others : (j : ℕ) → j ≢ current s → s'.tasks j ≡ s.tasks j
  pub is_current : current s' ≡ next
  pub marked : s'.sched.task_states next ≡ TaskState.running
  pub alone : OnlyCurrentRuns s'.sched
  pub gave_up : s'.sched.task_states (current s) ≡ (
      if is_running (s.sched.task_states (current s))
      then TaskState.ready
      else s.sched.task_states (current s))
  pub states : (j : ℕ) → j ≢ next → j ≢ current s → s'.sched.task_states j ≡ s.sched.task_states j
  pub memory : s'.mem ≡ s.mem
  pub rest : s' ≡ record s { sched = s'.sched; tasks = s'.tasks; cpu = s'.cpu }

-- What the kernel says before it waits for ever.
abbrev pub halt_message : List ℕ
halt_message = codes "\n[SYS] All tasks have exited. System halting.\n"

-- How a yield ends once the scheduler has answered.
abbrev pub YieldsTo : Kernel → Run (Unit {0}) → Option ℕ → Type 0
YieldsTo s r none = r ≡ hung (record s { sent = s.sent ++ halt_message })
YieldsTo s r (some next) =
    ((next ≡ current s) × (r ≡ ok tt s))
    ⊎ ((s' : Kernel) × (next ≢ current s)
        × (r ≡ switched (s.tasks next).ra s')
        × SwitchedTo next s s')

switch_task-SwitchedTo :
    (s : Kernel) (next : ℕ)
    → OnlyCurrentRuns s.sched
    → next ≢ current s
    → (s' : Kernel) × (switch_task next s ≡ switched (s.tasks next).ra s') × SwitchedTo next s s'
unfolding switch_task
switch_task-SwitchedTo s next h ne =
    let prepared : Kernel = record s { sched = sched_prepare_switch s.sched next } in
    let (now, runs, alone, rest) = sched_prepare_switch-OnlyCurrentRuns s.sched next h in
    let loads : update s.tasks (current s) s.cpu next ≡ s.tasks next = ground (arith, ne) in
    (
      exchange (current s) next prepared,
      rw (now, loads),
      record {
        registers = ground (arith, ne);
        saved = ground arith;
        others = λ j ne'. ground (arith, ne');
        is_current = now;
        marked = runs;
        alone = alone;
        gave_up = rest (current s) (ground (arith, ne));
        states = λ j ne' old. rest j ne' ∙ ground (arith, h j old);
        memory = refl;
        rest = refl;
      },
    )

-- If no task but the current one is marked as running, `task_yield` goes to the first runnable
-- slot in cyclic order behind it. If that is another task, the processor goes on at the address
-- and with the registers that were saved for it, the caller's are saved, the other task alone is
-- marked as running, the caller is ready if it was running and keeps its state otherwise, the
-- states of all others stay, and nothing else in the kernel changes; if it is the task itself the
-- call returns with nothing changed; and if there is none the kernel writes that all tasks have
-- exited and waits for ever.
pub task_yield-YieldsTo :
    (s : Kernel)
    → OnlyCurrentRuns s.sched
    → (picked : Option ℕ) × IsFirstRunnable s.sched.task_states (current s) max_tasks picked
      × YieldsTo s (task_yield s) picked
unfolding task_yield
task_yield-YieldsTo s h =
    let picked : Option ℕ = sched_pick_next s.sched.task_states (current s) in
    (picked, sched_pick_next-IsFirstRunnable s.sched.task_states (current s), yields picked)
  where
    yields : (picked : Option ℕ) → YieldsTo s (yield_to picked s) picked
    yields none =
        unfold yield_to printf in
        let e =
          say_sends "\n[SYS] All tasks have exited. System halting.\n" [] halt_message s refl in
        rw e refl
    yields (some next) = elim (Bool-cases (next == current s)) [
      | inl e ↦ inl (ground arith, unfold yield_to in rw e)
      | inr e ↦
          let ne : next ≢ current s = ground arith in
          let (s', goes, is) = switch_task-SwitchedTo s next h ne in
          inr (s', ne, unfold yield_to in rw (e, yield_to) goes, is)
    ]
