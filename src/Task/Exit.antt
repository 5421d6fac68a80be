-- ===== src/Task/Exit.antt =====
-- `task_exit`: the pages come back, the slot is dead, and another task runs.
use riscvkernel_hit.Base.{
  ℕ, ◌+◌, ◌-◌, ◌%◌, ◌^◌, ◌≤◌, ◌≡◌, ◌≢◌, inl, inr, refl, ◌∙◌, List, [], ◌∷◌, ◌++◌, Option, none,
  some, true, arith, length, ◌<◌, ◌⊎◌, sym, ap, All, update,
}
use mathlib.Core.List.{append_assoc}
use riscvkernel_hit.Memory.Defs.{Mem}
use riscvkernel_hit.Printf.Defs.{word}
use riscvkernel_hit.Printf.Fits.{fits}
use riscvkernel_hit.Sched.Defs.{TaskState, max_tasks, is_runnable}
use riscvkernel_hit.Sched.Pick.{IsFirstRunnable}
use riscvkernel_hit.Sched.Switch.{OnlyCurrentRuns}
use riscvkernel_hit.Kernel.Defs.{
  Kernel, Layout, Run, switched, hung, current, set_state, set_stack, hang, ◌>>◌,
}
use riscvkernel_hit.Kernel.Say.{say-ok}
use riscvkernel_hit.Page.Defs.{ram_start}
use riscvkernel_hit.Page.FreeList.{FreeList}
use riscvkernel_hit.Page.Count.{get_free_page_count-length}
use riscvkernel_hit.Mmu.Owned.{owned, rev_onto}
use riscvkernel_hit.Mmu.Reclaim.{Owns, free_user_page_table-Released}
use riscvkernel_hit.Task.Defs.{task_yield}
use riscvkernel_hit.Task.Process.{task_page_table, task_exit}
use riscvkernel_hit.Task.Switching.{SwitchedTo, YieldsTo, halt_message, task_yield-YieldsTo}

-- The states once the current task has ended.
abbrev pub ended_states : Kernel → ℕ → TaskState
ended_states s = update s.sched.task_states (current s) TaskState.dead

-- The kernel `t` that is left when the current task of `s` has ended and its pages `ps` are given
-- back. Only the contexts, the states, the current task and what is written to the line depend on
-- who runs next.
pub record Ended (l : Layout) (s t : Kernel) (ps xs : List ℕ) : Type 0 where
  pub frees : FreeList l t.mem t.free_list (rev_onto ps xs)
  pub same : (b : ℕ) → All (λ p. (b < p) ⊎ (p + 8 ≤ b)) ps → t.mem b ≡ s.mem b
  pub dead : t.sched.task_states (current s) ≡ TaskState.dead
  pub states :
      (j : ℕ) → j ≢ current s → j ≢ current t → t.sched.task_states j ≡ s.sched.task_states j
  pub alone : OnlyCurrentRuns t.sched
  pub contexts : (j : ℕ) → j ≢ current s → t.tasks j ≡ s.tasks j
  pub rest : t ≡ record s {
    mem = t.mem;
    free_list = t.free_list;
    sched = t.sched;
    tasks = t.tasks;
    task_user_stacks = update s.task_user_stacks (current s) 0;
    cpu = t.cpu;
    sent = t.sent;
  }

-- How the call ends once the scheduler has answered: it never returns, and leaves `t`.
abbrev pub ExitEnds : {A : Type 0} → Kernel → Run A → Kernel → Option ℕ → Type 0
ExitEnds s r t none =
    (r ≡ hung t)
    × (current t ≡ current s)
    × (t.cpu ≡ s.cpu)
    × (t.tasks ≡ s.tasks)
    × (out : List ℕ) × (t.sent ≡ (s.sent ++ out) ++ halt_message)
ExitEnds s r t (some next) =
    (next ≢ current s)
    × (r ≡ switched (s.tasks next).ra t)
    × (t.cpu ≡ s.tasks next)
    × (current t ≡ next)
    × (t.sched.task_states next ≡ TaskState.running)
    × (t.tasks (current s) ≡ s.cpu)

pub record Exited {A : Type 0} (l : Layout) (s : Kernel) (r : Run A) (ps xs : List ℕ) : Type 0 where
  pub left : Kernel
  pub ended : Ended l s left ps xs
  pub picked : Option ℕ
  pub first : IsFirstRunnable (ended_states s) (current s) max_tasks picked
  pub ends : ExitEnds s r left picked

with_sent : Kernel → List ℕ → Kernel
with_sent s out = record s { sent = out }

Owns-with_sent :
    (l : Layout) (s : Kernel) (pgd : ℕ) (xs out : List ℕ)
    → Owns l s pgd xs
    → Owns l (with_sent s out) pgd xs
unfolding with_sent
Owns-with_sent l s pgd xs out o = record {
  frees = o.frees;
  root = o.root;
  pages = o.pages;
  distinct = o.distinct;
  rootless = o.rootless;
  in_use = o.in_use;
}

-- The kernel in which a task that ends yields for the last time.
abbrev quiet : Kernel → Mem → ℕ → List ℕ → Kernel
quiet s m head out = record s {
  mem = m;
  free_list = head;
  sched = record (s.sched) { task_states = ended_states s };
  task_user_stacks = update s.task_user_stacks (current s) 0;
  sent = s.sent ++ out;
}

module _ (l : Layout) (s : Kernel) (m : Mem) (head : ℕ) (out ps xs : List ℕ)
    (frees : FreeList l m head (rev_onto ps xs))
    (same : (b : ℕ) → All (λ p. (b < p) ⊎ (p + 8 ≤ b)) ps → m b ≡ s.mem b)
    (alone : OnlyCurrentRuns s.sched) where
  abbrev q : Kernel
  q = quiet s m head out

  halted-Ended : Ended l s (record q { sent = q.sent ++ halt_message }) ps xs
  halted-Ended = record {
    frees = frees;
    same = same;
    dead = ground arith;
    states = λ j ne ne'. ground (arith, ne);
    alone = λ j ne. ground (arith, ne, alone j ne);
    contexts = λ j ne. refl;
    rest = refl;
  }

  switched-Ended :
      (next : ℕ) (t : Kernel) → next ≢ current s → SwitchedTo next q t → Ended l s t ps xs
  switched-Ended next t ne to =
      let m' : t.mem ≡ m = to.memory in
      let head' : t.free_list ≡ head = ap (λ k. k.free_list) to.rest in
      let gone : ended_states s (current s) ≡ TaskState.dead = ground arith in
      record {
        frees = rw (m', head') frees;
        same = λ b off. rw m' (same b off);
        dead = to.gave_up ∙ rw gone refl;
        states =
            λ j ne' ne''. to.states j (λ e. ne'' (e ∙ sym to.is_current)) ne' ∙ ground (arith, ne');
        alone = to.alone;
        contexts = λ j ne'. to.others j ne';
        rest =
            to.rest
            ∙ ap
                (λ k. record s {
                  mem = k.0;
                  free_list = k.1;
                  sched = t.sched;
                  tasks = t.tasks;
                  task_user_stacks = update s.task_user_stacks (current s) 0;
                  cpu = t.cpu;
                  sent = k.2;
                })
                (kept t to.rest);
      }
    where
      kept :
          (t : Kernel)
          → t ≡ record q { sched = t.sched; tasks = t.tasks; cpu = t.cpu }
          → ◌≡◌ {A = Mem × ℕ × List ℕ} (m, head, q.sent) (t.mem, t.free_list, t.sent)
      kept t e = sym (ap (λ k. (k.mem, k.free_list, k.sent)) e)

  -- A dead task that yields does not come back.
  dead-Exited :
      {A : Type 0} (r : Run A) (picked : Option ℕ)
      → IsFirstRunnable (ended_states s) (current s) max_tasks picked
      → YieldsTo q (task_yield q) picked
      → ((t : Kernel) → task_yield q ≡ hung t → r ≡ hung t)
      → ((pc : ℕ) (t : Kernel) → task_yield q ≡ switched pc t → r ≡ switched pc t)
      → Exited l s r ps xs
  dead-Exited r none first e hangs goes = record {
    left = record q { sent = q.sent ++ halt_message };
    ended = halted-Ended;
    picked = none;
    first = first;
    ends = (hangs _ e, refl, refl, refl, out, refl);
  }
  dead-Exited r (some next) (k, lt, e, runs, before) (inl (here, _)) hangs goes =
      let runs' : is_runnable (ended_states s (current s)) ≡ true = rw here at runs in
      absurd (ground (arith, runs'))
  dead-Exited r (some next) first (inr (t, ne, e, to)) hangs goes = record {
    left = t;
    ended = switched-Ended next t ne to;
    picked = some next;
    first = first;
    ends = (ne, goes _ t e, to.registers, to.is_current, to.marked, to.saved);
  }

-- If the address space of the current task can be given back, and no other task is marked as
-- running, `task_exit` never returns: it goes on with the registers of the first runnable task in
-- cyclic order, which is not the one that ended and which alone is then marked as running, or, if
-- there is none, writes that all tasks have exited and waits for ever. In the kernel that it leaves
-- the pages of the address space are free, in front of those that were, and no byte outside their
-- first words has changed; the slot of the task is dead and its stack forgotten; the states of the
-- other tasks but the one that runs, their contexts and stacks, and all other variables and
-- registers are as they were.
pub task_exit-Exited :
    (l : Layout) (s : Kernel) (status : ℕ) (xs : List ℕ)
    → ram_start ≤ l.kernel_end
    → Owns l s (task_page_table (current s) s) xs
    → OnlyCurrentRuns s.sched
    → Exited l s
        (task_exit l status s)
        (owned l s.mem s.root_page_table (task_page_table (current s) s))
        xs
unfolding task_exit with_sent task_page_table
task_exit-Exited l s status xs above owns alone =
    let id : ℕ = current s in
    let pgd : ℕ = task_page_table id s in
    let ps = owned l s.mem s.root_page_table pgd in
    let before = get_free_page_count-length l above s xs owns.frees in
    let (a, ea) =
      say-ok "\n[KERNEL] Process %d exited with status %d.\n" (word id ∷ word status ∷ []) s
        (unfold fits in refl) in
    let sa : Kernel = with_sent s (s.sent ++ a) in
    let (b, eb) =
      say-ok "[KERNEL] Before reclamation, free pages: %d\n" (word (length xs) ∷ []) sa
        (unfold fits in refl) in
    let sb : Kernel = with_sent s (sa.sent ++ b) in
    let r =
      free_user_page_table-Released l sb pgd xs (Owns-with_sent l s pgd xs (sa.sent ++ b) owns) in
    let sr : Kernel = record sb { mem = r.mem'; free_list = r.head' } in
    let sq : Kernel = set_state id TaskState.dead (set_stack id 0 sr) in
    let after = get_free_page_count-length l above sq (rev_onto ps xs) r.frees in
    let n : ℕ = length (rev_onto ps xs) in
    let (c, ec) =
      say-ok "[KERNEL] After reclamation, free pages: %d (Recovered %d pages!)\n"
        (word n ∷ word ((n + 2 ^ 32 - length xs) % 2 ^ 32) ∷ []) sq (unfold fits in refl) in
    let said : List ℕ = a ++ b ++ c in
    let last : Kernel = quiet s r.mem' r.head' said in
    let line : ((s.sent ++ a) ++ b) ++ c ≡ s.sent ++ said = simp append_assoc in
    let (picked, first, yields) = task_yield-YieldsTo last (λ j ne. ground (arith, alone j ne)) in
    let goes : task_exit l status s ≡ (task_yield >> hang) (record sq { sent = sq.sent ++ c }) =
      rw before (rw (ea, eb) (rw r.returns (rw after (rw after (rw ec))))) in
    let goes' : task_exit l status s ≡ (task_yield >> hang) last =
      goes ∙ ap (λ o. (task_yield >> hang) (record last { sent = o })) line in
    dead-Exited l s r.mem' r.head' said ps xs r.frees r.same alone (task_exit l status s) picked
      first yields (λ t e. goes' ∙ rw e) (λ pc t e. goes' ∙ rw e)
