-- ===== src/Sched/Pick.antt =====
-- Which task `sched_pick_next` picks, and that no runnable task waits for ever.
use riscvkernel_hit.Base.{
  ℕ, zero, suc, ◌+◌, ◌%◌, ◌<◌, ◌≡◌, inl, inr, Option, none, some, true, false, arith, Bool-cases,
  ◌∙◌,
}
use riscvkernel_hit.Sched.Defs.{TaskState, max_tasks, is_runnable, pick_loop, sched_pick_next}

-- The slot that round robin looks at in round `j`, counted from 0.
abbrev pub slot_after : ℕ → ℕ → ℕ
slot_after current j = (current + 1 + j) % max_tasks

-- What the search over `rounds` slots behind `current` has to answer: the first runnable one.
abbrev pub IsFirstRunnable : (ℕ → TaskState) → ℕ → ℕ → Option ℕ → Type 0
IsFirstRunnable states current rounds none =
    (j : ℕ) → j < rounds → is_runnable (states (slot_after current j)) ≡ false
IsFirstRunnable states current rounds (some next) =
    (k : ℕ) × (k < rounds)
    × (next ≡ slot_after current k)
    × (is_runnable (states next) ≡ true)
    × ((j : ℕ) → j < k → is_runnable (states (slot_after current j)) ≡ false)

module _ (states : ℕ → TaskState) where
  slot-suc : (next j : ℕ) → slot_after ((next + 1) % max_tasks) j ≡ slot_after next (suc j)
  slot-suc next j = omega arith

  shift :
      (next left : ℕ) (r : Option ℕ)
      → is_runnable (states ((next + 1) % max_tasks)) ≡ false
      → IsFirstRunnable states ((next + 1) % max_tasks) left r
      → IsFirstRunnable states next (suc left) r
  shift next left none idle h = λ j lt. skip j lt
    where
      skip : (j : ℕ) → j < suc left → is_runnable (states (slot_after next j)) ≡ false
      skip zero lt =
          let e : slot_after next zero ≡ (next + 1) % max_tasks = omega arith in rw e idle
      skip (suc j) lt = rw (← slot-suc next j) (h j (omega arith))
  shift next left (some n) idle (k, lt, e, yes_n, before) =
      (suc k, omega arith, e ∙ slot-suc next k, yes_n, λ j below. skip j below)
    where
      skip : (j : ℕ) → j < suc k → is_runnable (states (slot_after next j)) ≡ false
      skip zero below =
          let e' : slot_after next zero ≡ (next + 1) % max_tasks = omega arith in rw e' idle
      skip (suc j) below = rw (← slot-suc next j) (before j (omega arith))

  pick_loop-IsFirstRunnable :
      (left next : ℕ) → IsFirstRunnable states next left (pick_loop states left next)
  unfolding pick_loop
  pick_loop-IsFirstRunnable zero next = λ j lt. absurd (omega arith)
  pick_loop-IsFirstRunnable (suc left) next =
      elim (Bool-cases (is_runnable (states ((next + 1) % max_tasks)))) [
        | inl found ↦ rw found (zero, omega arith, omega arith, found, λ j lt. absurd (omega arith))
        | inr idle ↦ rw idle (
            shift next left (pick_loop states left ((next + 1) % max_tasks)) idle
              (pick_loop-IsFirstRunnable left ((next + 1) % max_tasks)))
      ]

  -- `sched_pick_next` answers -1 exactly when none of the `max_tasks` slots is runnable, and
  -- otherwise the first runnable slot in cyclic order behind `current`, `current` itself last.
  pub sched_pick_next-IsFirstRunnable :
      (current : ℕ) → IsFirstRunnable states current max_tasks (sched_pick_next states current)
  unfolding sched_pick_next
  sched_pick_next-IsFirstRunnable current = pick_loop-IsFirstRunnable max_tasks current
