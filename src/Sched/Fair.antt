-- ===== src/Sched/Fair.antt =====
-- No task that stays runnable waits for more than `max_tasks` scheduling decisions.
use riscvkernel_hit.Base.{
  ℕ, ◌+◌, ◌-◌, ◌%◌, ◌≤◌, ◌<◌, ◌≡◌, ◌⊎◌, inl, inr, refl, List, [], ◌∷◌, Option, none, some, true,
  arith, All, length, has,
}
use riscvkernel_hit.Sched.Defs.{TaskState, max_tasks, is_runnable, sched_pick_next}
use riscvkernel_hit.Sched.Pick.{slot_after, IsFirstRunnable, sched_pick_next-IsFirstRunnable}

-- The tasks that a series of decisions switches to: one table of states for each decision, since
-- between two of them tasks may fall asleep, wake up, exit or be created.
unfoldable pub picks : List (ℕ → TaskState) → ℕ → List ℕ
picks [] current = []
picks (states ∷ later) current = elim (sched_pick_next states current) [
  | none ↦ []
  | some next ↦ next ∷ picks later next
]

-- The round in which the search from `current` comes to `id`.
abbrev rounds_to : ℕ → ℕ → ℕ
rounds_to current id = (id + 3 - current) % max_tasks

slot-rounds_to :
    (current id : ℕ)
    → current < max_tasks
    → id < max_tasks
    → slot_after current (rounds_to current id) ≡ id
slot-rounds_to current id h h' = omega arith

-- The decision goes to `id`, or to a task from which `id` is nearer.
abbrev Closer : ℕ → ℕ → Option ℕ → Type 0
Closer id current none = ⊥
Closer id current (some next) =
    (next < max_tasks) × ((next ≡ id) ⊎ (rounds_to next id < rounds_to current id))

first-Closer :
    (states : ℕ → TaskState) (id current : ℕ) (r : Option ℕ)
    → id < max_tasks
    → current < max_tasks
    → is_runnable (states id) ≡ true
    → IsFirstRunnable states current max_tasks r
    → Closer id current r
first-Closer states id current none low low' up h =
    let e : slot_after current (rounds_to current id) ≡ id = slot-rounds_to current id low' low in
    ground (arith, h (rounds_to current id) (omega arith), e)
first-Closer states id current (some next) low low' up (k, lt, e, yes_next, before) =
    ground (arith, slot-rounds_to current id low' low, before (rounds_to current id))

picks-reach :
    (tables : List (ℕ → TaskState)) (id current : ℕ)
    → id < max_tasks
    → current < max_tasks
    → All (λ states. is_runnable (states id) ≡ true) tables
    → rounds_to current id < length tables
    → has id (picks tables current) ≡ true
unfolding picks
picks-reach [] id current low low' up h = absurd (omega arith)
picks-reach (states ∷ later) id current low low' up h =
    go (sched_pick_next states current) refl
      (first-Closer states id current (sched_pick_next states current) low low' up.0
        (sched_pick_next-IsFirstRunnable states current))
      (λ next lt near. picks-reach later id next low lt up.1 near)
  where
    go :
        (r : Option ℕ)
        → sched_pick_next states current ≡ r
        → Closer id current r
        → ((next : ℕ)
            → next < max_tasks
            → rounds_to next id < length later
            → has id (picks later next) ≡ true)
        → has id (picks (states ∷ later) current) ≡ true
    go none e c ih = absurd c
    go (some next) e (lt, inl hit) ih = rw (e, picks) (ground arith)
    go (some next) e (lt, inr near) ih = rw (e, picks) (ground (arith, ih next lt (omega arith)))

-- Whatever the other tasks do, a task in one of the `max_tasks` slots that is runnable at
-- `max_tasks` decisions in a row, the first of them from such a slot, is switched to by one of
-- them.
pub picks-fair :
    (tables : List (ℕ → TaskState)) (id current : ℕ)
    → id < max_tasks
    → current < max_tasks
    → All (λ states. is_runnable (states id) ≡ true) tables
    → max_tasks ≤ length tables
    → has id (picks tables current) ≡ true
picks-fair tables id current low low' up h = picks-reach tables id current low low' up (omega arith)
