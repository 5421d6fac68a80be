-- ===== src/Mutex/Defs.antt =====
-- `mutex_lock` and `mutex_unlock` of one mutex, cut at each access to what the tasks share.
use riscvkernel_hit.Base.{ℕ, ◌+◌, ◌<◌, ◌≤◌, ◌≡◌, ◌≢◌, Option, none, some, Bool, true, false, update}
use riscvkernel_hit.Sched.Defs.{TaskState, max_tasks}

-- The fields of a `mutex_t`, with `guard` for `guard.locked` and `none` for an `owner_id` of -1,
-- and the states of the tasks.
pub record Shared : Type 0 where
  pub locked : ℕ
  pub guard : ℕ
  pub owner_id : Option ℕ
  pub states : ℕ → TaskState

-- `mutex_init`, by `spin_init` for the guard.
unfoldable pub mutex_init : Shared → Shared
mutex_init m = record m { locked = 0; guard = 0; owner_id = none }

-- Where a task stands.
pub data Pc : Type 0 where
  outside : Pc  -- neither holds the mutex nor asks for it
  locking : Pc  -- `mutex_lock`, in the loop of `spin_lock`
  testing : Pc  -- before `m->locked == 0`
  taking : Pc  -- before `m->locked = 1`
  naming : Pc  -- before `m->owner_id = current_task`
  entering : Pc  -- before the `spin_unlock` of a success
  refused : Pc  -- before the `spin_unlock` of a failure
  dozing : Pc  -- before the store of `task_sleep`
  asleep : Pc  -- in `task_sleep`, until the scheduler comes back
  holding : Pc  -- `mutex_lock` has returned
  unlocking : Pc  -- `mutex_unlock`, in the loop of `spin_lock`
  clearing : Pc  -- before `m->locked = 0`
  unnaming : Pc  -- before `m->owner_id = -1`
  waking : (i : ℕ) → Pc  -- at the head of the loop over the tasks
  leaving : Pc  -- before the last `spin_unlock`

abbrev pub wake : TaskState → TaskState
wake TaskState.sleeping = TaskState.ready
wake other = other

abbrev pub is_sleeping : TaskState → Bool
is_sleeping TaskState.sleeping = true
is_sleeping _ = false

-- One step of task `i`. `amoswap` stores 1 and reads the old value in one step; a task that finds
-- the guard taken tries again.
pub data Move (i : ℕ) (m : Shared) : Pc → Shared → Pc → Type 0 where
  call_lock : Move i m Pc.outside m Pc.locking
  lock_spin : m.guard ≢ 0 → Move i m Pc.locking (record m { guard = 1 }) Pc.locking
  lock_swap : m.guard ≡ 0 → Move i m Pc.locking (record m { guard = 1 }) Pc.testing
  test_free : m.locked ≡ 0 → Move i m Pc.testing m Pc.taking
  test_taken : m.locked ≢ 0 → Move i m Pc.testing m Pc.refused
  take : Move i m Pc.taking (record m { locked = 1 }) Pc.naming
  name : Move i m Pc.naming (record m { owner_id = some i }) Pc.entering
  enter : Move i m Pc.entering (record m { guard = 0 }) Pc.holding
  give_up : Move i m Pc.refused (record m { guard = 0 }) Pc.dozing
  doze : Move i m Pc.dozing (record m { states = update m.states i TaskState.sleeping }) Pc.asleep
  resume : is_sleeping (m.states i) ≡ false → Move i m Pc.asleep m Pc.locking
  call_unlock : Move i m Pc.holding m Pc.unlocking
  unlock_spin : m.guard ≢ 0 → Move i m Pc.unlocking (record m { guard = 1 }) Pc.unlocking
  unlock_swap : m.guard ≡ 0 → Move i m Pc.unlocking (record m { guard = 1 }) Pc.clearing
  clear : Move i m Pc.clearing (record m { locked = 0 }) Pc.unnaming
  unname : Move i m Pc.unnaming (record m { owner_id = none }) (Pc.waking 0)
  wake_one :
      {k : ℕ}
      → k < max_tasks
      → Move i m
          (Pc.waking k)
          (record m { states = update m.states k (wake (m.states k)) })
          (Pc.waking (k + 1))
  wake_end : {k : ℕ} → max_tasks ≤ k → Move i m (Pc.waking k) m Pc.leaving
  leave : Move i m Pc.leaving (record m { guard = 0 }) Pc.outside

-- The mutex and the tasks that use it.
pub record System : Type 0 where
  pub shared : Shared
  pub pc : ℕ → Pc

-- Any task may make the next step: the tasks interleave, and may run on several processors.
pub data Step (s : System) : System → Type 0 where
  pick :
      (i : ℕ) {m : Shared} {p : Pc}
      → Move i s.shared (s.pc i) m p
      → Step s (record { shared = m; pc = update s.pc i p })

-- From a mutex that was just initialised, and tasks that do not use it yet.
pub data Reach (m : Shared) : System → Type 0 where
  start : Reach m (record { shared = mutex_init m; pc = λ _. Pc.outside })
  later : {s t : System} → Reach m s → Step s t → Reach m t
