-- ===== src/Mutex/Invariant.antt =====
-- Who may be where: the guard admits one task, and the mutex has one owner.
use riscvkernel_hit.Base.{ℕ, ◌≡◌, some, Bool, true, false}
use riscvkernel_hit.Mutex.Defs.{Shared, Pc}

-- Inside the guard: from the swap that took it to the `spin_unlock`.
abbrev pub in_guard : Pc → Bool
in_guard Pc.testing = true
in_guard Pc.taking = true
in_guard Pc.naming = true
in_guard Pc.entering = true
in_guard Pc.refused = true
in_guard Pc.clearing = true
in_guard Pc.unnaming = true
in_guard (Pc.waking _) = true
in_guard Pc.leaving = true
in_guard _ = false

-- From the store of `locked` to its reset.
abbrev pub holds : Pc → Bool
holds Pc.naming = true
holds Pc.entering = true
holds Pc.holding = true
holds Pc.unlocking = true
holds Pc.clearing = true
holds _ = false

-- The part of that in which `owner_id` is set.
abbrev pub owns : Pc → Bool
owns Pc.entering = true
owns Pc.holding = true
owns Pc.unlocking = true
owns Pc.clearing = true
owns _ = false

-- Where the task has seen to it that nobody holds the mutex.
abbrev pub vacant : Pc → Bool
vacant Pc.taking = true
vacant Pc.unnaming = true
vacant _ = false

pub record Inv (m : Shared) (pc : ℕ → Pc) : Type 0 where
  pub guarded : (j : ℕ) → in_guard (pc j) ≡ true → m.guard ≡ 1
  pub alone : (j k : ℕ) → in_guard (pc j) ≡ true → in_guard (pc k) ≡ true → j ≡ k
  pub locked : (j : ℕ) → holds (pc j) ≡ true → m.locked ≡ 1
  pub single : (j k : ℕ) → holds (pc j) ≡ true → holds (pc k) ≡ true → j ≡ k
  pub empty : (j : ℕ) → vacant (pc j) ≡ true → m.locked ≡ 0
  pub owner : (j : ℕ) → owns (pc j) ≡ true → m.owner_id ≡ some j
