-- ===== src/Spinlock/Spin.antt =====
-- When `spin_lock` returns, and what a processor that waits for the lock can rely on.
use riscvkernel_hit.Base.{
  ◌≡◌, ◌≢◌, refl, List, [], ◌∷◌, Option, none, some, Bool, true, false, arith, inl, inr, Bool-cases,
  ◌==◌, if◌then◌else◌,
}
use riscvkernel_hit.Spinlock.Defs.{Spinlock, Other, amoswap, act, act_all, spin_lock, spin_unlock}

-- The last of the steps is a release.
abbrev pub ends_free : List Other → Bool
ends_free [] = false
ends_free (Other.tries ∷ []) = false
ends_free (Other.releases ∷ []) = true
ends_free (_ ∷ b ∷ later) = ends_free (b ∷ later)

-- What is left behind the first try that has a release directly in front of it.
abbrev pub after_release : List (List Other) → Option (List (List Other))
after_release [] = none
after_release (others ∷ later) = if ends_free others then some later else after_release later

abbrev pub held : Spinlock
held = record { locked = 1 }

abbrev pub taken_with : Option (List (List Other)) → Option (List (List Other) × Spinlock)
taken_with none = none
taken_with (some later) = some (later, held)

-- Steps of other processors leave the lock free if the last of them releases it, and held otherwise.
act_all-free :
    (a : Other) (others : List Other) (lock : Spinlock)
    → (act_all (a ∷ others) lock).locked ≡ (if ends_free (a ∷ others) then 0 else 1)
unfolding act_all act amoswap spin_unlock
act_all-free Other.tries [] lock = refl
act_all-free Other.releases [] lock = refl
act_all-free Other.tries (b ∷ others) lock = act_all-free b others (act Other.tries lock)
act_all-free Other.releases (b ∷ others) lock = act_all-free b others (act Other.releases lock)

finds_free :
    (others : List Other) (lock : Spinlock)
    → lock.locked ≢ 0
    → ((act_all others lock).locked == 0) ≡ ends_free others
unfolding act_all
finds_free [] lock h = ground arith
finds_free (a ∷ others) lock h = ground (arith, act_all-free a others lock)

-- While another processor holds the lock, `spin_lock` returns exactly at its first try that follows
-- directly on a release, without a step of another processor in between that takes the lock again,
-- and has then taken the lock; without such a try it stays in its loop, however often the lock was
-- released.
pub spin_lock-held :
    (others : List (List Other)) (lock : Spinlock)
    → lock.locked ≢ 0
    → spin_lock others lock ≡ taken_with (after_release others)
unfolding spin_lock amoswap
spin_lock-held [] lock h = refl
spin_lock-held (now ∷ later) lock h = elim (Bool-cases (ends_free now)) [
  | inl free ↦ rw (finds_free now lock h, free) refl
  | inr taken ↦ rw (finds_free now lock h, taken) (spin_lock-held later held (omega arith))
]
