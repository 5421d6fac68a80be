-- ===== src/Spinlock/Defs.antt =====
-- The operations of kernel/spinlock.c. Between two tries of `spin_lock` other processors may act.
use riscvkernel_hit.Base.{ℕ, List, [], ◌∷◌, Option, none, some, ◌==◌, if◌then◌else◌}

-- `spinlock_t`
pub record Spinlock : Type 0 where
  pub locked : ℕ

unfoldable pub spin_init : Spinlock → Spinlock
spin_init lock = record lock { locked = 0 }

-- `amoswap.w`: the old value, and the lock with the new one.
unfoldable pub amoswap : ℕ → Spinlock → ℕ × Spinlock
amoswap value lock = (lock.locked, record lock { locked = value })

unfoldable pub spin_unlock : Spinlock → Spinlock
unfolding amoswap
spin_unlock lock = (amoswap 0 lock).1

-- One step of another processor at the lock: a try of its own, which takes the lock if it is free,
-- or the release of the lock that it holds.
pub data Other : Type 0 where
  tries : Other
  releases : Other

unfoldable pub act : Other → Spinlock → Spinlock
unfolding amoswap
act Other.tries lock = (amoswap 1 lock).1
act Other.releases lock = spin_unlock lock

-- Any number of such steps, in their order.
unfoldable pub act_all : List Other → Spinlock → Spinlock
unfolding act
act_all [] lock = lock
act_all (other ∷ later) lock = act_all later (act other lock)

-- The loop of `spin_lock`, over all that the other processors do in front of each of its tries;
-- `none` if it is still in the loop at the end of them.
unfoldable pub spin_lock : List (List Other) → Spinlock → Option (List (List Other) × Spinlock)
unfolding act_all amoswap
spin_lock [] lock = none
spin_lock (others ∷ later) lock =
    let (old_value, lock') = amoswap 1 (act_all others lock) in
    let rest = spin_lock later lock' in if old_value == 0 then some (later, lock') else rest
