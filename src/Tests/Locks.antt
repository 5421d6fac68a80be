-- ===== src/Tests/Locks.antt =====
-- Task 1 locks a mutex that was free.
use riscvkernel_hit.Base.{ℕ, ◌≡◌, ◌≢◌, refl, none, some, true, update, List, [], ◌∷◌, arith}
use riscvkernel_hit.Spinlock.Defs.{Other, spin_lock}
use riscvkernel_hit.Spinlock.Spin.{held, spin_lock-held}
use riscvkernel_hit.Mutex.Defs.{Shared, Pc, Move, System, pick, Reach, start, later, mutex_init}
use riscvkernel_hit.Mutex.Invariant.{in_guard, owns}
use riscvkernel_hit.Mutex.Lost.{mutex_lost_wakeup}
use riscvkernel_hit.Mutex.Exclusion.{mutex_exclusion}
use riscvkernel_hit.Tests.States.{some_states}

abbrev fresh : Shared
fresh = record { locked = 0; guard = 0; owner_id = none; states = some_states }

abbrev moved : ℕ → Shared → (ℕ → Pc) → Pc → System
moved i m pc p = record { shared = m; pc = update pc i p }

abbrev outside : System
outside = record { shared = fresh; pc = λ _. Pc.outside }

abbrev asks : System
asks = moved 1 fresh outside.pc Pc.locking

abbrev swapped : System
swapped = moved 1 (record fresh { guard = 1 }) asks.pc Pc.testing

abbrev tested : System
tested = moved 1 (record fresh { guard = 1 }) swapped.pc Pc.taking

abbrev taken : System
taken = moved 1 (record fresh { guard = 1; locked = 1 }) tested.pc Pc.naming

abbrev named : System
named = moved 1 (record fresh { guard = 1; locked = 1; owner_id = some 1 }) taken.pc Pc.entering

to_asks : Reach fresh asks
unfolding mutex_init
to_asks = later start (pick 1 Move.call_lock)

to_tested : Reach fresh tested
to_tested = later (later to_asks (pick 1 (Move.lock_swap refl))) (pick 1 (Move.test_free refl))

to_named : Reach fresh named
to_named = later (later to_tested (pick 1 Move.take)) (pick 1 Move.name)

mutex_exclusion_example :
    ((j k : ℕ) → owns (named.pc j) ≡ true → owns (named.pc k) ≡ true → j ≡ k)
    × ((j : ℕ)
        → owns (named.pc j) ≡ true
        → (named.shared.locked ≡ 1) × (named.shared.owner_id ≡ some j))
    × ((j k : ℕ) → in_guard (named.pc j) ≡ true → in_guard (named.pc k) ≡ true → j ≡ k)
mutex_exclusion_example = mutex_exclusion to_named

-- In front of the second try the lock is released and taken again, in front of the third released.
abbrev rounds : List (List Other)
rounds =
    []
    ∷ (Other.releases ∷ Other.tries ∷ [])
    ∷ (Other.tries ∷ Other.releases ∷ [])
    ∷ (Other.tries ∷ [])
    ∷ []

spin_lock-held_example : spin_lock rounds held ≡ some ((Other.tries ∷ []) ∷ [], held)
spin_lock-held_example = spin_lock-held rounds held (omega arith)

mutex_lost_wakeup_example :
    (t : System) × Reach fresh t
    × (t.shared.locked ≡ 0)
    × (t.pc 1 ≡ Pc.asleep)
    × ((k : ℕ) → k ≢ 1 → t.pc k ≡ Pc.outside)
    × ((m' : Shared) (p : Pc) → Move 1 t.shared (t.pc 1) m' p → ⊥)
mutex_lost_wakeup_example = mutex_lost_wakeup fresh 1 2 (omega arith)
