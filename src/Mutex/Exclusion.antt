-- ===== src/Mutex/Exclusion.antt =====
-- The invariant holds in every reachable state, and what follows from it.
use riscvkernel_hit.Base.{ℕ, ◌≡◌, ◌≢◌, refl, some, true, arith, update}
use riscvkernel_hit.Mutex.Defs.{
  Shared, Pc, Move, System, Step, pick, Reach, start, later, mutex_init,
}
use riscvkernel_hit.Mutex.Invariant.{in_guard, holds, owns, vacant, Inv}

-- The premise of a step, for the clauses below that do not name it.
abbrev Premise : {i : ℕ} {m m' : Shared} {p p' : Pc} → Move i m p m' p' → Type 0
Premise {m} (Move.lock_swap _) = m.guard ≡ 0
Premise {m} (Move.test_free _) = m.locked ≡ 0
Premise {m} (Move.unlock_swap _) = m.guard ≡ 0
Premise {m} (Move.lock_spin _) = m.guard ≢ 0
Premise {m} (Move.unlock_spin _) = m.guard ≢ 0
Premise _ = Unit

premise : {i : ℕ} {m m' : Shared} {p p' : Pc} (mv : Move i m p m' p') → Premise mv
premise (Move.lock_swap g) = g
premise (Move.test_free g) = g
premise (Move.unlock_swap g) = g
premise (Move.lock_spin g) = g
premise (Move.unlock_spin g) = g
premise _ = tt

module _ {m : Shared} {pc : ℕ → Pc} (inv : Inv m pc) (i : ℕ) where
  open inv use {guarded, alone, locked, single, empty, owner}

  Move-guarded :
      {p p' : Pc} {m' : Shared}
      → Move i m p m' p'
      → pc i ≡ p
      → (j : ℕ) → in_guard (update pc i p' j) ≡ true
      → m'.guard ≡ 1
  Move-guarded Move.call_lock e j h = ground (arith, guarded j, guarded i, alone i j)
  Move-guarded mv e j h = ground (arith, premise mv, guarded j, guarded i, alone i j)

  Move-alone :
      {p p' : Pc} {m' : Shared}
      → Move i m p m' p'
      → pc i ≡ p
      → (j k : ℕ) → in_guard (update pc i p' j) ≡ true
      → in_guard (update pc i p' k) ≡ true
      → j ≡ k
  Move-alone Move.call_lock e j k h h' =
      ground (arith, guarded j, guarded k, alone j k, alone i j, alone i k)
  Move-alone mv e j k h h' =
      ground (arith, premise mv, guarded j, guarded k, alone j k, alone i j, alone i k)

  Move-locked :
      {p p' : Pc} {m' : Shared}
      → Move i m p m' p'
      → pc i ≡ p
      → (j : ℕ) → holds (update pc i p' j) ≡ true
      → m'.locked ≡ 1
  Move-locked Move.call_lock e j h = ground (arith, locked j, locked i, single i j)
  Move-locked mv e j h = ground (arith, premise mv, locked j, locked i, single i j, empty i)

  Move-single :
      {p p' : Pc} {m' : Shared}
      → Move i m p m' p'
      → pc i ≡ p
      → (j k : ℕ) → holds (update pc i p' j) ≡ true
      → holds (update pc i p' k) ≡ true
      → j ≡ k
  Move-single Move.call_lock e j k h h' = ground (arith, single j k, single i j, single i k)
  Move-single mv e j k h h' =
      ground (arith, single j k, single i j, single i k, locked j, locked k, empty i)

  Move-empty :
      {p p' : Pc} {m' : Shared}
      → Move i m p m' p'
      → pc i ≡ p
      → (j : ℕ) → vacant (update pc i p' j) ≡ true
      → m'.locked ≡ 0
  Move-empty Move.call_lock e j h = ground (arith, empty j)
  Move-empty mv e j h =
      ground (arith, premise mv, empty j, empty i, alone i j, single i j, locked i)

  Move-owner :
      {p p' : Pc} {m' : Shared}
      → Move i m p m' p'
      → pc i ≡ p
      → (j : ℕ) → owns (update pc i p' j) ≡ true
      → m'.owner_id ≡ some j
  Move-owner Move.call_lock e j h = ground (arith, owner j)
  Move-owner mv e j h = ground (arith, owner j, owner i, single i j, locked j, empty i)

  pub Move-Inv : {p p' : Pc} {m' : Shared} → Move i m p m' p' → pc i ≡ p → Inv m' (update pc i p')
  Move-Inv mv e = record {
    guarded = Move-guarded mv e;
    alone = Move-alone mv e;
    locked = Move-locked mv e;
    single = Move-single mv e;
    empty = Move-empty mv e;
    owner = Move-owner mv e;
  }

Step-Inv : {s t : System} → Step s t → Inv s.shared s.pc → Inv t.shared t.pc
Step-Inv (pick i mv) inv = Move-Inv inv i mv refl

Inv-start : (m : Shared) → Inv (mutex_init m) (λ _. Pc.outside)
Inv-start m = record {
  guarded = λ j h. ground arith;
  alone = λ j k h h'. ground arith;
  locked = λ j h. ground arith;
  single = λ j k h h'. ground arith;
  empty = λ j h. ground arith;
  owner = λ j h. ground arith;
}

pub Reach-Inv : {m : Shared} {s : System} → Reach m s → Inv s.shared s.pc
Reach-Inv {m} start = Inv-start m
Reach-Inv (later r st) = Step-Inv st (Reach-Inv r)

-- In every state that the tasks can reach from an initialised mutex, at most one of them is between
-- the store of `owner_id` in `mutex_lock` and the reset of `locked` in `mutex_unlock`, and then
-- `locked` is 1 and `owner_id` names it; and at most one task is inside the guard.
pub mutex_exclusion :
    {m : Shared} {s : System}
    → Reach m s
    → ((j k : ℕ) → owns (s.pc j) ≡ true → owns (s.pc k) ≡ true → j ≡ k)
      × ((j : ℕ) → owns (s.pc j) ≡ true → (s.shared.locked ≡ 1) × (s.shared.owner_id ≡ some j))
      × ((j k : ℕ) → in_guard (s.pc j) ≡ true → in_guard (s.pc k) ≡ true → j ≡ k)
mutex_exclusion {s} r =
    let inv = Reach-Inv r in
    (
      λ j k h h'. inv.single j k (owns-holds (s.pc j) h) (owns-holds (s.pc k) h'),
      λ j h. (inv.locked j (owns-holds (s.pc j) h), inv.owner j h),
      inv.alone,
    )
  where
    owns-holds : (p : Pc) → owns p ≡ true → holds p ≡ true
    owns-holds p h = ground arith
