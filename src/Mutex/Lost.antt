-- ===== src/Mutex/Lost.antt =====
-- A wake-up that is lost: an unlock between the release of the guard and the sleep of `mutex_lock`.
use riscvkernel_hit.Base.{
  ℕ, ◌≡◌, ◌≢◌, refl, ap, sym, ◌∙◌, Option, none, some, true, false, arith, update, inl, inr,
  Bool-cases, ◌==◌,
}
use riscvkernel_hit.Sched.Defs.{TaskState}
use riscvkernel_hit.Mutex.Defs.{
  Shared, Pc, Move, System, pick, Reach, start, later, mutex_init, wake,
}

-- Moves of one task alone.
infixr 4 ◌▹◌
data Solo (i : ℕ) : Shared → Pc → Shared → Pc → Type 0 where
  done : {m : Shared} {p : Pc} → Solo i m p m p
  ◌▹◌ :
      {m m' m'' : Shared} {p p' p'' : Pc}
      → Move i m p m' p'
      → Solo i m' p' m'' p''
      → Solo i m p m'' p''

-- A reachable system with this shared part, where task `i` stands at `p` and the others as before.
record Reached (m₀ : Shared) (pc : ℕ → Pc) (i : ℕ) (m : Shared) (p : Pc) : Type 0 where
  system : System
  reach : Reach m₀ system
  shared : system.shared ≡ m
  here : system.pc i ≡ p
  others : (k : ℕ) → k ≢ i → system.pc k ≡ pc k

Move-Reach :
    (i : ℕ) {m₀ m m' : Shared} {p p' : Pc} (s : System)
    → Reach m₀ s
    → s.shared ≡ m
    → s.pc i ≡ p
    → Move i m p m' p'
    → Reach m₀ (record { shared = m'; pc = update s.pc i p' })
Move-Reach i s r e at mv = later r (pick i (rw (e, at) mv))

Solo-Reached :
    (i : ℕ) {m₀ m m' : Shared} {p p' : Pc} (s : System)
    → Reach m₀ s
    → s.shared ≡ m
    → s.pc i ≡ p
    → Solo i m p m' p'
    → Reached m₀ s.pc i m' p'
Solo-Reached i s r e at done = record {
  system = s;
  reach = r;
  shared = e;
  here = at;
  others = λ k ne. refl;
}
Solo-Reached i s r e at (mv ▹ rest) =
    let end = Solo-Reached i _ (Move-Reach i s r e at mv) refl (ground arith) rest in
    record {
      system = end.system;
      reach = end.reach;
      shared = end.shared;
      here = end.here;
      others = λ k ne. end.others k ne ∙ ground (arith, ne);
    }

abbrev at : ℕ → Option ℕ → (ℕ → TaskState) → Shared
at locked owner_id states = record {
  locked = locked;
  guard = 0;
  owner_id = owner_id;
  states = states;
}

abbrev wake_at : ℕ → (ℕ → TaskState) → ℕ → TaskState
wake_at k states = update states k (wake (states k))

module _ (i j : ℕ) (states : ℕ → TaskState) where
  lock_free : Solo j (at 0 none states) Pc.outside (at 1 (some j) states) Pc.holding
  lock_free =
      Move.call_lock
      ▹ Move.lock_swap refl
      ▹ Move.test_free refl
      ▹ Move.take
      ▹ Move.name
      ▹ Move.enter
      ▹ done

  lock_taken : Solo i (at 1 (some j) states) Pc.outside (at 1 (some j) states) Pc.dozing
  lock_taken =
      Move.call_lock ▹ Move.lock_swap refl ▹ Move.test_taken (omega arith) ▹ Move.give_up ▹ done

  unlock :
      Solo j
        (at 1 (some j) states)
        Pc.holding
        (at 0 none (wake_at 3 (wake_at 2 (wake_at 1 (wake_at 0 states)))))
        Pc.outside
  unlock =
      Move.call_unlock
      ▹ Move.unlock_swap refl
      ▹ Move.clear
      ▹ Move.unname
      ▹ Move.wake_one (omega arith)
      ▹ Move.wake_one (omega arith)
      ▹ Move.wake_one (omega arith)
      ▹ Move.wake_one (omega arith)
      ▹ Move.wake_end (omega arith)
      ▹ Move.leave
      ▹ done

  sleep :
      Solo i (at 0 none states) Pc.dozing (at 0 none (update states i TaskState.sleeping)) Pc.asleep
  sleep = Move.doze ▹ done

-- A task that sleeps makes no step of its own.
asleep-stuck :
    (i : ℕ) (m m' : Shared) (p : Pc) → m.states i ≡ TaskState.sleeping → Move i m Pc.asleep m' p → ⊥
asleep-stuck i m m' p sleeps (Move.resume awake) = let bad : true ≡ false = rw sleeps at awake in cc

-- For any two tasks there is a run in which the one unlocks the mutex while the other, which was
-- refused, is about to sleep: at its end the mutex is free, no task but the sleeper uses it, and the
-- sleeper is asleep and makes no step of its own.
pub mutex_lost_wakeup :
    (m : Shared) (i j : ℕ)
    → i ≢ j
    → (t : System) × Reach m t
      × (t.shared.locked ≡ 0)
      × (t.pc i ≡ Pc.asleep)
      × ((k : ℕ) → k ≢ i → t.pc k ≡ Pc.outside)
      × ((m' : Shared) (p : Pc) → Move i t.shared (t.pc i) m' p → ⊥)
unfolding mutex_init
mutex_lost_wakeup m i j apart =
    let a =
      Solo-Reached j (record { shared = mutex_init m; pc = λ _. Pc.outside }) start refl refl
        (lock_free i j m.states) in
    let b = Solo-Reached i a.system a.reach a.shared (a.others i apart) (lock_taken i j m.states) in
    let c =
      Solo-Reached j b.system b.reach b.shared (b.others j (λ e. apart (sym e)) ∙ a.here)
        (unlock i j m.states) in
    let d =
      Solo-Reached i c.system c.reach c.shared (c.others i apart ∙ b.here)
        (sleep i j (wake_at 3 (wake_at 2 (wake_at 1 (wake_at 0 m.states))))) in
    (
      d.system,
      d.reach,
      ap (λ x. x.locked) d.shared,
      d.here,
      λ k ne. d.others k ne ∙ elim (Bool-cases (k == j)) [
        | inl same ↦ let e : k ≡ j = ground arith in rw e c.here
        | inr more ↦
            let ne' : k ≢ j = ground arith in c.others k ne' ∙ b.others k ne ∙ a.others k ne'
      ],
      λ m' p mv.
          asleep-stuck i d.system.shared m' p (ap (λ x. x.states i) d.shared ∙ ground arith)
            (rw d.here at mv),
    )
