-- ===== src/Task/Slots.antt =====
-- `alloc_task_slot`: the first slot that is free.
use riscvkernel_hit.Base.{
  ℕ, zero, suc, ◌+◌, ◌≤◌, ◌<◌, ◌≡◌, inl, inr, Option, none, some, true, false, ◌==◌, arith,
  Bool-cases,
}
use riscvkernel_hit.Sched.Defs.{TaskState, max_tasks}
use riscvkernel_hit.Kernel.Defs.{Kernel}
use riscvkernel_hit.Task.Defs.{is_dead, slot_loop, alloc_task_slot}

-- The first dead task from `i` on, of `left` tasks.
abbrev pub IsFirstDead : (ℕ → TaskState) → ℕ → ℕ → Option ℕ → Type 0
IsFirstDead states i left none = (j : ℕ) → i ≤ j → j < i + left → is_dead (states j) ≡ false
IsFirstDead states i left (some id) =
    (i ≤ id)
    × (id < i + left)
    × (is_dead (states id) ≡ true)
    × ((j : ℕ) → i ≤ j → j < id → is_dead (states j) ≡ false)

slot_loop-IsFirstDead :
    (left i : ℕ) (states : ℕ → TaskState) → IsFirstDead states i left (slot_loop left i states)
unfolding slot_loop
slot_loop-IsFirstDead zero i states = λ j lo hi. absurd (omega arith)
slot_loop-IsFirstDead (suc left) i states = elim (Bool-cases (is_dead (states i))) [
  | inl here ↦ rw here (omega arith, omega arith, here, λ j lo hi. absurd (omega arith))
  | inr live ↦
      rw live
        (more (slot_loop left (i + 1) states) live (slot_loop-IsFirstDead left (i + 1) states))
]
  where
    before :
        (j : ℕ)
        → is_dead (states i) ≡ false
        → i ≤ j
        → ((i + 1 ≤ j) → is_dead (states j) ≡ false)
        → is_dead (states j) ≡ false
    before j live lo h = elim (Bool-cases (j == i)) [
      | inl e ↦ let at : j ≡ i = ground (arith, e) in rw at live
      | inr ne ↦ h (ground (arith, ne))
    ]

    more :
        (found : Option ℕ)
        → is_dead (states i) ≡ false
        → IsFirstDead states (i + 1) left found
        → IsFirstDead states i (suc left) found
    more none live h = λ j lo hi. before j live lo (λ lo'. h j lo' (omega arith))
    more (some id) live (lo, hi, dead, others) =
        (omega arith, omega arith, dead, λ j lo' hi'. before j live lo' (λ lo''. others j lo'' hi'))

pub alloc_task_slot-IsFirstDead :
    (s : Kernel) → IsFirstDead s.sched.task_states 0 max_tasks (alloc_task_slot s)
unfolding alloc_task_slot
alloc_task_slot-IsFirstDead s = slot_loop-IsFirstDead max_tasks 0 s.sched.task_states
