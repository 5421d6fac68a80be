-- ===== src/Entry/Stacks.antt =====
-- The frame of a trap lies on the kernel stack of the task, apart from those of the others.
use riscvkernel_hit.Base.{
  ℕ, ◌+◌, ◌-◌, ◌*◌, ◌≤◌, ◌<◌, ◌≡◌, ◌≢◌, ◌⊎◌, inl, inr, arith, leb, ltb, Bool-cases,
}
use riscvkernel_hit.Memory.Defs.{Mem, read64}
use riscvkernel_hit.Memory.Laws.{read64_ext}
use riscvkernel_hit.Kernel.Defs.{Layout}
use riscvkernel_hit.Page.Defs.{page_size}
use riscvkernel_hit.Task.Frame.{trapframe_size, task_trap_frame}
use riscvkernel_hit.Entry.Defs.{Hart, frame_of, save_frame}
use riscvkernel_hit.Entry.Trap.{IsHart, frame_top, save_frame-outside}

-- The kernel stack of a task is a page of the array `task_kernel_stacks`.
abbrev pub stack_base : Layout → ℕ → ℕ
stack_base l id = l.task_kernel_stacks + id * page_size

abbrev pub InStack : Layout → ℕ → ℕ → Type 0
InStack l id b = (stack_base l id ≤ b) × (b < stack_base l id + page_size)

-- If `mscratch` is the top of the kernel stack of task `id`, then the frame of a trap is the frame
-- that the kernel's C code takes for that task; the stores of `trap_vector` write no byte outside
-- that stack; and the frames of all other tasks keep their words.
pub save_frame-InStack :
    (l : Layout) (id : ℕ) (u : Hart) (m : Mem)
    → IsHart u
    → u.mscratch ≡ stack_base l id + page_size
    → (frame_of u ≡ task_trap_frame l id)
      × ((b : ℕ) → save_frame u m b ≢ m b → InStack l id b)
      × ((j k : ℕ)
          → j ≢ id
          → k < 32
          → read64 (save_frame u m) (task_trap_frame l j + 8 * k)
            ≡ read64 m (task_trap_frame l j + 8 * k))
unfolding task_trap_frame
save_frame-InStack l id u m h top =
    let below = frame_top u h in
    let tf : ℕ = frame_of u in
    let here : tf ≡ stack_base l id + (page_size - trapframe_size) = omega (arith, below, top) in
    let outside = save_frame-outside u m h in
    (
      here,
      λ b ne. elim (Bool-cases (leb tf b)) [
        | inl lo ↦ elim (Bool-cases (ltb b u.mscratch)) [
          | inl hi ↦ ground (arith, lo, hi, here, top)
          | inr hi ↦ absurd (ne (outside b (ground (arith, hi))))
        ]
        | inr lo ↦ absurd (ne (outside b (ground (arith, lo))))
      ],
      λ j k ne small.
          let at : ℕ = task_trap_frame l j + 8 * k in
          let apart : (at + 8 ≤ tf) ⊎ (u.mscratch ≤ at) = omega (arith, here, top, ne) in
          read64_ext m (save_frame u m) at (λ i lt. outside (at + i) (ground (arith, apart)))
            (outside at (ground (arith, apart))),
    )
