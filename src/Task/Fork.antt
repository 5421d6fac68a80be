-- ===== src/Task/Fork.antt =====
-- `task_fork` once the address space is copied: the child's registers and its place in the tables.
use riscvkernel_hit.Base.{
  ℕ, ◌+◌, ◌*◌, ◌%◌, ◌^◌, ◌≤◌, ◌<◌, ◌≡◌, ◌≢◌, ◌⊎◌, inl, inr, refl, ◌∙◌, some, ◌==◌, arith,
  Bool-cases, if◌then◌else◌,
}
use riscvkernel_hit.Memory.Defs.{Mem, read64, write64}
use riscvkernel_hit.Memory.Laws.{
  IsBytes, write64-outside, read64-write64_self, read64-write64_apart,
}
use riscvkernel_hit.Sched.Defs.{TaskState}
use riscvkernel_hit.Kernel.Defs.{Kernel, Layout, ok, current}
use riscvkernel_hit.Mmu.Pte.{pte_to_pa, mmu_make_satp}
use riscvkernel_hit.Mmu.Defs.{load64, store64}
use riscvkernel_hit.Task.Frame.{
  tf_epc, tf_a0, trapframe_words, copy_words, trapframe_copy, task_trap_frame,
}
use riscvkernel_hit.Task.Defs.{context_copy}
use riscvkernel_hit.Task.Process.{bind_task_frame, bind_task_page_table, fork_child}
use riscvkernel_hit.Task.Copy.{FramesApart, copy_words-outside, copy_words_lem}

-- The words of the child's frame: the parent's, but the program counter behind the `ecall` of
-- `epc`, and 0 as the result of the call.
abbrev pub child_word : Mem → ℕ → ℕ → ℕ → ℕ
child_word m parent_tf epc k =
    if k == 0 then (epc + 4) % 2 ^ 64 else if k == 10 then 0 else read64 m (parent_tf + 8 * k)

-- The kernel `s'` after the child `id` was made in `s`.
pub record Forked (l : Layout) (s : Kernel) (parent_tf epc id pgd stack_pte : ℕ) (s' : Kernel)
    : Type 0 where
  pub words :
      (k : ℕ)
      → k < 32
      → read64 s'.mem (task_trap_frame l id + 8 * k) ≡ child_word s.mem parent_tf epc k
  pub outside :
      (b : ℕ) → (b < task_trap_frame l id) ⊎ (task_trap_frame l id + 256 ≤ b) → s'.mem b ≡ s.mem b
  pub resumes : (s'.tasks id).ra ≡ l.trap_return
  pub stack : (s'.tasks id).sp ≡ task_trap_frame l id
  pub space : (s'.tasks id).satp ≡ mmu_make_satp pgd
  pub user_stack : s'.task_user_stacks id ≡ pte_to_pa (read64 s'.mem stack_pte)
  pub is_ready : s'.sched.task_states id ≡ TaskState.ready
  pub other_tasks :
      (j : ℕ) → j ≢ id → (s'.tasks j ≡ s.tasks j) × (s'.sched.task_states j ≡ s.sched.task_states j)
  pub same_task : current s' ≡ current s
  pub same_pages : s'.free_list ≡ s.free_list

-- Memory after the stores of `task_fork`.
forked_mem : Mem → ℕ → ℕ → ℕ → Mem
forked_mem m child parent epc =
    let copied = copy_words trapframe_words 0 child parent m in
    write64 (write64 copied (child + tf_epc) ((epc + 4) % 2 ^ 64)) (child + tf_a0) 0

forked_mem-words :
    (m : Mem) (child parent epc k : ℕ)
    → IsBytes m
    → FramesApart child parent
    → k < 32
    → read64 (forked_mem m child parent epc) (child + 8 * k) ≡ child_word m parent epc k
unfolding forked_mem
forked_mem-words m child parent epc k bytes apart low =
    let copied : Mem = copy_words 32 0 child parent m in
    let e : ℕ = (epc + 4) % 2 ^ 64 in
    let counted : Mem = write64 copied (child + tf_epc) e in
    elim (Bool-cases (k == 0)) [
      | inl first ↦
          let at : k ≡ 0 = ground arith in
          rw at (
            read64-write64_apart counted (child + tf_a0) 0 (child + 8 * 0) (inl (omega arith))
            ∙ read64-write64_self copied (child + 8 * 0) e (omega arith))
      | inr later ↦ elim (Bool-cases (k == 10)) [
        | inl result ↦
            let at : k ≡ 10 = ground arith in
            rw at (read64-write64_self counted (child + 8 * 10) 0 (omega arith))
        | inr other ↦
            let away : (child + 8 * k + 8 ≤ child + tf_a0) ⊎ (child + tf_a0 + 8 ≤ child + 8 * k) =
              ground arith in
            rw (later, other)
              (read64-write64_apart counted (child + tf_a0) 0 (child + 8 * k) away
                ∙ (read64-write64_apart copied (child + tf_epc) e (child + 8 * k)
                      (inr (ground arith))
                    ∙ copy_words_lem 32 0 child parent m k bytes apart (omega arith) (omega arith)
                        (omega arith)))
      ]
    ]

forked_mem-outside :
    (m : Mem) (child parent epc b : ℕ)
    → (b < child) ⊎ (child + 256 ≤ b)
    → forked_mem m child parent epc b ≡ m b
unfolding forked_mem
forked_mem-outside m child parent epc b out =
    let copied : Mem = copy_words 32 0 child parent m in
    let e : ℕ = (epc + 4) % 2 ^ 64 in
    write64-outside (write64 copied (child + tf_epc) e) (child + tf_a0) 0 b (ground arith)
    ∙ (write64-outside copied (child + tf_epc) e b (ground arith)
        ∙ copy_words-outside 32 0 child parent m b (ground arith))

-- With a parent frame apart from the child's, `task_fork` that has copied the address space returns
-- the child's slot. The child's frame holds the parent's registers, but for the program counter
-- behind the `ecall` and the result 0; the child will start at `trap_return` on that frame and in
-- the copied space; its user stack is the page that the entry of its space names; it is ready; and
-- no byte outside its frame, no other task, not the current one and not the head of the free list
-- has changed.
pub fork_child-Forked :
    (l : Layout) (s : Kernel) (parent_tf epc id pgd stack_pte : ℕ)
    → IsBytes s.mem
    → FramesApart (task_trap_frame l id) parent_tf
    → (s' : Kernel) × (fork_child l parent_tf epc id pgd stack_pte s ≡ ok (some id) s')
      × Forked l s parent_tf epc id pgd stack_pte s'
unfolding fork_child trapframe_copy bind_task_frame bind_task_page_table load64 store64 context_copy
    forked_mem
fork_child-Forked l s parent_tf epc id pgd stack_pte bytes apart = (
  _,
  refl,
  record {
    words = λ k low. forked_mem-words s.mem (task_trap_frame l id) parent_tf epc k bytes apart low;
    outside = λ b out. forked_mem-outside s.mem (task_trap_frame l id) parent_tf epc b out;
    resumes = ground arith;
    stack = ground arith;
    space = ground arith;
    user_stack = ground arith;
    is_ready = ground arith;
    other_tasks = λ j ne. (ground (arith, ne), ground (arith, ne));
    same_task = refl;
    same_pages = refl;
  },
)
