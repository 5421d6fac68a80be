-- ===== src/Task/Start.antt =====
-- `init_user_frame`: the registers with which a new process starts.
use riscvkernel_hit.Base.{
  ℕ, zero, suc, ◌+◌, ◌*◌, ◌^◌, ◌≤◌, ◌<◌, ◌≡◌, ◌≢◌, ◌⊎◌, inl, inr, refl, ◌∙◌, ◌==◌, arith,
  Bool-cases, if◌then◌else◌,
}
use riscvkernel_hit.Memory.Defs.{Mem, read64, write64}
use riscvkernel_hit.Memory.Laws.{
  read64_ext, write64-outside, read64-write64_self, read64-write64_apart,
}
use riscvkernel_hit.Kernel.Defs.{Kernel, Layout, ok, set_task}
use riscvkernel_hit.Page.Alloc.{SameOutside}
use riscvkernel_hit.Mmu.Defs.{store64}
use riscvkernel_hit.Task.Frame.{tf_epc, tf_user_sp, clear_words, trapframe_clear, task_trap_frame}
use riscvkernel_hit.Task.Process.{user_stack_top, bind_task_frame, init_user_frame}

clear_words-outside :
    (left i tf : ℕ) (m : Mem) (b : ℕ)
    → (b < tf + 8 * i) ⊎ (tf + 8 * (i + left) ≤ b)
    → clear_words left i tf m b ≡ m b
unfolding clear_words
clear_words-outside zero i tf m b h = refl
clear_words-outside (suc left) i tf m b h =
    clear_words-outside left (i + 1) tf (write64 m (tf + 8 * i) 0) b (ground arith)
    ∙ write64-outside m (tf + 8 * i) 0 b (ground arith)

first_cleared : (left i tf : ℕ) (m : Mem) → read64 (clear_words (suc left) i tf m) (tf + 8 * i) ≡ 0
unfolding clear_words
first_cleared left i tf m =
    let m' : Mem = write64 m (tf + 8 * i) 0 in
    read64_ext m' (clear_words left (i + 1) tf m') (tf + 8 * i)
      (λ j low. clear_words-outside left (i + 1) tf m' (tf + 8 * i + j) (inl (omega arith)))
      (clear_words-outside left (i + 1) tf m' (tf + 8 * i) (inl (omega arith)))
    ∙ read64-write64_self m (tf + 8 * i) 0 (omega arith)

clear_words_lem :
    (left i tf : ℕ) (m : Mem) (k : ℕ)
    → i ≤ k
    → k < i + left
    → read64 (clear_words left i tf m) (tf + 8 * k) ≡ 0
unfolding clear_words
clear_words_lem zero i tf m k lo hi = absurd (omega arith)
clear_words_lem (suc left) i tf m k lo hi = elim (Bool-cases (k == i)) [
  | inl here ↦ let e : k ≡ i = ground arith in rw e (first_cleared left i tf m)
  | inr other ↦
      let ne : k ≢ i = ground arith in
      clear_words_lem left (i + 1) tf (write64 m (tf + 8 * i) 0) k (omega (arith, ne)) (omega arith)
]

-- The words of the frame: the program counter in word 0, the stack pointer in word 2.
abbrev pub start_word : ℕ → ℕ → ℕ
start_word entry k = if k == 0 then entry else if k == 2 then user_stack_top else 0

-- The kernel when `init_user_frame` returns.
pub record Framed (l : Layout) (s : Kernel) (id entry : ℕ) : Type 0 where
  pub mem' : Mem
  pub returns :
      init_user_frame l id entry s
      ≡ ok tt (
          set_task id
            (record (s.tasks id) { ra = l.trap_return; sp = task_trap_frame l id })
            (record s { mem = mem' }))
  pub words : (k : ℕ) → k < 32 → read64 mem' (task_trap_frame l id + 8 * k) ≡ start_word entry k
  pub same : SameOutside (task_trap_frame l id) 256 s.mem mem'

pub init_user_frame-Framed :
    (l : Layout) (s : Kernel) (id entry : ℕ) → entry < 2 ^ 64 → Framed l s id entry
unfolding init_user_frame trapframe_clear bind_task_frame store64
init_user_frame-Framed l s id entry small =
    let tf : ℕ = task_trap_frame l id in
    let m₁ : Mem = clear_words 32 0 tf s.mem in
    let m₂ : Mem = write64 m₁ (tf + tf_epc) entry in
    record {
      mem' = write64 m₂ (tf + tf_user_sp) user_stack_top;
      returns = refl;
      words = λ k low. elim (Bool-cases (k == 2)) [
        | inl two ↦
            let e : k ≡ 2 = ground arith in
            rw e (read64-write64_self m₂ (tf + 16) user_stack_top (omega arith))
        | inr more ↦
            let ne : k ≢ 2 = ground arith in
            read64-write64_apart m₂ (tf + 16) user_stack_top (tf + 8 * k) (omega (arith, ne))
            ∙ elim (Bool-cases (k == 0)) [
              | inl none_left ↦
                  let e : k ≡ 0 = ground arith in rw e (read64-write64_self m₁ (tf + 0) entry small)
              | inr later ↦
                  let ne' : k ≢ 0 = ground arith in
                  read64-write64_apart m₁ (tf + 0) entry (tf + 8 * k) (omega (arith, ne'))
                  ∙ clear_words_lem 32 0 tf s.mem k (omega arith) low
                  ∙ (rw (later, more) refl)
            ]
      ];
      same = λ b h.
          write64-outside m₂ (tf + 16) user_stack_top b (ground (arith, h))
          ∙ write64-outside m₁ (tf + 0) entry b (ground (arith, h))
          ∙ clear_words-outside 32 0 tf s.mem b (ground (arith, h));
    }
