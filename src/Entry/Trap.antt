-- ===== src/Entry/Trap.antt =====
-- A trap from the program's side: what the frame holds, and what comes back.
use riscvkernel_hit.Base.{
  ℕ, ◌+◌, ◌*◌, ◌^◌, ◌≤◌, ◌<◌, ◌≡◌, ◌≢◌, ◌⊎◌, inl, inr, refl, ◌∙◌, [], ◌∷◌, true, ◌==◌, arith, leb,
  has, has-append, All, Bool-cases,
}
use riscvkernel_hit.Memory.Defs.{Mem, read64, write64}
use riscvkernel_hit.Memory.Laws.{read64-write64_self, read64-write64_apart, write64-outside}
use riscvkernel_hit.Kernel.Defs.{Kernel, Layout, ok}
use riscvkernel_hit.Mmu.Defs.{load64, store64}
use riscvkernel_hit.Task.Frame.{trapframe_size, tf_epc, tf_user_sp}
use riscvkernel_hit.Exec.Elf.{Image}
use riscvkernel_hit.Trap.Defs.{trap_handler}
use riscvkernel_hit.Entry.Defs.{
  Hart, reg_sp, reg_a0, reg_a1, reg_a7, stored_regs, loaded_regs, save_words, frame_of, save_frame,
  entered, load_frame, to_user, trap_return, trap_vector, count_from,
}
use riscvkernel_hit.Entry.Words.{has-count_from, save_words-outside, save_words_lem, load_words_lem}

-- A program whose registers are words, and for whose frame there is room below `mscratch`.
pub record IsHart (u : Hart) : Type 0 where
  pub room : trapframe_size ≤ u.mscratch
  pub top : u.mscratch < 2 ^ 64
  pub pc_word : u.pc < 2 ^ 64
  pub words : (k : ℕ) → 0 < k → k < 32 → u.regs k < 2 ^ 64

pub frame_top : (u : Hart) → IsHart u → frame_of u + trapframe_size ≡ u.mscratch
frame_top u h = omega (arith, h.room, h.top)

stored_regs-all : (k : ℕ) → 0 < k → k < 32 → k ≢ 2 → has k stored_regs ≡ true
stored_regs-all k pos low ne = elim (Bool-cases (k == 1)) [
  | inl one ↦ ground (arith, one)
  | inr other ↦
      let ne' : k ≢ 1 = ground (arith, other) in
      ground (arith, has-count_from 29 3 k (omega (arith, ne')) (omega arith))
]

loaded_regs-all : (k : ℕ) → 0 < k → k < 32 → k ≢ 2 → has k loaded_regs ≡ true
loaded_regs-all k pos low ne =
    let split = has-append k (count_from 25 7) (5 ∷ 6 ∷ []) in
    elim (Bool-cases (leb 7 k)) [
      | inl hi ↦ ground (arith, split, has-count_from 25 7 k (ground (arith, hi)) (omega arith))
      | inr lo ↦
          let few : (k ≡ 1) ⊎ ((k ≡ 3) ⊎ ((k ≡ 4) ⊎ ((k ≡ 5) ⊎ (k ≡ 6)))) =
            ground (arith, lo, ne) in
          ground (arith, split, few)
    ]

stored_regs-small : All (λ k. k < 32) stored_regs
unfolding count_from
stored_regs-small = omega arith

module _ (u : Hart) (m : Mem) (h : IsHart u) where
  pub save_frame-regs :
      (k : ℕ) → 0 < k → k < 32 → read64 (save_frame u m) (frame_of u + 8 * k) ≡ u.regs k
  unfolding save_frame
  save_frame-regs k pos low =
      let sp : ℕ = frame_of u in
      let m₁ : Mem = save_words stored_regs u.regs sp m in
      let m₂ : Mem = write64 m₁ (sp + tf_epc) u.pc in
      elim (Bool-cases (k == 2)) [
        | inl stack ↦
            let e : k ≡ 2 = ground (arith, stack) in
            rw e (
              read64-write64_self m₂ (sp + tf_user_sp) (u.regs reg_sp)
                (h.words 2 (omega arith) (omega arith)))
        | inr other ↦
            let ne : k ≢ 2 = ground (arith, other) in
            read64-write64_apart m₂ (sp + tf_user_sp) (u.regs reg_sp) (sp + 8 * k)
              (omega (arith, ne))
            ∙ read64-write64_apart m₁ (sp + tf_epc) u.pc (sp + 8 * k) (omega arith)
            ∙ save_words_lem stored_regs u.regs sp m k (h.words k pos low)
                (stored_regs-all k pos low ne)
      ]

  pub save_frame-outside : (b : ℕ) → (b < frame_of u) ⊎ (u.mscratch ≤ b) → save_frame u m b ≡ m b
  unfolding save_frame
  save_frame-outside b out =
      let sp : ℕ = frame_of u in
      let top = frame_top u h in
      let m₁ : Mem = save_words stored_regs u.regs sp m in
      let m₂ : Mem = write64 m₁ (sp + tf_epc) u.pc in
      let apart : (b < sp) ⊎ (sp + 256 ≤ b) = ground (arith, out, top) in
      write64-outside m₂ (sp + tf_user_sp) (u.regs reg_sp) b (omega (arith, apart))
      ∙ write64-outside m₁ (sp + tf_epc) u.pc b (omega (arith, apart))
      ∙ save_words-outside stored_regs u.regs sp m b stored_regs-small apart

-- The registers that come back are the words of the frame.
pub load_frame-regs :
    (tf : ℕ) (m : Mem) (k : ℕ) → 0 < k → k < 32 → (load_frame tf m).regs k ≡ read64 m (tf + 8 * k)
unfolding load_frame
load_frame-regs tf m k pos low = elim (Bool-cases (k == 2)) [
  | inl stack ↦ let e : k ≡ 2 = ground (arith, stack) in rw e refl
  | inr other ↦
      let ne : k ≢ 2 = ground (arith, other) in
      ground (arith, ne, load_words_lem loaded_regs tf m (λ _. 0) k (loaded_regs-all k pos low ne))
]

-- What a program finds when the handler has returned `epc`, and left `s'`.
pub record Resumed (u : Hart) (epc : ℕ) (m : Mem) (u' : Hart) : Type 0 where
  pub pc : u'.pc ≡ epc
  pub stack : u'.mscratch ≡ u.mscratch
  pub regs : (k : ℕ) → 0 < k → k < 32 → u'.regs k ≡ read64 m (frame_of u + 8 * k)

-- The kernel behind `mret`, for one whose handler returned `epc`.
abbrev pub resumed : Hart → ℕ → Kernel → Kernel
resumed u epc s = record s { mem = write64 s.mem (frame_of u + tf_epc) epc; csrs = to_user s.csrs }

-- A trap whose handler returns comes back to the program at the address that the handler returned,
-- with the registers that its frame then holds; the handler saw the program's.
pub trap_vector-Resumed :
    (l : Layout) (app : Image) (cause tval epc : ℕ) (u : Hart) (s s' : Kernel)
    → IsHart u
    → epc < 2 ^ 64
    → trap_handler l app cause u.pc tval
        (u.regs reg_a0)
        (u.regs reg_a1)
        (u.regs reg_a7)
        (frame_of u)
        (entered u s)
      ≡ ok epc s'
    → (u' : Hart) × (trap_vector l app cause tval u s ≡ ok u' (resumed u epc s'))
      × Resumed u epc s'.mem u'
unfolding trap_vector trap_return load64 store64
trap_vector-Resumed l app cause tval epc u s s' h small handled =
    let tf : ℕ = frame_of u in
    let m' : Mem = write64 s'.mem (tf + tf_epc) epc in
    let arg0 = save_frame-regs u s.mem h reg_a0 (omega arith) (omega arith) in
    let arg1 = save_frame-regs u s.mem h reg_a1 (omega arith) (omega arith) in
    let number = save_frame-regs u s.mem h reg_a7 (omega arith) (omega arith) in
    (
      load_frame tf m',
      rw (arg0, arg1, number) (rw handled refl),
      record {
        pc = unfold load_frame in read64-write64_self s'.mem (tf + tf_epc) epc small;
        stack = unfold load_frame in omega (arith, frame_top u h, h.top);
        regs = λ k pos low.
            load_frame-regs tf m' k pos low
            ∙ read64-write64_apart s'.mem (tf + tf_epc) epc (tf + 8 * k) (omega arith);
      },
    )
