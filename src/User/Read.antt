-- ===== src/User/Read.antt =====
-- `sys_read`: one character, as the program sees it.
use riscvkernel_hit.Base.{ℕ, ◌+◌, ◌*◌, ◌^◌, ◌≤◌, ◌<◌, ◌≡◌, ◌≢◌, ◌⊎◌, ◌∙◌, List, ◌∷◌, arith}
use riscvkernel_hit.Memory.Defs.{Mem, read64}
use riscvkernel_hit.Memory.Laws.{read64_ext, write64-outside}
use riscvkernel_hit.Kernel.Defs.{Kernel, Layout, Csrs, Run, ok}
use riscvkernel_hit.Exec.Elf.{Image}
use riscvkernel_hit.Trap.Read.{as_line, do_sys_read-one}
use riscvkernel_hit.Entry.Defs.{Hart, reg_a0, reg_a1, reg_a2, reg_a7, frame_of, entered, to_user}
use riscvkernel_hit.Entry.Trap.{IsHart, frame_top, save_frame-regs, save_frame-outside, resumed}
use riscvkernel_hit.User.Defs.{Text, mv, behind_ecall, sys_read_number, sys_read}
use riscvkernel_hit.User.Calls.{read_call, mv-IsHart, at-IsHart, ecall-Resumed}

-- The call returns 1, the character lies at the physical address `buf`, and the program keeps all
-- registers but those of the call.
pub record ReadOne (u : Hart) (s : Kernel) (buf c : ℕ) (rest : List ℕ) (r : Run Hart) : Type 0 where
  pub u' : Hart
  pub mem' : Mem
  pub csrs' : Csrs
  pub returns : r ≡ ok u' (record s { mem = mem'; csrs = csrs'; received = rest })
  pub result : u'.regs reg_a0 ≡ 1
  pub stored : mem' buf ≡ as_line c
  pub stack : u'.mscratch ≡ u.mscratch
  pub regs :
      (k : ℕ) → 0 < k → k < 32 → (k < reg_a0) ⊎ (reg_a2 < k) → k ≢ reg_a7 → u'.regs k ≡ u.regs k
  pub same : (b : ℕ) → b ≢ buf → (b < frame_of u) ⊎ (u.mscratch ≤ b) → mem' b ≡ s.mem b

module _ (l : Layout) (app : Image) (text : Text) (small : text.read_ecall < 2 ^ 64) where
  -- `sys_read` on descriptor 0, with a positive count, a buffer other than null outside the frame
  -- of the call, and a character to come, returns 1 whatever the count: it has taken that one
  -- character from the line and stored it at the physical address with the number of the buffer.
  -- The program keeps all its registers but `a0`, `a1`, `a2` and `a7`, and no memory changes
  -- outside the frame but that byte.
  pub sys_read-ReadOne :
      (buf count c : ℕ) (rest : List ℕ) (u : Hart) (s : Kernel)
      → 0 < buf
      → buf < 2 ^ 64
      → 0 < count
      → count < 2 ^ 64
      → s.received ≡ c ∷ rest
      → (buf < frame_of u) ⊎ (u.mscratch ≤ buf)
      → IsHart u
      → ReadOne u s buf c rest (sys_read l app text 0 buf count u s)
  unfolding sys_read
  sys_read-ReadOne buf count c rest u s live fits some_count fits' line out h =
      let at : ℕ = text.read_ecall in
      let u₁ : Hart = mv reg_a7 sys_read_number u in
      let u₂ : Hart = mv reg_a0 0 u₁ in
      let u₃ : Hart = mv reg_a1 buf u₂ in
      let v : Hart = mv reg_a2 count u₃ in
      let hv : IsHart v = mv-IsHart l app reg_a2 count u₃ fits' (
        mv-IsHart l app reg_a1 buf u₂ fits (
          mv-IsHart l app reg_a0 0 u₁ (omega arith)
            (mv-IsHart l app reg_a7 sys_read_number u (omega arith) h))) in
      let w : Hart = record v { pc = at } in
      let hw = at-IsHart l app at v small hv in
      let s₁ : Kernel = entered w s in
      let tf : ℕ = frame_of u in
      let top = frame_top u h in
      let counted : read64 s₁.mem (tf + 12 * 8) ≡ count =
        save_frame-regs w s.mem hw reg_a2 (omega arith) (omega arith) in
      let (m, reads, byte, one, kept) =
        do_sys_read-one s₁ 0 buf at tf c rest (omega arith) (omega arith) (omega (arith, counted))
          line (ground (arith, out, top)) in
      let s' : Kernel = record s₁ { mem = m; received = rest } in
      let (u', e, r) =
        ecall-Resumed l app at v s s' small hv (read_call l app at 0 buf tf s₁ ∙ reads) in
      let word_kept : (k : ℕ)
          → 0 < k
          → k < 32
          → k ≢ reg_a0
          → read64 m (tf + 8 * k) ≡ read64 s₁.mem (tf + 8 * k) =
        λ k pos low ne.
          let near : (i : ℕ) → i < 8 → m (tf + 8 * k + i) ≡ s₁.mem (tf + 8 * k + i) =
            λ i lt. kept (tf + 8 * k + i) (omega (arith, out, top)) (omega (arith, ne)) in
          read64_ext s₁.mem m (tf + 8 * k) near
            (kept (tf + 8 * k) (omega (arith, out, top)) (omega (arith, ne))) in
      record {
        u' = u';
        mem' = (resumed v (behind_ecall at) s').mem;
        csrs' = to_user s.csrs;
        returns = e;
        result = r.regs reg_a0 (omega arith) (omega arith) ∙ one;
        stored = write64-outside m (tf + 0) (behind_ecall at) buf (ground (arith, out, top)) ∙ byte;
        stack = r.stack;
        regs = λ k pos low apart ne.
            let other : k ≢ reg_a0 = omega (arith, apart) in
            r.regs k pos low
            ∙ word_kept k pos low other
            ∙ save_frame-regs w s.mem hw k pos low
            ∙ ground (arith, apart, ne);
        same = λ b ne far.
            write64-outside m (tf + 0) (behind_ecall at) b (ground (arith, far, top))
            ∙ kept b ne (ground (arith, far, top))
            ∙ save_frame-outside w s.mem hw b far;
      }
