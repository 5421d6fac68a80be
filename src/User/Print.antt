-- ===== src/User/Print.antt =====
-- `sys_print`: the text goes out on the line, call by call.
use riscvkernel_hit.Base.{
  ℕ, ◌+◌, ◌%◌, ◌^◌, ◌≤◌, ◌<◌, ◌≡◌, ◌≢◌, ◌⊎◌, refl, ◌∙◌, List, [], ◌∷◌, ◌++◌, arith, All,
}
use mathlib.Core.List.{append_assoc, append-nil}
use riscvkernel_hit.Memory.Defs.{Mem}
use riscvkernel_hit.Memory.Laws.{write64-outside}
use riscvkernel_hit.Kernel.Defs.{Kernel, Layout, Csrs, Run, ok}
use riscvkernel_hit.Exec.Elf.{Image}
use riscvkernel_hit.Trap.Defs.{do_sys_write}
use riscvkernel_hit.Entry.Defs.{Hart, reg_a0, reg_a7, frame_of, entered, to_user}
use riscvkernel_hit.Entry.Trap.{IsHart, frame_top, save_frame-regs, save_frame-outside, resumed}
use riscvkernel_hit.User.Defs.{Text, mv, behind_ecall, sys_write_number, sys_putchar, sys_print}
use riscvkernel_hit.User.Calls.{write_call, mv-IsHart, at-IsHart, ecall-Resumed}

-- The program goes on with its registers but for `a0` and `a7`, the line has the text, and no
-- memory has changed outside the program's frame.
pub record Printed (u : Hart) (s : Kernel) (sent : List ℕ) (r : Run Hart) : Type 0 where
  pub u' : Hart
  pub mem' : Mem
  pub csrs' : Csrs
  pub returns : r ≡ ok u' (record s { mem = mem'; csrs = csrs'; sent = s.sent ++ sent })
  pub stack : u'.mscratch ≡ u.mscratch
  pub regs : (k : ℕ) → 0 < k → k < 32 → k ≢ reg_a0 → k ≢ reg_a7 → u'.regs k ≡ u.regs k
  pub hart : IsHart u'
  pub same : (b : ℕ) → (b < frame_of u) ⊎ (u.mscratch ≤ b) → mem' b ≡ s.mem b

module _ (l : Layout) (app : Image) (text : Text) (small : text.putchar_ecall < 2 ^ 64) where
  sys_putchar-Printed :
      (c : ℕ) (u : Hart) (s : Kernel)
      → c < 2 ^ 8
      → IsHart u
      → Printed u s (c ∷ []) (sys_putchar l app text c u s)
  unfolding sys_putchar
  sys_putchar-Printed c u s byte h =
      let at : ℕ = text.putchar_ecall in
      let v : Hart = mv reg_a0 c (mv reg_a7 sys_write_number u) in
      let hv : IsHart v =
        mv-IsHart l app reg_a0 c (mv reg_a7 sys_write_number u) (omega arith)
          (mv-IsHart l app reg_a7 sys_write_number u (omega arith) h) in
      let w : Hart = record v { pc = at } in
      let hw = at-IsHart l app at v small hv in
      let s' : Kernel = record (entered w s) { sent = s.sent ++ c ∷ [] } in
      let low : c % 2 ^ 8 ≡ c = omega arith in
      let (u', e, r) = ecall-Resumed l app at v s s' small hv (
        write_call l app at c (v.regs 11) (frame_of u) (entered w s)
        ∙ unfold do_sys_write in rw low refl) in
      let same_reg : (k : ℕ) → 0 < k → k < 32 → u'.regs k ≡ v.regs k =
        λ k pos top. r.regs k pos top ∙ save_frame-regs w s.mem hw k pos top in
      record {
        u' = u';
        mem' = (resumed v (behind_ecall at) s').mem;
        csrs' = to_user s.csrs;
        returns = e;
        stack = r.stack;
        regs = λ k pos top ne₁ ne₂. same_reg k pos top ∙ ground (arith, ne₁, ne₂);
        hart = record {
          room = rw r.stack h.room;
          top = rw r.stack h.top;
          pc_word = rw r.pc (omega arith);
          words = λ k pos top. rw (same_reg k pos top) (hv.words k pos top);
        };
        same = λ b out.
            write64-outside s'.mem (frame_of u + 0) (behind_ecall at) b
              (ground (arith, out, frame_top u h))
            ∙ save_frame-outside w s.mem hw b out;
      }

  -- `sys_print` of a program whose kernel stack has room for a frame returns, and has sent the
  -- bytes of the text in order. The program keeps all its registers but `a0` and `a7`, and no
  -- memory changes outside the frame.
  pub sys_print-Printed :
      (cs : List ℕ) (u : Hart) (s : Kernel)
      → All (λ c. c < 2 ^ 8) cs
      → IsHart u
      → Printed u s cs (sys_print l app text cs u s)
  unfolding sys_print
  sys_print-Printed [] u s bytes h = record {
    u' = u;
    mem' = s.mem;
    csrs' = s.csrs;
    returns = rw (append-nil s.sent) refl;
    stack = refl;
    regs = λ k pos top ne₁ ne₂. refl;
    hart = h;
    same = λ b out. refl;
  }
  sys_print-Printed (c ∷ cs) u s bytes h =
      let a = sys_putchar-Printed c u s bytes.0 h in
      let s₁ : Kernel = record s { mem = a.mem'; csrs = a.csrs'; sent = s.sent ++ c ∷ [] } in
      let z = sys_print-Printed cs a.u' s₁ bytes.1 a.hart in
      let joined : (s.sent ++ c ∷ []) ++ cs ≡ s.sent ++ c ∷ cs = append_assoc s.sent (c ∷ []) cs in
      record {
        u' = z.u';
        mem' = z.mem';
        csrs' = z.csrs';
        returns = rw a.returns (rw (z.returns, joined) refl);
        stack = z.stack ∙ a.stack;
        regs = λ k pos top ne₁ ne₂. z.regs k pos top ne₁ ne₂ ∙ a.regs k pos top ne₁ ne₂;
        hart = z.hart;
        same = λ b out.
            z.same b (ground (arith, out, a.stack, frame_top a.u' a.hart, frame_top u h))
            ∙ a.same b out;
      }
