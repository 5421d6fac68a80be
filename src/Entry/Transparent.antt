-- ===== src/Entry/Transparent.antt =====
-- A trap in which the handler does nothing is not seen by the program.
use riscvkernel_hit.Base.{ℕ, ◌+◌, ◌^◌, ◌≤◌, ◌<◌, ◌≡◌, ◌≢◌, ◌⊎◌, ◌∙◌, arith}
use riscvkernel_hit.Memory.Laws.{write64-outside}
use riscvkernel_hit.Kernel.Defs.{Kernel, Layout, ok}
use riscvkernel_hit.Exec.Elf.{Image}
use riscvkernel_hit.Trap.Dispatch.{trap_handler-other_interrupt}
use riscvkernel_hit.Entry.Defs.{Hart, reg_a0, reg_a1, reg_a7, frame_of, entered, trap_vector}
use riscvkernel_hit.Entry.Trap.{
  IsHart, frame_top, save_frame-regs, save_frame-outside, resumed, trap_vector-Resumed,
}

-- An interrupt other than the timer's comes back to the program at the place where it struck, with
-- the same stack pointer of the kernel and all registers as they were; but for `mstatus` the
-- kernel's variables are the same, and memory is the same outside the frame.
pub trap_vector-transparent :
    (l : Layout) (app : Image) (code tval : ℕ) (u : Hart) (s : Kernel)
    → code < 2 ^ 63
    → code ≢ 7
    → IsHart u
    → (u' : Hart) × (trap_vector l app (2 ^ 63 + code) tval u s
        ≡ ok u' (resumed u u.pc (entered u s)))
      × (u'.pc ≡ u.pc)
      × (u'.mscratch ≡ u.mscratch)
      × ((k : ℕ) → 0 < k → k < 32 → u'.regs k ≡ u.regs k)
      × ((b : ℕ)
          → (b < frame_of u) ⊎ (u.mscratch ≤ b)
          → (resumed u u.pc (entered u s)).mem b ≡ s.mem b)
trap_vector-transparent l app code tval u s small other h =
    let handled =
      trap_handler-other_interrupt l app (entered u s) u.pc tval (u.regs reg_a0) (u.regs reg_a1)
        (u.regs reg_a7) (frame_of u) code small other in
    let (u', e, r) =
      trap_vector-Resumed l app (2 ^ 63 + code) tval u.pc u s (entered u s) h h.pc_word handled in
    (
      u',
      e,
      r.pc,
      r.stack,
      λ k pos low. r.regs k pos low ∙ save_frame-regs u s.mem h k pos low,
      λ b out.
          write64-outside (entered u s).mem (frame_of u + 0) u.pc b
            (ground (arith, out, frame_top u h))
          ∙ save_frame-outside u s.mem h b out,
    )
