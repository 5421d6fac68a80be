-- ===== src/User/Calls.antt =====
-- A system call whose handler returns behind the `ecall`.
use riscvkernel_hit.Base.{ℕ, ◌^◌, ◌<◌, ◌≡◌, refl, ◌==◌, true, arith}
use riscvkernel_hit.Kernel.Defs.{Kernel, Layout, ok}
use riscvkernel_hit.Exec.Elf.{Image}
use riscvkernel_hit.Trap.Defs.{
  trap_handler, handle_ecall, find_syscall, sys_call_table, run_syscall, do_sys_write, do_sys_read,
}
use riscvkernel_hit.Entry.Defs.{Hart, reg_a0, reg_a1, reg_a7, frame_of, entered}
use riscvkernel_hit.Entry.Trap.{IsHart, Resumed, resumed, trap_vector-Resumed}
use riscvkernel_hit.User.Defs.{mv, behind_ecall, ecall}

module _ (l : Layout) (app : Image) where
  -- The handlers of writes and reads are the ones that their numbers stand for.
  pub write_call :
      (epc c arg1 tf : ℕ) (s : Kernel)
      → trap_handler l app 8 epc 0 c arg1 64 tf s ≡ do_sys_write c arg1 epc tf s
  unfolding trap_handler handle_ecall find_syscall sys_call_table run_syscall
  write_call epc c arg1 tf s = refl

  pub read_call :
      (epc fd buf tf : ℕ) (s : Kernel)
      → trap_handler l app 8 epc 0 fd buf 63 tf s ≡ do_sys_read fd buf epc tf s
  unfolding trap_handler handle_ecall find_syscall sys_call_table run_syscall
  read_call epc fd buf tf s = refl

  pub mv-IsHart : (reg value : ℕ) (u : Hart) → value < 2 ^ 64 → IsHart u → IsHart (mv reg value u)
  mv-IsHart reg value u small h = record {
    room = h.room;
    top = h.top;
    pc_word = h.pc_word;
    words = λ k pos low. ground (arith, h.words k pos low);
  }

  pub at-IsHart : (at : ℕ) (u : Hart) → at < 2 ^ 64 → IsHart u → IsHart (record u { pc = at })
  at-IsHart at u small h = record { room = h.room; top = h.top; pc_word = small; words = h.words }

  -- If the handler returns behind the `ecall`, the program goes on there.
  pub ecall-Resumed :
      (at : ℕ) (u : Hart) (s s' : Kernel)
      → at < 2 ^ 64
      → IsHart u
      → trap_handler l app 8 at 0
          (u.regs reg_a0)
          (u.regs reg_a1)
          (u.regs reg_a7)
          (frame_of u)
          (entered (record u { pc = at }) s)
        ≡ ok (behind_ecall at) s'
      → (u' : Hart) × (ecall l app at u s ≡ ok u' (resumed u (behind_ecall at) s'))
        × Resumed u (behind_ecall at) s'.mem u'
  unfolding ecall
  ecall-Resumed at u s s' small h handled =
      let v : Hart = record u { pc = at } in
      let (u', e, r) =
        trap_vector-Resumed l app 8 0 (behind_ecall at) v s s' (at-IsHart at u small h)
          (omega arith) handled in
      let goes_on : (u'.pc == behind_ecall at) ≡ true = ground (arith, r.pc) in
      (u', rw e (rw goes_on refl), record { pc = r.pc; stack = r.stack; regs = r.regs })
