-- ===== src/User/Exit.antt =====
-- `sys_exit` from the program on: the process ends.
use riscvkernel_hit.Base.{ℕ, ◌+◌, ◌^◌, ◌≤◌, ◌<◌, ◌≡◌, refl, List, Option, none, some, arith}
use riscvkernel_hit.Memory.Defs.{read64}
use riscvkernel_hit.Sched.Switch.{OnlyCurrentRuns}
use riscvkernel_hit.Kernel.Defs.{Kernel, Layout, switched, hung, current}
use riscvkernel_hit.Page.Defs.{ram_start}
use riscvkernel_hit.Mmu.Owned.{owned}
use riscvkernel_hit.Mmu.Reclaim.{Owns}
use riscvkernel_hit.Mmu.Defs.{load64}
use riscvkernel_hit.Task.Process.{task_page_table, task_exit}
use riscvkernel_hit.Task.Exit.{ExitEnds, Exited, task_exit-Exited}
use riscvkernel_hit.Exec.Elf.{Image}
use riscvkernel_hit.Trap.Defs.{
  as_int, do_sys_exit, trap_handler, handle_ecall, find_syscall, sys_call_table, run_syscall,
}
use riscvkernel_hit.Entry.Defs.{Hart, reg_a0, reg_a7, tf_a1, frame_of, entered, trap_vector}
use riscvkernel_hit.Entry.Trap.{IsHart, save_frame-regs}
use riscvkernel_hit.User.Defs.{Text, mv, ecall, sys_exit, sys_exit_number}
use riscvkernel_hit.User.Calls.{mv-IsHart, at-IsHart}

-- The program at the `ecall` of `sys_exit`.
abbrev pub exiting : Text → ℕ → Hart → Hart
exiting text status u = record (mv reg_a0 status (mv reg_a7 sys_exit_number u)) {
  pc = text.exit_ecall;
}

-- The kernel that the handler of that trap finds, and the address space of the program.
abbrev pub exit_kernel : Text → ℕ → Hart → Kernel → Kernel
exit_kernel text status u s = entered (exiting text status u) s

abbrev pub exit_space : Text → ℕ → Hart → Kernel → ℕ
exit_space text status u s = task_page_table (current s) (exit_kernel text status u s)

exit_call :
    (l : Layout) (app : Image) (epc status arg1 tf : ℕ) (s : Kernel)
    → trap_handler l app 8 epc 0 status arg1 93 tf s ≡ do_sys_exit l status arg1 epc tf s
unfolding trap_handler handle_ecall find_syscall sys_call_table run_syscall
exit_call l app epc status arg1 tf s = refl

module _ (l : Layout) (app : Image) (text : Text) (status : ℕ) (u : Hart) (s : Kernel)
    (small : status < 2 ^ 64) (at : text.exit_ecall < 2 ^ 64) (h : IsHart u) where
  abbrev v : Hart
  v = exiting text status u

  v-IsHart : IsHart v
  v-IsHart = at-IsHart l app text.exit_ecall (mv reg_a0 status (mv reg_a7 sys_exit_number u)) at (
      mv-IsHart l app reg_a0 status (mv reg_a7 sys_exit_number u) small
        (mv-IsHart l app reg_a7 sys_exit_number u (omega arith) h))

  exit_hung :
      (t : Kernel)
      → task_exit l (as_int status) (entered v s) ≡ hung t
      → sys_exit l app text status u s ≡ hung t
  unfolding sys_exit ecall trap_vector load64 do_sys_exit
  exit_hung t e =
      let arg0 = save_frame-regs v s.mem v-IsHart reg_a0 (omega arith) (omega arith) in
      let number = save_frame-regs v s.mem v-IsHart reg_a7 (omega arith) (omega arith) in
      rw (arg0, number)
        (rw
          (
            exit_call l app text.exit_ecall status (read64 (entered v s).mem (frame_of v + tf_a1))
                (frame_of v) (entered v s),
            e,
          )
          refl)

  exit_switched :
      (pc : ℕ) (t : Kernel)
      → task_exit l (as_int status) (entered v s) ≡ switched pc t
      → sys_exit l app text status u s ≡ switched pc t
  unfolding sys_exit ecall trap_vector load64 do_sys_exit
  exit_switched pc t e =
      let arg0 = save_frame-regs v s.mem v-IsHart reg_a0 (omega arith) (omega arith) in
      let number = save_frame-regs v s.mem v-IsHart reg_a7 (omega arith) (omega arith) in
      rw (arg0, number)
        (rw
          (
            exit_call l app text.exit_ecall status (read64 (entered v s).mem (frame_of v + tf_a1))
                (frame_of v) (entered v s),
            e,
          )
          refl)

  exit_ends :
      (t : Kernel) (picked : Option ℕ)
      → ExitEnds (entered v s) (task_exit l (as_int status) (entered v s)) t picked
      → ExitEnds (entered v s) (sys_exit l app text status u s) t picked
  exit_ends t none (e, now, cpu, tasks, out, line) = (exit_hung t e, now, cpu, tasks, out, line)
  exit_ends t (some next) (ne, e, regs, now, runs, saved) =
      (ne, exit_switched _ t e, regs, now, runs, saved)

-- If the space of the current task can be given back when the trap has saved the program's
-- registers, and no other task is marked as running, `sys_exit` never returns to the program: the
-- first runnable other task goes on with its registers, alone marked as running, or the kernel
-- writes that all tasks have exited and waits for ever. In the kernel that is left the pages of the
-- space are free and no byte outside their first words has changed; the slot is dead and its stack
-- forgotten; and the states of the other tasks but the one that runs, their contexts and stacks, and
-- all other variables and registers, the timer's too, are as they were behind the saving of the
-- registers.
pub sys_exit-Exited :
    (l : Layout) (app : Image) (text : Text) (status : ℕ) (u : Hart) (s : Kernel) (xs : List ℕ)
    → status < 2 ^ 64
    → text.exit_ecall < 2 ^ 64
    → IsHart u
    → ram_start ≤ l.kernel_end
    → Owns l (exit_kernel text status u s) (exit_space text status u s) xs
    → OnlyCurrentRuns (exit_kernel text status u s).sched
    → Exited l
        (exit_kernel text status u s)
        (sys_exit l app text status u s)
        (owned l (exit_kernel text status u s).mem s.root_page_table (exit_space text status u s))
        xs
sys_exit-Exited l app text status u s xs small at h above owns alone =
    let x = task_exit-Exited l (exit_kernel text status u s) (as_int status) xs above owns alone in
    record {
      left = x.left;
      ended = x.ended;
      picked = x.picked;
      first = x.first;
      ends = exit_ends l app text status u s small at h x.left x.picked x.ends;
    }
