-- ===== src/User/Defs.antt =====
-- kernel/user_lib.c: the system calls as a program makes them, and `task_shell` of kernel/main.c.
-- Between two calls a program runs instructions of its own; only the registers that the calls set
-- are followed. A text is the list of the bytes in front of its NUL.
use riscvkernel_hit.Base.{ℕ, ◌+◌, ◌-◌, ◌%◌, ◌^◌, List, [], ◌∷◌, ◌==◌, if◌then◌else◌, update}
use riscvkernel_hit.Printf.Defs.{codes}
use riscvkernel_hit.Kernel.Defs.{Layout, switched, Cmd, pure, hang, ◌>>=◌}
use riscvkernel_hit.Exec.Elf.{Image}
use riscvkernel_hit.Entry.Defs.{Hart, reg_a0, reg_a1, reg_a2, reg_a7, trap_vector}

abbrev pub sys_read_number : ℕ
sys_read_number = 63

abbrev pub sys_write_number : ℕ
sys_write_number = 64

abbrev pub sys_exit_number : ℕ
sys_exit_number = 93

abbrev pub sys_sched_yield_number : ℕ
sys_sched_yield_number = 124

abbrev pub sys_clone_number : ℕ
sys_clone_number = 220

abbrev pub sys_execve_number : ℕ
sys_execve_number = 221

-- Where the program's `ecall` instructions lie, one in each function.
pub record Text : Type 0 where
  pub putchar_ecall : ℕ
  pub read_ecall : ℕ
  pub yield_ecall : ℕ
  pub exit_ecall : ℕ
  pub fork_ecall : ℕ
  pub exec_ecall : ℕ

-- `mv reg, value`
abbrev pub mv : ℕ → ℕ → Hart → Hart
mv reg value u = record u { regs = update u.regs reg value }

-- The instruction behind an `ecall`.
abbrev pub behind_ecall : ℕ → ℕ
behind_ecall at = (at + 4) % 2 ^ 64

-- `ecall` at the address `at`, an exception of cause 8 in user mode. If the kernel goes back to
-- another place than behind it, the function that made the call is left.
unfoldable pub ecall : Layout → Image → ℕ → Hart → Cmd Hart
ecall l app at u = do
  u' ← trap_vector l app 8 0 (record u { pc = at })
  if u'.pc == behind_ecall at then pure u' else switched u'.pc

module _ (l : Layout) (app : Image) (text : Text) where
  unfoldable pub sys_putchar : ℕ → Hart → Cmd Hart
  unfolding ecall
  sys_putchar c u =
      let u₁ = mv reg_a7 sys_write_number u in
      let u₂ = mv reg_a0 c u₁ in ecall l app text.putchar_ecall u₂

  unfoldable pub sys_print : List ℕ → Hart → Cmd Hart
  unfolding sys_putchar
  sys_print [] u = pure u
  sys_print (c ∷ s) u = sys_putchar c u >>= sys_print s

  -- The result is in `a0`.
  unfoldable pub sys_read : ℕ → ℕ → ℕ → Hart → Cmd Hart
  unfolding ecall
  sys_read fd buf count u =
      let u₁ = mv reg_a7 sys_read_number u in
      let u₂ = mv reg_a0 fd u₁ in
      let u₃ = mv reg_a1 buf u₂ in let u₄ = mv reg_a2 count u₃ in ecall l app text.read_ecall u₄

  unfoldable pub sys_yield : Hart → Cmd Hart
  unfolding ecall
  sys_yield u = ecall l app text.yield_ecall (mv reg_a7 sys_sched_yield_number u)

  -- `status` is an `int` as its 64-bit pattern.
  unfoldable pub sys_exit : ℕ → Hart → Cmd Hart
  unfolding ecall
  sys_exit status u = do
    back ← ecall l app text.exit_ecall (mv reg_a0 status (mv reg_a7 sys_exit_number u))
    hang

  unfoldable pub sys_fork : Hart → Cmd Hart
  unfolding ecall
  sys_fork u = ecall l app text.fork_ecall (mv reg_a7 sys_clone_number u)

  unfoldable pub sys_exec : Hart → Cmd Hart
  unfolding ecall
  sys_exec u = ecall l app text.exec_ecall (mv reg_a7 sys_execve_number u)

  unfoldable pub task_shell : Hart → Cmd Hart
  unfolding sys_print sys_exec sys_exit
  task_shell u = do
    u₁ ← sys_print (codes "\n[SYS] Launching user shell via execve()...\n") u
    u₂ ← sys_exec u₁
    u₃ ← sys_print (codes "[SYS] ERROR: shell execve() returned unexpectedly.\n") u₂
    sys_exit (2 ^ 64 - 1) u₃
