-- ===== src/Kernel/Defs.antt =====
-- The globals of the kernel with the registers and devices that it drives, and commands over them.
use riscvkernel_hit.Base.{ℕ, List, update}
use riscvkernel_hit.Memory.Defs.{Mem}
use riscvkernel_hit.Sched.Defs.{Sched, TaskState}

-- `struct context` of kernel/context.h: what `switch_to` saves and loads.
pub record Context : Type 0 where
  pub ra : ℕ
  pub sp : ℕ
  pub s0 : ℕ
  pub s1 : ℕ
  pub s2 : ℕ
  pub s3 : ℕ
  pub s4 : ℕ
  pub s5 : ℕ
  pub s6 : ℕ
  pub s7 : ℕ
  pub s8 : ℕ
  pub s9 : ℕ
  pub s10 : ℕ
  pub s11 : ℕ
  pub satp : ℕ

-- The control registers that the C code writes besides `satp`.
pub record Csrs : Type 0 where
  pub mie : ℕ
  pub mstatus : ℕ
  pub mtvec : ℕ
  pub pmpaddr0 : ℕ
  pub pmpcfg0 : ℕ

-- `cpu` holds the registers of a `struct context` as they are in the processor. `received` are
-- the bytes that the serial line will deliver, `sent` those that were written to it.
pub record Kernel : Type 0 where
  pub mem : Mem
  pub free_list : ℕ
  pub root_page_table : ℕ
  pub sched : Sched
  pub tasks : ℕ → Context
  pub task_user_stacks : ℕ → ℕ
  pub cpu : Context
  pub csrs : Csrs
  pub mtime : ℕ
  pub mtimecmp : ℕ
  pub received : List ℕ
  pub sent : List ℕ

-- The addresses that the linker script and the assembler files define. `task_kernel_stacks` is the
-- array of kernel/task.c.
pub record Layout : Type 0 where
  pub kernel_end : ℕ
  pub text_start : ℕ
  pub text_end : ℕ
  pub rodata_start : ℕ
  pub rodata_end : ℕ
  pub task_kernel_stacks : ℕ
  pub trap_return : ℕ
  pub trap_vector : ℕ
  pub task_shell : ℕ

-- How a call ends: it returns; it has left its caller for code at another address, with the
-- registers in `cpu`; it loops for ever, as after a fatal error; it does what C leaves undefined; or
-- the rounds granted to one of its loops are used up.
pub data Run (A : Type 0) : Type 0 where
  ok : A → Kernel → Run A
  switched : (pc : ℕ) → Kernel → Run A
  hung : Kernel → Run A
  fault : Run A
  out_of_fuel : Run A

abbrev pub Cmd : Type 0 → Type 0
Cmd A = Kernel → Run A

abbrev pub pure : {A : Type 0} → A → Cmd A
pure = ok

module _ {A B : Type 0} where
  abbrev pub and_then : Run A → (A → Cmd B) → Run B
  and_then (ok a s) k = k a s
  and_then (switched pc s) k = switched pc s
  and_then (hung s) k = hung s
  and_then fault k = fault
  and_then out_of_fuel k = out_of_fuel

  infixl 5 ◌>>=◌ ◌>>◌
  abbrev pub ◌>>=◌ : Cmd A → (A → Cmd B) → Cmd B
  m >>= k = λ s. and_then (m s) k

  abbrev pub ◌>>◌ : Cmd A → Cmd B → Cmd B
  m >> n = m >>= λ _. n

-- A value computed from the state, and a change of the state.
abbrev pub gets : {A : Type 0} → (Kernel → A) → Cmd A
gets f s = ok (f s) s

abbrev pub modify : (Kernel → Kernel) → Cmd (Unit {0})
modify f s = ok tt (f s)

-- An entry of a global array, or a branch without an else.
abbrev pub set_task : ℕ → Context → Kernel → Kernel
set_task id c s = record s { tasks = update s.tasks id c }

abbrev pub set_state : ℕ → TaskState → Kernel → Kernel
set_state id t s = record s {
  sched = record (s.sched) { task_states = update s.sched.task_states id t };
}

abbrev pub set_stack : ℕ → ℕ → Kernel → Kernel
set_stack id pa s = record s { task_user_stacks = update s.task_user_stacks id pa }

abbrev pub current : Kernel → ℕ
current s = s.sched.current_task

-- `while (1) { }`
abbrev pub hang : {A : Type 0} → Cmd A
hang s = hung s
