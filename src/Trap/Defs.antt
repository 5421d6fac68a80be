-- ===== src/Trap/Defs.antt =====
-- The trap handler with its table of system calls, the timer, and `os_main`.
use riscvkernel_hit.Base.{
  ℕ, zero, suc, ◌+◌, ◌-◌, ◌%◌, ◌^◌, bit_and, bit_or, List, [], ◌∷◌, ◌++◌, Option, none, some, not,
  ◌||◌, ◌==◌, ltb, if◌then◌else◌, update,
}
use riscvkernel_hit.Printf.Defs.{word}
use riscvkernel_hit.Kernel.Defs.{
  Kernel, Layout, Csrs, ok, hung, Cmd, pure, gets, modify, hang, ◌>>=◌, ◌>>◌,
}
use riscvkernel_hit.Kernel.Say.{say}
use riscvkernel_hit.Page.Defs.{page_init}
use riscvkernel_hit.Mmu.Defs.{load64, store64, mmu_init}
use riscvkernel_hit.Task.Frame.{tf_a0, tf_a2}
use riscvkernel_hit.Task.Defs.{task_yield, task_wrapper, get_task_satp}
use riscvkernel_hit.Task.Process.{task_init, task_exit, task_fork}
use riscvkernel_hit.Exec.Elf.{Image}
use riscvkernel_hit.Exec.Load.{task_exec}

abbrev pub timer_freq : ℕ
timer_freq = 10_000_000

-- `timer_load_next`
unfoldable pub timer_load_next : Kernel → Kernel
timer_load_next s = record s { mtimecmp = (s.mtime + timer_freq) % 2 ^ 64 }

abbrev enable : Kernel → Kernel
enable s = record s {
  csrs = record (s.csrs) {
    mie = bit_or s.csrs.mie (2 ^ 7);
    mstatus = bit_or s.csrs.mstatus (2 ^ 3);
  };
}

unfoldable pub timer_init : Cmd (Unit {0})
timer_init = do
  modify timer_load_next
  modify enable
  say "[SYS] CLINT Timer initialized. Heartbeat started.\n" []

-- `return epc + 4;`
abbrev pub skip_ecall : ℕ → Cmd ℕ
skip_ecall epc = pure ((epc + 4) % 2 ^ 64)

-- `uart_putc`, at the level of the bytes on the line.
abbrev putc : ℕ → Kernel → Kernel
putc c s = record s { sent = s.sent ++ c ∷ [] }

unfoldable pub do_sys_write : ℕ → ℕ → ℕ → ℕ → Cmd ℕ
do_sys_write arg0 arg1 epc tf = do modify (putc (arg0 % 2 ^ 8)); skip_ecall epc

-- `uart_getc`: with nothing to come, the driver polls for ever.
unfoldable pub getc : List ℕ → Cmd ℕ
getc [] s = hung s
getc (c ∷ rest) s = ok c (record s { received = rest })

abbrev store_byte : ℕ → ℕ → Kernel → Kernel
store_byte a c s = record s { mem = update s.mem a c }

-- The loop of `do_sys_read`, whose body returns in its first round. The handler runs in machine
-- mode, so `buf[i] = …` goes to the physical address.
unfoldable pub read_loop : ℕ → ℕ → ℕ → ℕ → Cmd ℕ
unfolding getc
read_loop zero buf epc tf = store64 (tf + tf_a0) 0 >> skip_ecall epc
read_loop (suc count) buf epc tf = do
  line ← gets (λ s. s.received)
  ch ← getc line
  modify (store_byte buf (if ch == b'\r' then b'\n' else ch))
  store64 (tf + tf_a0) 1
  skip_ecall epc

unfoldable pub do_sys_read : ℕ → ℕ → ℕ → ℕ → Cmd ℕ
unfolding read_loop
do_sys_read arg0 arg1 epc tf = do
  count ← load64 (tf + tf_a2)
  if not (arg0 % 2 ^ 32 == 0) || arg1 == 0 || count == 0
      then store64 (tf + tf_a0) (2 ^ 64 - 1) >> skip_ecall epc
      else read_loop count arg1 epc tf

unfoldable pub do_sys_yield : ℕ → ℕ → ℕ → ℕ → Cmd ℕ
do_sys_yield arg0 arg1 epc tf = task_yield >> skip_ecall epc

-- An `int` from the low half of a register, widened again.
abbrev pub as_int : ℕ → ℕ
as_int w = let low = w % 2 ^ 32 in if ltb low (2 ^ 31) then low else low + (2 ^ 64 - 2 ^ 32)

unfoldable pub do_sys_exit : Layout → ℕ → ℕ → ℕ → ℕ → Cmd ℕ
do_sys_exit l arg0 arg1 epc tf = task_exit l (as_int arg0) >> skip_ecall epc

-- The result of `task_fork` as it is stored in `a0`.
abbrev pub pid_word : Option ℕ → ℕ
pid_word none = 2 ^ 64 - 1
pid_word (some id) = id

unfoldable pub do_sys_clone : Layout → ℕ → ℕ → ℕ → ℕ → Cmd ℕ
do_sys_clone l arg0 arg1 epc tf = do
  pid ← task_fork l tf epc
  store64 (tf + tf_a0) (pid_word pid)
  skip_ecall epc

unfoldable pub do_sys_execve : Layout → Image → ℕ → ℕ → ℕ → ℕ → Cmd ℕ
do_sys_execve l app arg0 arg1 epc tf = task_exec l app epc tf

-- The entries of `sys_call_table`.
pub data Syscall : Type 0 where
  read : Syscall
  write : Syscall
  sched_yield : Syscall
  exit : Syscall
  clone : Syscall
  execve : Syscall

abbrev pub max_syscall_num : ℕ
max_syscall_num = 300

unfoldable pub sys_call_table : ℕ → Option Syscall
sys_call_table n =
    if n == 63
    then some Syscall.read
    else if n == 64
    then some Syscall.write
    else if n == 124
    then some Syscall.sched_yield
    else if n == 93
    then some Syscall.exit
    else if n == 220
    then some Syscall.clone
    else if n == 221
    then some Syscall.execve
    else none

unfoldable pub run_syscall : Layout → Image → Syscall → ℕ → ℕ → ℕ → ℕ → Cmd ℕ
run_syscall l app Syscall.read = do_sys_read
run_syscall l app Syscall.write = do_sys_write
run_syscall l app Syscall.sched_yield = do_sys_yield
run_syscall l app Syscall.exit = do_sys_exit l
run_syscall l app Syscall.clone = do_sys_clone l
run_syscall l app Syscall.execve = do_sys_execve l app

-- `sys_num < MAX_SYSCALL_NUM && sys_call_table[sys_num] != 0`, with the entry.
unfoldable pub find_syscall : ℕ → Option Syscall
unfolding sys_call_table
find_syscall n = if ltb n max_syscall_num then sys_call_table n else none

unfoldable pub handle_ecall : Layout → Image → ℕ → ℕ → ℕ → ℕ → ℕ → Cmd ℕ
unfolding find_syscall
handle_ecall l app epc arg0 arg1 sys_num tf = elim (find_syscall sys_num) [
  | some call ↦ run_syscall l app call arg0 arg1 epc tf
  | none ↦ do
    say "\n[KERNEL] Unimplemented syscall number: %d\n" (word sys_num ∷ [])
    skip_ecall epc
]

-- The two reports of exceptions that the kernel does not survive.
unfoldable pub page_fault : ℕ → ℕ → ℕ → Cmd ℕ
page_fault code tval epc = do
  say "\n!!!! MMU PAGE FAULT DETECTED !!!!\n" []
  say "Cause: %d, Bad VA: 0x%x, At EPC: 0x%x\n" (word code ∷ word tval ∷ word epc ∷ [])
  hang

unfoldable pub panic : ℕ → ℕ → Cmd ℕ
panic code epc = do
  say "\n!!! KERNEL PANIC: Cause %d, EPC 0x%x !!!\n" (word code ∷ word epc ∷ [])
  hang

-- `trap_handler`
unfoldable pub trap_handler : Layout → Image → ℕ → ℕ → ℕ → ℕ → ℕ → ℕ → ℕ → Cmd ℕ
unfolding handle_ecall page_fault panic
trap_handler l app cause epc tval arg0 arg1 sys_num tf =
    let is_interrupt = not (bit_and cause (2 ^ 63) == 0) in
    let code = bit_and cause (2 ^ 63 - 1) in
    if is_interrupt
    then (if code == 7 then modify timer_load_next >> task_yield >> pure epc else pure epc)
    else if code == 8 || code == 11
    then handle_ecall l app epc arg0 arg1 sys_num tf
    else if code == 12 || code == 13 || code == 15
    then page_fault code tval epc
    else panic code epc

abbrev set_csrs : (Csrs → Csrs) → Kernel → Kernel
set_csrs f s = record s { csrs = f s.csrs }

abbrev pub load_satp : ℕ → Kernel → Kernel
load_satp satp s = record s { cpu = record (s.cpu) { satp = satp } }

-- `os_main`; `uart_init` is empty.
unfoldable pub os_main : Layout → Cmd (Unit {0})
os_main l = do
  say "\n[SYS] riscv OS: Syscall & Privilege Drop Booting...\n" []
  page_init l
  mmu_init
  modify (set_csrs (λ c. record c { pmpaddr0 = 2 ^ 64 - 1 }))
  modify (set_csrs (λ c. record c { pmpcfg0 = 0x1f }))
  modify (set_csrs (λ c. record c { mtvec = l.trap_vector }))
  task_init l 0 l.task_shell
  timer_init
  say "[SYS] System Initialization Complete. Giving up privileges...\n\n" []
  satp ← gets (get_task_satp 0)
  modify (load_satp satp)
  task_wrapper l
