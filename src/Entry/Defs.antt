-- ===== src/Entry/Defs.antt =====
-- The way from a program into `trap_handler` and back, read from the assembler of kernel/trap.S.
use riscvkernel_hit.Base.{
  ℕ, zero, suc, ◌+◌, ◌-◌, ◌*◌, ◌%◌, ◌^◌, bit_and, bit_or, List, [], ◌∷◌, ◌++◌, update,
}
use riscvkernel_hit.Memory.Defs.{Mem, read64, write64}
use riscvkernel_hit.Kernel.Defs.{Kernel, Layout, Csrs, Cmd, gets, modify, ◌>>=◌, ◌>>◌}
use riscvkernel_hit.Mmu.Defs.{load64, store64}
use riscvkernel_hit.Task.Frame.{trapframe_size, tf_epc, tf_user_sp, tf_a0}
use riscvkernel_hit.Exec.Elf.{Image}
use riscvkernel_hit.Trap.Defs.{trap_handler}

-- A program on the processor. Its registers bear the number of their word in `struct trapframe`,
-- from 1 on; `mscratch` is the top of the task's kernel stack.
pub record Hart : Type 0 where
  pub pc : ℕ
  pub regs : ℕ → ℕ
  pub mscratch : ℕ

abbrev pub reg_sp : ℕ
reg_sp = 2

abbrev pub reg_a0 : ℕ
reg_a0 = 10

abbrev pub reg_a1 : ℕ
reg_a1 = 11

abbrev pub reg_a2 : ℕ
reg_a2 = 12

abbrev pub reg_a7 : ℕ
reg_a7 = 17

abbrev pub tf_a1 : ℕ
tf_a1 = 11 * 8

abbrev pub tf_a7 : ℕ
tf_a7 = 17 * 8

-- The numbers `k`, `k + 1`, and so on.
unfoldable pub count_from : ℕ → ℕ → List ℕ
count_from zero k = []
count_from (suc left) k = k ∷ count_from left (k + 1)

-- The registers in the order of the stores of `trap_vector`: `ra`, then those from `gp` on.
abbrev pub stored_regs : List ℕ
stored_regs = 1 ∷ count_from 29 3

-- And in the order of the loads of `trap_return`: `t0` and `t1` come last.
abbrev pub loaded_regs : List ℕ
loaded_regs = 1 ∷ 3 ∷ 4 ∷ count_from 25 7 ++ 5 ∷ 6 ∷ []

-- The series `sd reg, TF_…_OFF(sp)`.
unfoldable pub save_words : List ℕ → (ℕ → ℕ) → ℕ → Mem → Mem
save_words [] regs sp m = m
save_words (k ∷ later) regs sp m = save_words later regs sp (write64 m (sp + 8 * k) (regs k))

-- The series `ld reg, TF_…_OFF(sp)`.
unfoldable pub load_words : List ℕ → ℕ → Mem → (ℕ → ℕ) → ℕ → ℕ
load_words [] sp m regs = regs
load_words (k ∷ later) sp m regs = load_words later sp m (update regs k (read64 m (sp + 8 * k)))

-- The stack pointer of the handler: `csrrw sp, mscratch, sp` and `addi sp, sp, -TRAPFRAME_SIZE`.
abbrev pub frame_of : Hart → ℕ
frame_of u = (u.mscratch + (2 ^ 64 - trapframe_size)) % 2 ^ 64

-- `trap_vector` up to the call: the registers, `mepc` and the program's stack pointer.
unfoldable pub save_frame : Hart → Mem → Mem
unfolding save_words
save_frame u m =
    let sp = frame_of u in
    write64 (write64 (save_words stored_regs u.regs sp m) (sp + tf_epc) u.pc) (sp + tf_user_sp)
      (u.regs reg_sp)

abbrev pub entered : Hart → Kernel → Kernel
entered u s = record s { mem = save_frame u s.mem }

-- The registers at the `mret`, whose stack pointer comes back out of `mscratch`.
unfoldable pub load_frame : ℕ → Mem → Hart
unfolding load_words count_from
load_frame tf m = record {
  pc = read64 m (tf + tf_epc);
  regs = update (load_words loaded_regs tf m (λ _. 0)) reg_sp (read64 m (tf + tf_user_sp));
  mscratch = (tf + trapframe_size) % 2 ^ 64;
}

-- `csrc mstatus, 3 << 11` and `csrs mstatus, 1 << 7`: `mret` goes to user mode, interrupts on.
abbrev pub to_user : Csrs → Csrs
to_user c = record c { mstatus = bit_or (bit_and c.mstatus (2 ^ 64 - 1 - 3 * 2 ^ 11)) (2 ^ 7) }

unfoldable pub trap_return : ℕ → Cmd Hart
unfolding load_frame
trap_return tf = do
  modify (λ s. record s { csrs = to_user s.csrs })
  gets (λ s. load_frame tf s.mem)

-- A trap of the program `u`, through the handler and back.
unfoldable pub trap_vector : Layout → Image → ℕ → ℕ → Hart → Cmd Hart
unfolding save_frame trap_return
trap_vector l app cause tval u = do
  let tf = frame_of u
  modify (entered u)
  arg0 ← load64 (tf + tf_a0)
  arg1 ← load64 (tf + tf_a1)
  sys_num ← load64 (tf + tf_a7)
  epc ← trap_handler l app cause u.pc tval arg0 arg1 sys_num tf
  store64 (tf + tf_epc) epc
  trap_return tf
