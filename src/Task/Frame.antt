-- ===== src/Task/Frame.antt =====
-- kernel/trapframe.h: the saved registers of a process, 32 words at the top of its kernel stack.
use riscvkernel_hit.Base.{ℕ, zero, suc, ◌+◌, ◌-◌, ◌*◌}
use riscvkernel_hit.Memory.Defs.{Mem, read64, write64}
use riscvkernel_hit.Kernel.Defs.{Kernel, Layout}
use riscvkernel_hit.Page.Defs.{page_size}

abbrev pub trapframe_words : ℕ
trapframe_words = 32

abbrev pub trapframe_size : ℕ
trapframe_size = trapframe_words * 8

-- The offsets of the fields that the C code names.
abbrev pub tf_epc : ℕ
tf_epc = 0 * 8

abbrev pub tf_user_sp : ℕ
tf_user_sp = 2 * 8

abbrev pub tf_a0 : ℕ
tf_a0 = 10 * 8

abbrev pub tf_a2 : ℕ
tf_a2 = 12 * 8

-- The loop of `trapframe_clear`, with the rounds that are left and the index.
unfoldable pub clear_words : ℕ → ℕ → ℕ → Mem → Mem
clear_words zero i tf m = m
clear_words (suc left) i tf m = clear_words left (i + 1) tf (write64 m (tf + 8 * i) 0)

unfoldable pub trapframe_clear : ℕ → Kernel → Kernel
unfolding clear_words
trapframe_clear tf s = record s { mem = clear_words trapframe_words 0 tf s.mem }

-- The loop of `trapframe_copy`.
unfoldable pub copy_words : ℕ → ℕ → ℕ → ℕ → Mem → Mem
copy_words zero i dst src m = m
copy_words (suc left) i dst src m =
    copy_words left (i + 1) dst src (write64 m (dst + 8 * i) (read64 m (src + 8 * i)))

unfoldable pub trapframe_copy : ℕ → ℕ → Kernel → Kernel
unfolding copy_words
trapframe_copy dst src s = record s { mem = copy_words trapframe_words 0 dst src s.mem }

-- `task_trap_frame`
unfoldable pub task_trap_frame : Layout → ℕ → ℕ
task_trap_frame l id = l.task_kernel_stacks + id * page_size + (page_size - trapframe_size)
