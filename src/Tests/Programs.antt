-- ===== src/Tests/Programs.antt =====
-- A program of task 0 that makes system calls and is interrupted.
use riscvkernel_hit.Base.{
  ℕ, ◌+◌, ◌*◌, ◌^◌, ◌≤◌, ◌<◌, ◌≡◌, ◌≢◌, ◌⊎◌, inr, refl, List, [], ◌∷◌, arith,
}
use riscvkernel_hit.Memory.Defs.{read64}
use riscvkernel_hit.Kernel.Defs.{ok}
use riscvkernel_hit.Task.Frame.{task_trap_frame}
use riscvkernel_hit.Entry.Defs.{Hart, frame_of, save_frame, entered, trap_vector}
use riscvkernel_hit.Entry.Trap.{IsHart, resumed}
use riscvkernel_hit.Entry.Stacks.{InStack, save_frame-InStack}
use riscvkernel_hit.Entry.Transparent.{trap_vector-transparent}
use riscvkernel_hit.User.Defs.{Text, sys_print, sys_read}
use riscvkernel_hit.User.Print.{Printed, sys_print-Printed}
use riscvkernel_hit.User.Read.{ReadOne, sys_read-ReadOne}
use riscvkernel_hit.Tests.States.{layout, two_pages, zeroes}
use riscvkernel_hit.Tests.Traps.{no_image}

abbrev text : Text
text = record {
  putchar_ecall = 0x1_0008;
  read_ecall = 0x1_0040;
  yield_ecall = 0x1_0050;
  exit_ecall = 0x1_0060;
  fork_ecall = 0x1_0070;
  exec_ecall = 0x1_0080;
}

abbrev program : Hart
program = record { pc = 0x1_0000; regs = λ k. k; mscratch = 0x8000_9000 }

program-IsHart : IsHart program
program-IsHart = record {
  room = omega arith;
  top = omega arith;
  pc_word = omega arith;
  words = λ k pos low. omega arith;
}

abbrev hi : List ℕ
hi = b'h' ∷ b'i' ∷ []

sys_print-Printed_example :
    Printed program two_pages hi (sys_print layout no_image text hi program two_pages)
sys_print-Printed_example =
    sys_print-Printed layout no_image text (omega arith) hi program two_pages
      (omega arith, (omega arith, tt)) program-IsHart

sys_read-ReadOne_example :
    ReadOne program two_pages 0x8010_5000 b'a'
      (b'b' ∷ [])
      (sys_read layout no_image text 0 0x8010_5000 3 program two_pages)
sys_read-ReadOne_example =
    sys_read-ReadOne layout no_image text (omega arith) 0x8010_5000 3 b'a' (b'b' ∷ []) program
      two_pages (omega arith) (omega arith) (omega arith) (omega arith) refl (inr (omega arith))
      program-IsHart

save_frame-InStack_example :
    (frame_of program ≡ task_trap_frame layout 0)
    × ((b : ℕ) → save_frame program zeroes b ≢ zeroes b → InStack layout 0 b)
    × ((j k : ℕ)
        → j ≢ 0
        → k < 32
        → read64 (save_frame program zeroes) (task_trap_frame layout j + 8 * k)
          ≡ read64 zeroes (task_trap_frame layout j + 8 * k))
save_frame-InStack_example = save_frame-InStack layout 0 program zeroes program-IsHart (omega arith)

trap_vector-transparent_example :
    (u' : Hart) × (trap_vector layout no_image (2 ^ 63 + 3) 0 program two_pages
      ≡ ok u' (resumed program 0x1_0000 (entered program two_pages)))
    × (u'.pc ≡ 0x1_0000)
    × (u'.mscratch ≡ 0x8000_9000)
    × ((k : ℕ) → 0 < k → k < 32 → u'.regs k ≡ k)
    × ((b : ℕ)
        → (b < frame_of program) ⊎ (0x8000_9000 ≤ b)
        → (resumed program 0x1_0000 (entered program two_pages)).mem b ≡ two_pages.mem b)
trap_vector-transparent_example =
    trap_vector-transparent layout no_image 3 0 program two_pages (omega arith) (omega arith)
      program-IsHart
