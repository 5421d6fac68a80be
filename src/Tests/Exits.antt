-- ===== src/Tests/Exits.antt =====
-- The end of a program whose space has a root table and no more.
use riscvkernel_hit.Base.{ℕ, ◌+◌, ◌≤◌, ◌≡◌, inr, refl, [], ◌∷◌, ◌==◌, if◌then◌else◌, arith}
use riscvkernel_hit.Memory.Defs.{read64}
use riscvkernel_hit.Memory.Laws.{read64_ext}
use riscvkernel_hit.Kernel.Defs.{Kernel}
use riscvkernel_hit.Mmu.Pte.{mmu_make_satp, mmu_satp_to_pgd}
use riscvkernel_hit.Mmu.Defs.{slot}
use riscvkernel_hit.Mmu.Owned.{owned}
use riscvkernel_hit.Mmu.Reclaim.{Owns}
use riscvkernel_hit.Task.Process.{task_page_table}
use riscvkernel_hit.Task.Exit.{Exited}
use riscvkernel_hit.Entry.Defs.{Hart, entered}
use riscvkernel_hit.Entry.Trap.{IsHart, save_frame-outside}
use riscvkernel_hit.User.Defs.{Text, sys_exit}
use riscvkernel_hit.User.Exit.{exiting, sys_exit-Exited}
use riscvkernel_hit.Tests.States.{layout, kernel, context, zeroes, page_a, page_a-IsPage}
use riscvkernel_hit.Tests.Spaces.{page_e, space_pages_none}
use riscvkernel_hit.Tests.Traps.{no_image}

abbrev text : Text
text = record {
  putchar_ecall = 0x1000;
  read_ecall = 0x1010;
  yield_ecall = 0x1020;
  exit_ecall = 0x1030;
  fork_ecall = 0x1040;
  exec_ecall = 0x1050;
}

-- A program with the kernel stack of task 0.
abbrev ender : Hart
ender = record { pc = 0x1000; regs = λ _. 0; mscratch = 0x8000_9000 }

ender-IsHart : IsHart ender
ender-IsHart = record {
  room = omega arith;
  top = omega arith;
  pc_word = omega arith;
  words = λ k pos low. omega arith;
}

abbrev alone : Kernel
alone = record (kernel zeroes 0) {
  root_page_table = page_e;
  tasks = λ n. if n == 0 then context (mmu_make_satp page_a) else context n;
}

abbrev trapped : Kernel
trapped = entered (exiting text 7 ender) alone

exiting-IsHart : IsHart (exiting text 7 ender)
exiting-IsHart = record {
  room = omega arith;
  top = omega arith;
  pc_word = omega arith;
  words = λ k pos low. ground arith;
}

-- Behind the image all memory is clear.
clear_word : (a : ℕ) → layout.kernel_end ≤ a → read64 trapped.mem a ≡ 0
unfolding read64
clear_word a h =
    read64_ext zeroes trapped.mem a
      (λ i low.
        save_frame-outside (exiting text 7 ender) zeroes exiting-IsHart (a + i)
          (inr (omega (arith, h))))
      (save_frame-outside (exiting text 7 ender) zeroes exiting-IsHart a (inr (omega (arith, h))))

root_only : owned layout trapped.mem page_e page_a ≡ page_a ∷ []
root_only =
    rw
      (space_pages_none layout trapped.mem page_e page_a 512 0
        (λ i lo hi. clear_word (slot page_a i) (omega arith))
        (λ i. clear_word (slot page_e i) (omega arith)))
      refl

trapped_space : task_page_table 0 trapped ≡ page_a
unfolding task_page_table mmu_satp_to_pgd mmu_make_satp
trapped_space = refl

trapped-Owns : Owns layout trapped page_a []
trapped-Owns = record {
  frees = record { chain = refl; distinct = tt; pages = tt };
  root = omega arith;
  pages = rw root_only (page_a-IsPage, tt);
  distinct = rw root_only (refl, tt);
  rootless = rw root_only refl;
  in_use = λ x h. refl;
}

sys_exit-Exited_example :
    Exited layout trapped
      (sys_exit layout no_image text 7 ender alone)
      (owned layout trapped.mem page_e (task_page_table 0 trapped))
      []
sys_exit-Exited_example =
    sys_exit-Exited layout no_image text 7 ender alone [] (omega arith) (omega arith) ender-IsHart
      (omega arith) (rw trapped_space trapped-Owns) (λ j ne. ground (arith, ne))
