-- ===== src/Tests/States.antt =====
-- A kernel at rest, the addresses of a small image, and a memory with two free pages.
use riscvkernel_hit.Base.{ℕ, ◌+◌, refl, [], ◌∷◌, arith, ◌==◌, if◌then◌else◌}
use riscvkernel_hit.Memory.Defs.{Mem, read64, write64}
use riscvkernel_hit.Sched.Defs.{Sched, TaskState}
use riscvkernel_hit.Kernel.Defs.{Context, Kernel, Layout}
use riscvkernel_hit.Page.FreeList.{IsPage, FreeList}

abbrev pub layout : Layout
layout = record {
  kernel_end = 0x8001_0000;
  text_start = 0x8000_0000;
  text_end = 0x8000_5000;
  rodata_start = 0x8000_5000;
  rodata_end = 0x8000_6000;
  task_kernel_stacks = 0x8000_8000;
  trap_return = 0x8000_0100;
  trap_vector = 0x8000_0200;
  task_shell = 0x8000_0300;
}

-- All registers alike.
abbrev pub context : ℕ → Context
context n = record {
  ra = n;
  sp = n;
  s0 = n;
  s1 = n;
  s2 = n;
  s3 = n;
  s4 = n;
  s5 = n;
  s6 = n;
  s7 = n;
  s8 = n;
  s9 = n;
  s10 = n;
  s11 = n;
  satp = n;
}

-- Task 0 runs, task 1 sleeps, task 2 is ready, and slot 3 is free.
abbrev pub some_states : ℕ → TaskState
some_states n =
    if n == 0
    then TaskState.running
    else if n == 1
    then TaskState.sleeping
    else if n == 2
    then TaskState.ready
    else TaskState.dead

abbrev pub some_sched : Sched
some_sched = record { current_task = 0; task_states = some_states }

abbrev pub kernel : Mem → ℕ → Kernel
kernel m head = record {
  mem = m;
  free_list = head;
  root_page_table = 0;
  sched = some_sched;
  tasks = λ n. context (100 + n);
  task_user_stacks = λ _. 0;
  cpu = context 7;
  csrs = record { mie = 0; mstatus = 0; mtvec = 0; pmpaddr0 = 0; pmpcfg0 = 0 };
  mtime = 5;
  mtimecmp = 0;
  received = b'a' ∷ b'b' ∷ [];
  sent = [];
}

abbrev pub zeroes : Mem
zeroes _ = 0

abbrev pub page_a : ℕ
page_a = 0x8010_0000

abbrev pub page_b : ℕ
page_b = 0x8010_1000

abbrev pub page_c : ℕ
page_c = 0x8010_2000

-- The page `page_a` leads to `page_b`, and that to the end.
abbrev pub linked : Mem
linked = write64 zeroes page_a page_b

abbrev pub two_pages : Kernel
two_pages = kernel linked page_a

pub page_a-IsPage : IsPage layout page_a
page_a-IsPage = omega arith

pub page_b-IsPage : IsPage layout page_b
page_b-IsPage = omega arith

pub page_c-IsPage : IsPage layout page_c
page_c-IsPage = omega arith

pub two_pages-FreeList : FreeList layout linked page_a (page_a ∷ page_b ∷ [])
unfolding read64 write64
two_pages-FreeList = record {
  chain = (refl, (refl, refl));
  distinct = (refl, (refl, tt));
  pages = (page_a-IsPage, (page_b-IsPage, tt));
}

pub empty-FreeList : FreeList layout zeroes 0 []
empty-FreeList = record { chain = refl; distinct = tt; pages = tt }
