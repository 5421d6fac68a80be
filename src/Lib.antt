-- ===== src/Lib.antt =====
-- A model of a small RISC-V kernel: a page allocator, Sv39 page tables, a round-robin scheduler,
-- user processes with fork, exec and exit, a mutex, system calls and a serial line.
--
-- Parts, and the files that model them:
--   Memory      physical memory as a function from addresses to bytes, with 64-bit loads and stores
--   Printf      kernel/printf.c: the bytes that `printf` writes
--   Sched       kernel/sched.c and sched.h: the choice of the next task, the states of the tasks
--   Kernel      the globals of all files, the processor and the devices as one record, and commands
--               over it; Kernel/Say is `printf` as the kernel calls it
--   Page        kernel/page.c: the allocator, whose free list lies in the free pages themselves;
--               Page/Uses is a user of it, with any sequence of calls
--   Mmu         kernel/mmu.c and mmu.h: entries, the walk, mapping, the copy and the release of an
--               address space; Mmu/Identity, Maps, Init and Boot follow `mmu_init`; Mmu/Lookup is the
--               translation that the hardware makes, Mmu/Owned the list of the pages of a space,
--               Mmu/Access what a load, a store or a fetch of a program finds at an address, by the
--               permissions of the entry, and Mmu/Copy the copy of a space
--   Task        kernel/task.c, context.h, trapframe.h, switch.S and user_layout.h: processes
--               Task/Start, Ranges, Fresh, Maps, Space, Init and Created follow `task_init`
--   Uart        kernel/uart.c: the driver of the serial line
--   Exec        kernel/exec.c and elf.h: the check of an executable and its loader; Exec/Fill, Pages,
--               Segments and Space follow the loader from a byte of a page to the whole image; Exec/Alias
--               and Top are about what the check misses
--   Trap        kernel/trap_handler.c, timer.c and `os_main` of kernel/main.c
--               Trap/Reports is about the lines of a fatal error; Trap/Stages and Boot follow `os_main`
--               to the first process
--   Entry       kernel/trap.S: from a program's registers to the handler and back
--   User        kernel/user_lib.c, syscall.h and `task_shell` of kernel/main.c: system calls from a
--               program's side
--   Spinlock    kernel/spinlock.c and spinlock.h
--   Mutex       kernel/mutex.c, with the swaps of its guard as steps
--   Shell       user/app.c: the line editor and the commands of the shell
--   Tests       concrete kernels, and the theorems applied to them
--
-- How the parts interact: a program's `ecall` (User) goes through `trap_vector` (Entry) to
-- `trap_handler`, which calls the system calls, the timer and `task_yield`; the processes are built
-- by Task and Exec from pages of Page and mapped by Mmu; Sched picks the next process, and
-- `switch_to` exchanges the registers. The bytes of messages are those of Printf; the line on which
-- they go out is the field `sent`, and how the driver waits for the device is the matter of Uart. A
-- definition has the name of the C function that it models; a loop of it, or the part of it behind
-- a test, has a name of its own, with a comment that says what it is.
--
-- State and control: the kernel runs on one processor in machine mode with interrupts off in the
-- handler, so a C function is a command, a function from the kernel's state to `Run`: it returns; or
-- it leaves for the code of another task at `switch_to`, with the address in the register `ra`; or
-- it loops for ever, as after a fatal error; or it does what C leaves undefined. A series of
-- switches, until the task that was left runs again, is a function of Task/Switching. Only the
-- mutex is modelled with interleavings, as a step relation with a step for each access to `locked`,
-- `guard` and `owner_id`; a round of `wake_one`, which reads the state of a task and sets it, is one
-- step.
--
-- Numbers: 64-bit words are natural numbers, reduced by `% 2 ^ 64` wherever the C code wraps; `int`
-- counters that stay small are not reduced. Memory is a total function: an access outside RAM is
-- not a fault in the model, and a theorem says which addresses an operation touches where it
-- matters. Memory is physical and untranslated, as it is for the kernel in machine mode.
--
-- Loops: those over arrays are recursion on the rounds left. The loops over the pages of RAM have
-- fuel: `page_init` and the count of free pages have a round for each page of RAM and one more, in
-- which they find their end; the loops over a range of addresses (`map_range`, `map_identity`,
-- `load_pages`) are given one round more than the range has pages, since each round moves on by a
-- page. The loops of the serial driver take the statuses that the device will give as a list, and
-- answer `none` when it is used up; `spin_lock` does so with the lists of what other processors do in
-- front of each of its tries.
--
-- Pages: `mmu_init` takes at most 135 pages, and `task_init` 14 and two for each further 2 MB of the
-- image's code and of its constants (`space_pages`, with the root and the stack); a theorem about
-- them asks for that many free ones.
--
-- Parameters: the addresses that the linker script and the assembler define (`Layout`), and the
-- embedded executable of the generated file user/app_bin.h (`Image`).
--
-- Not modelled: kernel/boot.S, which sets the first stack; what a program does between its system
-- calls; what `mret` makes of `mstatus`; the TLB and its fences; the number of ticks that code
-- takes.
pub mod Base
pub mod Memory
pub mod Printf
pub mod Spinlock
pub mod Sched
pub mod Kernel
pub mod Page
pub mod Mmu
pub mod Task
pub mod Uart
pub mod Exec
pub mod Trap
pub mod Entry
pub mod User
pub mod Mutex
pub mod Shell
mod Tests
