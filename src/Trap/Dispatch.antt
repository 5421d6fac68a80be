-- ===== src/Trap/Dispatch.antt =====
-- What `trap_handler` does with each kind of trap that runs no system call.
use riscvkernel_hit.Base.{
  ℕ, ◌+◌, ◌-◌, ◌%◌, ◌^◌, ◌<◌, ◌≡◌, ◌≢◌, ◌⊎◌, inl, inr, refl, List, [], ◌∷◌, ◌++◌, Option, none,
  some, true, false, arith, Bool-cases, ◌==◌, ◌||◌, bit_and, bit_and_low, bit_and_high, ap, ◌∙◌,
}
use riscvkernel_hit.Printf.Defs.{word}
use riscvkernel_hit.Printf.Fits.{fits}
use riscvkernel_hit.Sched.Defs.{max_tasks}
use riscvkernel_hit.Sched.Pick.{IsFirstRunnable}
use riscvkernel_hit.Sched.Switch.{OnlyCurrentRuns}
use riscvkernel_hit.Kernel.Defs.{Kernel, Layout, Run, ok, switched, hung, current, ◌>>◌}
use riscvkernel_hit.Kernel.Say.{say-ok}
use riscvkernel_hit.Task.Defs.{task_yield}
use riscvkernel_hit.Task.Switching.{SwitchedTo, YieldsTo, halt_message, task_yield-YieldsTo}
use riscvkernel_hit.Exec.Elf.{Image}
use riscvkernel_hit.Trap.Reports.{FatalReport, page_fault-reports, panic-reports}
use riscvkernel_hit.Trap.Defs.{
  timer_freq, timer_load_next, find_syscall, handle_ecall, trap_handler,
}

-- The cause register of an interrupt and of an exception, taken apart.
cause_of_interrupt :
    (code : ℕ)
    → code < 2 ^ 63
    → ((bit_and (2 ^ 63 + code) (2 ^ 63) == 0) ≡ false)
      × (bit_and (2 ^ 63 + code) (2 ^ 63 - 1) ≡ code)
cause_of_interrupt code h = (
  ground (arith, bit_and_high 63 1 (2 ^ 63 + code)),
  omega (arith, bit_and_low 63 (2 ^ 63 + code)),
)

cause_of_exception :
    (code : ℕ)
    → code < 2 ^ 63
    → ((bit_and code (2 ^ 63) == 0) ≡ true) × (bit_and code (2 ^ 63 - 1) ≡ code)
cause_of_exception code h =
    (ground (arith, bit_and_high 63 1 code), omega (arith, bit_and_low 63 code))

module _ (l : Layout) (app : Image) (s : Kernel) (epc tval arg0 arg1 sys_num tf : ℕ) where
  -- The handler on this trap.
  abbrev handled : ℕ → Run ℕ
  handled cause = trap_handler l app cause epc tval arg0 arg1 sys_num tf s

  -- The kernel with the next tick set.
  abbrev pub ticked : Kernel
  ticked = record s { mtimecmp = (s.mtime + timer_freq) % 2 ^ 64 }

  abbrev pub TickEnds : Run ℕ → Option ℕ → Type 0
  TickEnds r none = r ≡ hung (record ticked { sent = s.sent ++ halt_message })
  TickEnds r (some next) =
      ((next ≡ current s) × (r ≡ ok epc ticked))
      ⊎ ((s' : Kernel) × (next ≢ current s)
          × (r ≡ switched (s.tasks next).ra s')
          × (s'.mtimecmp ≡ (s.mtime + timer_freq) % 2 ^ 64)
          × SwitchedTo next ticked s')

  tick-TickEnds :
      (picked : Option ℕ)
      → YieldsTo (timer_load_next s) (task_yield (timer_load_next s)) picked
      → handled (2 ^ 63 + 7) ≡ (task_yield >> ok epc) (timer_load_next s)
      → TickEnds (handled (2 ^ 63 + 7)) picked
  unfolding timer_load_next
  tick-TickEnds none e h = h ∙ rw e
  tick-TickEnds (some next) (inl (same, e)) h = inl (same, h ∙ rw e)
  tick-TickEnds (some next) (inr (s', ne, e, to)) h =
      inr (s', ne, h ∙ rw e, ap (λ k. k.mtimecmp) to.rest, to)

  -- If no task but the current one is marked as running, a timer interrupt sets the next one
  -- `timer_freq` ticks ahead, in all outcomes, and yields: to the first runnable task behind the
  -- current one, which then runs with its own registers, alone marked as running, while those of the
  -- interrupted task are saved and it is ready if it was running, with nothing else changed; back to
  -- the interrupted program counter if no other task is runnable, with nothing else changed; or, if
  -- none is at all, to a halt behind the message that all tasks have exited.
  pub trap_handler-TickEnds :
      OnlyCurrentRuns s.sched
      → (picked : Option ℕ) × IsFirstRunnable s.sched.task_states (current s) max_tasks picked
        × TickEnds (handled (2 ^ 63 + 7)) picked
  unfolding trap_handler timer_load_next
  trap_handler-TickEnds h =
      let (picked, first, ends) = task_yield-YieldsTo (timer_load_next s) h in
      (picked, first, tick-TickEnds picked ends refl)

  -- Every other interrupt returns to where it struck, and changes nothing.
  pub trap_handler-other_interrupt :
      (code : ℕ) → code < 2 ^ 63 → code ≢ 7 → handled (2 ^ 63 + code) ≡ ok epc s
  unfolding trap_handler
  trap_handler-other_interrupt code h ne =
      let (bit, rest) = cause_of_interrupt code h in
      let other : (code == 7) ≡ false = ground (arith, ne) in rw (bit, rest, other)

  -- An environment call with a number that is none of the six of the table is reported, skipped
  -- and of no other effect.
  pub trap_handler-unimplemented :
      (code : ℕ)
      → (code ≡ 8) ⊎ (code ≡ 11)
      → sys_num ≢ 63
      → sys_num ≢ 64
      → sys_num ≢ 93
      → sys_num ≢ 124
      → sys_num ≢ 220
      → sys_num ≢ 221
      → (out : List ℕ) × (handled code
          ≡ ok ((epc + 4) % 2 ^ 64) (record s { sent = s.sent ++ out }))
  unfolding trap_handler
  trap_handler-unimplemented code is_call n₁ n₂ n₃ n₄ n₅ n₆ =
      let (bit, rest) = cause_of_exception code (ground arith) in
      let call : (code == 8 || code == 11) ≡ true = ground arith in
      let missing : find_syscall sys_num ≡ none = unfold find_syscall in ground arith in
      let (out, e) =
        say-ok "\n[KERNEL] Unimplemented syscall number: %d\n" (word sys_num ∷ []) s
          (unfold fits in refl) in
      (out, rw (bit, rest, call) (rw (missing, handle_ecall) (rw e)))

  -- Every exception that is no environment call ends the kernel: the handler never returns, and
  -- what it writes is the report of a page fault, with the cause, the address and the program
  -- counter, for the three causes of those, and that of a panic, with the low 32 bits of the cause
  -- as an `int` and the program counter, for all others; nothing else in the kernel changes.
  pub trap_handler-fatal :
      (code : ℕ)
      → code < 2 ^ 63
      → code ≢ 8
      → code ≢ 11
      → (out : List ℕ) × (handled code ≡ hung (record s { sent = s.sent ++ out }))
        × FatalReport code tval epc out
  unfolding trap_handler
  trap_handler-fatal code h n₁ n₂ =
      let (bit, rest) = cause_of_exception code h in
      let no_call : (code == 8 || code == 11) ≡ false = ground (arith, n₁, n₂) in
      elim (Bool-cases (code == 12 || code == 13 || code == 15)) [
        | inl fault ↦
            let (out, e, report) = page_fault-reports code tval epc s in
            (out, rw (bit, rest, no_call, fault) e, rw fault report)
        | inr other ↦
            let (out, e, report) = panic-reports code epc s in
            (out, rw (bit, rest, no_call, other) e, rw other report)
      ]
