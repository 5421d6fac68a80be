-- ===== src/Tests/Traps.antt =====
-- Traps on the tasks of `some_sched`.
use riscvkernel_hit.Base.{ℕ, ◌+◌, ◌^◌, ◌≡◌, List, [], ◌++◌, Option, arith}
use riscvkernel_hit.Sched.Defs.{max_tasks}
use riscvkernel_hit.Sched.Pick.{IsFirstRunnable}
use riscvkernel_hit.Sched.Switch.{OnlyCurrentRuns}
use riscvkernel_hit.Kernel.Defs.{hung}
use riscvkernel_hit.Exec.Elf.{Image}
use riscvkernel_hit.Trap.Defs.{trap_handler}
use riscvkernel_hit.Trap.Reports.{FatalReport}
use riscvkernel_hit.Trap.Dispatch.{TickEnds, trap_handler-TickEnds, trap_handler-fatal}
use riscvkernel_hit.Tests.States.{layout, some_states, some_sched, two_pages, zeroes}

abbrev pub no_image : Image
no_image = record { bytes = zeroes; len = 0 }

abbrev frame : ℕ
frame = 0x8000_8F00

some_sched-alone : OnlyCurrentRuns some_sched
some_sched-alone j ne = ground (arith, ne)

trap_handler-TickEnds_example :
    (picked : Option ℕ) × IsFirstRunnable some_states 0 max_tasks picked
    × TickEnds layout no_image two_pages 0x1000 0 0 0 0 frame
        (trap_handler layout no_image (2 ^ 63 + 7) 0x1000 0 0 0 0 frame two_pages)
        picked
trap_handler-TickEnds_example =
    trap_handler-TickEnds layout no_image two_pages 0x1000 0 0 0 0 frame some_sched-alone

trap_handler-fatal_example :
    (out : List ℕ) × (trap_handler layout no_image 13 0x1000 0xdead 0 0 0 frame two_pages
      ≡ hung (record two_pages { sent = [] ++ out }))
    × FatalReport 13 0xdead 0x1000 out
trap_handler-fatal_example =
    trap_handler-fatal layout no_image two_pages 0x1000 0xdead 0 0 0 frame 13 (omega arith)
      (omega arith) (omega arith)
