-- ===== src/Trap/Stages.antt =====
-- The stages of `os_main`: its calls one after the other, and the jump to the first process.
use riscvkernel_hit.Base.{ℕ, ◌+◌, ◌-◌, ◌%◌, ◌^◌, ◌≡◌, refl, List, [], ◌++◌, bit_or}
use riscvkernel_hit.Printf.Fits.{fits}
use riscvkernel_hit.Sched.Defs.{TaskState}
use riscvkernel_hit.Kernel.Defs.{
  Kernel, Layout, ok, switched, Cmd, gets, modify, current, set_state, ◌>>=◌, ◌>>◌,
}
use riscvkernel_hit.Kernel.Say.{say, say-ok}
use riscvkernel_hit.Page.Defs.{page_init}
use riscvkernel_hit.Mmu.Defs.{mmu_init}
use riscvkernel_hit.Task.Defs.{get_task_satp, set_sp, task_wrapper}
use riscvkernel_hit.Task.Process.{task_init}
use riscvkernel_hit.Trap.Defs.{timer_freq, timer_load_next, timer_init, load_satp, os_main}

timer_init-ok :
    (s : Kernel)
    → (out : List ℕ) × (timer_init s
        ≡ ok tt (record s {
          mtimecmp = (s.mtime + timer_freq) % 2 ^ 64;
          csrs = record (s.csrs) {
            mie = bit_or s.csrs.mie (2 ^ 7);
            mstatus = bit_or s.csrs.mstatus (2 ^ 3);
          };
          sent = s.sent ++ out;
        }))
unfolding timer_init timer_load_next fits
timer_init-ok s = say-ok "[SYS] CLINT Timer initialized. Heartbeat started.\n" [] _ refl

-- `os_main` behind `task_init`.
pub hand_over : Layout → Cmd (Unit {0})
hand_over l = do
  timer_init
  say "[SYS] System Initialization Complete. Giving up privileges...\n\n" []
  satp ← gets (get_task_satp 0)
  modify (load_satp satp)
  task_wrapper l

-- The kernel that it leaves in, with the registers of task 0 and the timer.
abbrev pub handed : Layout → Kernel → List ℕ → Kernel
handed l k out = set_sp (k.tasks (current k)).sp (
    set_state (current k) TaskState.running (record k {
      mtimecmp = (k.mtime + timer_freq) % 2 ^ 64;
      csrs = record (k.csrs) {
        mie = bit_or k.csrs.mie (2 ^ 7);
        mstatus = bit_or k.csrs.mstatus (2 ^ 3);
      };
      cpu = record (k.cpu) { satp = (k.tasks 0).satp };
      sent = out;
    }))

pub hand_over-switched :
    (l : Layout) (k : Kernel)
    → (out : List ℕ) × (hand_over l k ≡ switched l.trap_return (handed l k out))
unfolding hand_over task_wrapper get_task_satp fits
hand_over-switched l k =
    let (tick, e) = timer_init-ok k in
    let ticking : Kernel = record k {
      mtimecmp = (k.mtime + timer_freq) % 2 ^ 64;
      csrs = record (k.csrs) {
        mie = bit_or k.csrs.mie (2 ^ 7);
        mstatus = bit_or k.csrs.mstatus (2 ^ 3);
      };
      sent = k.sent ++ tick;
    } in
    let (bye, e') =
      say-ok "[SYS] System Initialization Complete. Giving up privileges...\n\n" [] ticking refl in
    ((k.sent ++ tick) ++ bye, rw (e, e') refl)

-- The control registers that `os_main` sets behind `mmu_init`.
abbrev pub with_csrs : Layout → Kernel → Kernel
with_csrs l s = record s {
  csrs = record (s.csrs) { mtvec = l.trap_vector; pmpaddr0 = 2 ^ 64 - 1; pmpcfg0 = 0x1f };
}

pub os_main-stages :
    (l : Layout) (s s₁ s₂ s₃ k : Kernel)
    → say "\n[SYS] riscv OS: Syscall & Privilege Drop Booting...\n" [] s ≡ ok tt s₁
    → page_init l s₁ ≡ ok tt s₂
    → mmu_init s₂ ≡ ok tt s₃
    → task_init l 0 l.task_shell (with_csrs l s₃) ≡ ok tt k
    → os_main l s ≡ hand_over l k
unfolding os_main hand_over
os_main-stages l s s₁ s₂ s₃ k e₁ e₂ e₃ e₄ = rw (e₁, e₂, e₃, e₄) refl
