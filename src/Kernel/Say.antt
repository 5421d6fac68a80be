-- ===== src/Kernel/Say.antt =====
-- `printf` as the kernel calls it: the bytes go to the serial line. The bytes themselves come from
-- the model of kernel/printf.c, and how a byte gets there is the matter of kernel/uart.c.
use riscvkernel_hit.Base.{◌≡◌, refl, ◌++◌, List, ℕ, Option, none, some, true}
use riscvkernel_hit.Printf.Defs.{Arg, codes, printf}
use riscvkernel_hit.Printf.Fits.{fits, printf-fits}
use riscvkernel_hit.Kernel.Defs.{Kernel, ok, fault, Cmd}
use Prim.Native.String.{String}

-- The bytes of `printf`, appended to what was sent.
unfoldable pub send : Option (List ℕ) → Cmd (Unit {0})
send none s = fault
send (some out) s = ok tt (record s { sent = s.sent ++ out })

unfoldable pub say : String → List Arg → Cmd (Unit {0})
unfolding send
say fmt args s = send (printf (codes fmt) args) s

-- A message whose directives find their arguments is sent, and nothing else changes.
pub say-ok :
    (fmt : String) (args : List Arg) (s : Kernel)
    → fits (codes fmt) args ≡ true
    → (out : List ℕ) × (say fmt args s ≡ ok tt (record s { sent = s.sent ++ out }))
unfolding say
say-ok fmt args s h = let (out, e) = printf-fits (codes fmt) args h in (out, rw e)

-- Whatever `printf` makes of a call is sent.
pub say_sends :
    (fmt : String) (args : List Arg) (out : List ℕ) (s : Kernel)
    → printf (codes fmt) args ≡ some out
    → say fmt args s ≡ ok tt (record s { sent = s.sent ++ out })
unfolding say
say_sends fmt args out s e = rw e refl
