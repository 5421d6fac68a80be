-- ===== src/Tests/Lines.antt =====
-- Numbers, formats and texts on the serial line.
use riscvkernel_hit.Base.{ℕ, ◌+◌, ◌-◌, ◌^◌, ◌≡◌, refl, List, [], ◌∷◌, ◌++◌, some, Bool, true, arith}
use riscvkernel_hit.Printf.Defs.{Arg, codes, word, text, digit_loop, print_num, printf}
use riscvkernel_hit.Printf.Number.{Reads, print_num-Reads}
use riscvkernel_hit.Printf.Fits.{fits, printf-fits}
use riscvkernel_hit.Uart.Defs.{Uart, lsr_empty_mask, uart_puts}
use riscvkernel_hit.Uart.Driver.{ready_count, uart_puts-sends}

prints_hex : print_num 48879 16 Bool.false ≡ some (codes "beef")
unfolding print_num codes digit_loop
prints_hex = refl

print_num-Reads_example :
    (out : List ℕ) × (print_num (2 ^ 64 - 42) 10 true ≡ some out) × Reads 10 (2 ^ 64 - 42) true out
print_num-Reads_example =
    print_num-Reads (2 ^ 64 - 42) 10 true (omega arith) (omega arith) (omega arith)

abbrev two_args : List Arg
two_args = text (codes "init") ∷ word 42 ∷ []

two_fit : fits (codes "task %s: %d%%\n") two_args ≡ true
unfolding fits
two_fit = refl

printf-fits_example : (out : List ℕ) × (printf (codes "task %s: %d%%\n") two_args ≡ some out)
printf-fits_example = printf-fits (codes "task %s: %d%%\n") two_args two_fit

-- Busy, free, busy, free.
abbrev line : Uart
line = record { lsr = 0 ∷ 0x60 ∷ 0 ∷ 0x20 ∷ []; rhr = []; thr = [] }

two_free : ready_count lsr_empty_mask line.lsr ≡ 2
unfolding ready_count
two_free = refl

uart_puts-sends_example :
    (later : List ℕ) × (uart_puts (codes "ok") line
      ≡ some (record line { lsr = later; thr = [] ++ (codes "ok") }))
    × (ready_count lsr_empty_mask line.lsr ≡ 2 + ready_count lsr_empty_mask later)
uart_puts-sends_example = uart_puts-sends (codes "ok") line (omega (arith, two_free))
