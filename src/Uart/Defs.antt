-- ===== src/Uart/Defs.antt =====
-- The registers of the device as the driver sees them, and the driver's loops.
use riscvkernel_hit.Base.{ℕ, bit_and, List, [], ◌∷◌, ◌++◌, Option, none, some, ◌==◌, if◌then◌else◌}

-- What the device will answer to the reads of its line status register, the bytes that it will
-- deliver, and the bytes that were written to its transmit register.
pub record Uart : Type 0 where
  pub lsr : List ℕ
  pub rhr : List ℕ
  pub thr : List ℕ

abbrev pub lsr_empty_mask : ℕ
lsr_empty_mask = 0x20

abbrev pub lsr_ready_mask : ℕ
lsr_ready_mask = 0x01

-- `while ((*UART0_LSR & mask) == 0) { }`: the statuses that are left once one has the bit. `none`
-- if no status of the list has it, and the driver still polls.
unfoldable pub poll : ℕ → List ℕ → Option (List ℕ)
poll mask [] = none
poll mask (status ∷ later) =
    let rest = poll mask later in if bit_and status mask == 0 then rest else some later

unfoldable pub uart_putc : ℕ → Uart → Option Uart
unfolding poll
uart_putc c u = elim (poll lsr_empty_mask u.lsr) [
  | none ↦ none
  | some later ↦ some (record u { lsr = later; thr = u.thr ++ c ∷ [] })
]

-- `uart_puts`, on the bytes in front of the terminating NUL.
unfoldable pub uart_puts : List ℕ → Uart → Option Uart
uart_puts [] u = some u
uart_puts (c ∷ str) u = elim (uart_putc c u) [ none ↦ none | some u' ↦ uart_puts str u' ]

-- `return *UART0_RHR`: the read takes the byte out of the device. `none` if it has none to give.
unfoldable pub read_rhr : List ℕ → Uart → Option (ℕ × Uart)
read_rhr [] u = none
read_rhr (c ∷ rest) u = some (c, record u { rhr = rest })

unfoldable pub uart_getc : Uart → Option (ℕ × Uart)
unfolding poll read_rhr
uart_getc u = elim (poll lsr_ready_mask u.lsr) [
  | none ↦ none
  | some later ↦ read_rhr u.rhr (record u { lsr = later })
]
