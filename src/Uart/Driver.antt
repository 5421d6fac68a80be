-- ===== src/Uart/Driver.antt =====
-- The driver against a device that is busy for a while: what it sends, and when it returns.
use mathlib.Core.List.{append-nil, append_assoc}
use riscvkernel_hit.Base.{
  ℕ, suc, ◌+◌, ◌≤◌, ◌<◌, ◌≡◌, inl, inr, refl, ap, List, [], ◌∷◌, ◌++◌, none, some, bit_and, ◌==◌,
  arith, length, Bool-cases, if◌then◌else◌,
}
use riscvkernel_hit.Uart.Defs.{
  Uart, lsr_empty_mask, lsr_ready_mask, poll, uart_putc, uart_puts, uart_getc, read_rhr,
}

-- How many of the statuses that the device will give have the bit.
unfoldable pub ready_count : ℕ → List ℕ → ℕ
ready_count mask [] = 0
ready_count mask (status ∷ later) =
    if bit_and status mask == 0 then ready_count mask later else suc (ready_count mask later)

-- A poll takes the statuses up to the first one with the bit.
poll-ready :
    (mask : ℕ) (lsr : List ℕ)
    → 0 < ready_count mask lsr
    → (later : List ℕ) × (poll mask lsr ≡ some later)
      × (ready_count mask lsr ≡ suc (ready_count mask later))
unfolding poll ready_count
poll-ready mask [] h = absurd (omega arith)
poll-ready mask (status ∷ later) h = elim (Bool-cases (bit_and status mask == 0)) [
  | inl busy ↦
      let (rest, e, n) = poll-ready mask later (rw busy at h) in (rest, rw busy e, rw busy n)
  | inr free ↦ (later, rw free, rw free)
]

poll-none : (mask : ℕ) (lsr : List ℕ) → ready_count mask lsr ≡ 0 → poll mask lsr ≡ none
unfolding poll ready_count
poll-none mask [] h = refl
poll-none mask (status ∷ later) h = elim (Bool-cases (bit_and status mask == 0)) [
  | inl busy ↦ rw busy (poll-none mask later (rw busy at h))
  | inr free ↦ absurd (ground (arith, h, free))
]

-- If the device becomes free at least as often as the text has bytes, `uart_puts` returns, and has
-- sent the bytes of the text, all and in order, each in a free moment of its own; the bytes to be
-- received are untouched.
pub uart_puts-sends :
    (str : List ℕ) (u : Uart)
    → length str ≤ ready_count lsr_empty_mask u.lsr
    → (later : List ℕ) × (uart_puts str u ≡ some (record u { lsr = later; thr = u.thr ++ str }))
      × (ready_count lsr_empty_mask u.lsr ≡ length str + ready_count lsr_empty_mask later)
unfolding uart_puts
uart_puts-sends [] u h = (u.lsr, ap (λ t. some (record u { thr = t })) (rw append-nil), omega arith)
uart_puts-sends (c ∷ str) u h =
    let (later, e, n) = poll-ready lsr_empty_mask u.lsr (omega arith) in
    let sent : uart_putc c u ≡ some (record u { lsr = later; thr = u.thr ++ c ∷ [] }) =
      unfold uart_putc in rw (e, uart_putc) in
    let (rest, e', n') =
      uart_puts-sends str (record u { lsr = later; thr = u.thr ++ c ∷ [] }) (omega (arith, n)) in
    (
      rest,
      rw (sent, uart_puts)
          (rw e'
            (ap (λ t. some (record u { lsr = rest; thr = t })) (append_assoc u.thr (c ∷ []) str))),
      omega (arith, n, n'),
    )

-- If the device becomes free less often than the text has bytes, `uart_puts` does not return on
-- these statuses.
pub uart_puts-polls :
    (str : List ℕ) (u : Uart)
    → ready_count lsr_empty_mask u.lsr < length str
    → uart_puts str u ≡ none
unfolding uart_puts
uart_puts-polls [] u h = absurd (omega arith)
uart_puts-polls (c ∷ str) u h = elim (Bool-cases (ready_count lsr_empty_mask u.lsr == 0)) [
  | inl never ↦
      let stuck : uart_putc c u ≡ none =
        unfold uart_putc in rw (poll-none lsr_empty_mask u.lsr (ground arith), uart_putc) in
      rw (stuck, uart_puts)
  | inr some_time ↦
      let (later, e, n) = poll-ready lsr_empty_mask u.lsr (ground arith) in
      let sent : uart_putc c u ≡ some (record u { lsr = later; thr = u.thr ++ c ∷ [] }) =
        unfold uart_putc in rw (e, uart_putc) in
      rw (sent, uart_puts)
        (uart_puts-polls str (record u { lsr = later; thr = u.thr ++ c ∷ [] }) (omega (arith, n)))
]

-- `uart_getc` with a byte at hand: it waits for the ready bit, takes the oldest byte out of the
-- device and returns it, and sends nothing.
pub uart_getc-takes :
    (c : ℕ) (rest : List ℕ) (u : Uart)
    → u.rhr ≡ c ∷ rest
    → 0 < ready_count lsr_ready_mask u.lsr
    → (later : List ℕ) × (uart_getc u ≡ some (c, record u { lsr = later; rhr = rest }))
      × (ready_count lsr_ready_mask u.lsr ≡ suc (ready_count lsr_ready_mask later))
unfolding uart_getc
uart_getc-takes c rest u here h =
    let (later, e, n) = poll-ready lsr_ready_mask u.lsr h in
    (later, rw (e, uart_getc) (rw (here, read_rhr)), n)
