-- ===== src/Printf/Number.antt =====
-- `print_num` writes a numeral that reads back to the number, and never leaves `buf[64]`.
use native.Mathlib.Nat.{div-add-mod', div-lt_iff_lt-mul, pow-zero, pow-suc, pow-le-pow_left}
use riscvkernel_hit.Base.{
  ℕ, zero, suc, ◌+◌, ◌-◌, ◌*◌, ◌/◌, ◌%◌, ◌^◌, ◌≤◌, ◌<◌, ◌≡◌, ◌≢◌, ◌⊎◌, inl, inr, refl, sym, ◌∙◌,
  All, List, [], ◌∷◌, some, Bool, arith, ◌==◌, ltb, leb, ◌&&◌, if◌then◌else◌, Bool-cases,
}
use riscvkernel_hit.Printf.Defs.{digit, digit_loop, print_magnitude, print_num, buf_size}

-- The value of a digit character, and of a numeral in a base, read from the left.
abbrev pub digit_value : ℕ → ℕ
digit_value c = if ltb c b'a' then c - b'0' else c - b'a' + 10

unfoldable pub read_digits : ℕ → ℕ → List ℕ → ℕ
read_digits base acc [] = acc
read_digits base acc (c ∷ cs) = read_digits base (acc * base + digit_value c) cs

digit_value-digit : (d : ℕ) → d < 16 → digit_value (digit d) ≡ d
unfolding digit
digit_value-digit d h = ground arith

-- A character "0" to "9", or "a" to "f", of a digit below the base.
abbrev pub IsDigit : ℕ → ℕ → Type 0
IsDigit base c = ((b'0' ≤ c) × (c ≤ b'9') ⊎ (b'a' ≤ c) × (c ≤ b'f')) × (digit_value c < base)

-- There is a first character, and it is not "0".
abbrev pub Leads : List ℕ → Type 0
Leads [] = ⊥
Leads (c ∷ cs) = c ≢ b'0'

-- The numeral of `num`: digits of the base that read back to it, at least one of them, and without
-- a leading zero unless it is "0" itself.
pub record IsNumeral (base num : ℕ) (out : List ℕ) : Type 0 where
  pub reads : read_digits base 0 out ≡ num
  pub digits : All (IsDigit base) out
  pub shape : Leads out ⊎ (out ≡ b'0' ∷ [])

digit-IsDigit : (base d : ℕ) → d < base → base ≤ 16 → IsDigit base (digit d)
unfolding digit
digit-IsDigit base d small sixteen = ground arith

digit-Leads : (d : ℕ) → d < 16 → d ≢ 0 → digit d ≢ b'0'
unfolding digit
digit-Leads d small ne = ground arith

module _ (base : ℕ) (two : 2 ≤ base) (sixteen : base ≤ 16) where
  div-lt-pow : (num room : ℕ) → num < base ^ suc room → num / base < base ^ room
  div-lt-pow num room h =
      let bound : num < base ^ room * base = rw pow-suc at h in
      (div-lt_iff_lt-mul {k = base} {x = num} {y = base ^ room} (omega arith)).1 bound

  read-last : (num : ℕ) → num / base * base + digit_value (digit (num % base)) ≡ num
  read-last num =
      let small : num % base < base = omega arith in
      rw (digit_value-digit (num % base) (omega arith)) (div-add-mod' num base)

  read-digit :
      (num : ℕ) (buf : List ℕ)
      → read_digits base (num / base) (digit (num % base) ∷ buf) ≡ read_digits base num buf
  unfolding read_digits
  read-digit num buf = rw (read-last num)

  -- The last digit to be found is not 0.
  first_digit : (num : ℕ) → num / base ≡ 0 → num ≢ 0 → num % base ≢ 0
  first_digit num last ne e = ne (sym (div-add-mod' num base) ∙ rw (last, e) (omega arith))

  -- Given a free cell for each digit, the loop ends and adds the digits of `num` in front, the
  -- first of them not 0, each of them a digit of the base.
  digit_loop-reads :
      (room num : ℕ) (buf : List ℕ)
      → num < base ^ room
      → All (IsDigit base) buf
      → (num ≡ 0 → Leads buf)
      → (out : List ℕ) × (digit_loop room num base buf ≡ some out)
        × (read_digits base 0 out ≡ read_digits base num buf)
        × All (IsDigit base) out
        × Leads out
  unfolding digit_loop
  digit_loop-reads zero num buf h ds lead =
      let none_left : num ≡ 0 = omega (arith, pow-zero base) in
      (buf, rw none_left, rw none_left, ds, lead none_left)
  digit_loop-reads (suc room) num buf h ds lead = elim (Bool-cases (num == 0)) [
    | inl done ↦
        let none_left : num ≡ 0 = ground arith in (buf, rw done, rw none_left, ds, lead none_left)
    | inr more ↦
        let d : ℕ = num % base in
        let small : d < base = omega arith in
        let (out, e, reads, ds', lead') =
          digit_loop-reads room (num / base) (digit d ∷ buf) (div-lt-pow num room h)
            (digit-IsDigit base d small sixteen, ds)
            (λ last.
              digit-Leads d (omega (arith, sixteen)) (first_digit num last (ground arith))) in
        (out, rw more e, reads ∙ read-digit num buf, ds', lead')
  ]

  pow-fits : (num : ℕ) → num < 2 ^ 64 → num < base ^ buf_size
  pow-fits num h = omega (arith, h, pow-le-pow_left two 64)

  print_magnitude-reads :
      (num : ℕ)
      → num < 2 ^ 64
      → (out : List ℕ) × (print_magnitude num base ≡ some out) × IsNumeral base num out
  unfolding print_magnitude read_digits
  print_magnitude-reads num h = elim (Bool-cases (num == 0)) [
    | inl done ↦ (
      b'0' ∷ [],
      rw done,
      record { reads = ground arith; digits = (omega arith, tt); shape = inr refl },
    )
    | inr more ↦
        let (out, e, reads, ds, lead) =
          digit_loop-reads buf_size num [] (pow-fits num h) tt
            (λ none_left. absurd (ground arith)) in
        (out, rw more e, record { reads = reads; digits = ds; shape = inl lead })
  ]

-- The text of a number: an optional minus sign and a numeral.
abbrev pub Reads : ℕ → ℕ → Bool → List ℕ → Type 0
Reads base num sign out =
    if sign && leb (2 ^ 63) num
    then ((rest : List ℕ) × (out ≡ b'-' ∷ rest) × IsNumeral base (2 ^ 64 - num) rest)
    else IsNumeral base num out

-- For every 64-bit number and every base from 2 to 16, `print_num` stays within its 64 byte
-- buffer, ends, and writes its numeral: at least one digit, all of them digits of the base, no
-- leading zero but in "0" itself, and they read back to the number; a number that is negative as a
-- `long`, printed with a sign, is written as '-' and the numeral of its absolute value.
pub print_num-Reads :
    (num base : ℕ) (sign : Bool)
    → num < 2 ^ 64
    → 2 ≤ base
    → base ≤ 16
    → (out : List ℕ) × (print_num num base sign ≡ some out) × Reads base num sign out
unfolding print_num
print_num-Reads num base sign h two sixteen = elim (Bool-cases (sign && leb (2 ^ 63) num)) [
  | inl negative ↦
      let (out, e, reads) = print_magnitude-reads base two sixteen (2 ^ 64 - num) (ground arith) in
      (b'-' ∷ out, rw (negative, e), rw negative (out, refl, reads))
  | inr positive ↦
      let (out, e, reads) = print_magnitude-reads base two sixteen num h in
      (out, rw (positive, e), rw positive reads)
]
