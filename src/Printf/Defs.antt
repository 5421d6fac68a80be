-- ===== src/Printf/Defs.antt =====
-- kernel/printf.c: the bytes that `print_num` and `printf` hand to `uart_putc`.
use mathlib.Core.Option
use Prim.Native.Char.{code}
use Prim.Native.String.{String}
use riscvkernel_hit.Base.{
  ℕ, zero, suc, ◌+◌, ◌-◌, ◌/◌, ◌%◌, ◌^◌, List, [], ◌∷◌, ◌++◌, Option, none, some, Bool, true, false,
  ◌==◌, ltb, leb, ◌&&◌, if◌then◌else◌,
}

-- The bytes of a text literal.
abbrev pub codes : String → List ℕ
codes String.[] = []
codes (String.◌∷◌ c s) = code c ∷ codes s

-- `digits[d]` of "0123456789abcdef"
unfoldable pub digit : ℕ → ℕ
digit d = if ltb d 10 then b'0' + d else b'a' + (d - 10)

abbrev pub buf_size : ℕ
buf_size = 64

-- The conversion loop. `buf` holds the digits so far, the last one written first, so that popping
-- `buf[--i]` walks it from its head. The recursion is on the free cells of `buf[64]`, and `none`
-- is a write behind its end.
unfoldable pub digit_loop : ℕ → ℕ → ℕ → List ℕ → Option (List ℕ)
unfolding digit
digit_loop zero num base buf = if num == 0 then some buf else none
digit_loop (suc room) num base buf =
    let rest = digit_loop room (num / base) base (digit (num % base) ∷ buf) in
    if num == 0 then some buf else rest

-- The digits of a number that needs no sign.
unfoldable pub print_magnitude : ℕ → ℕ → Option (List ℕ)
print_magnitude num base = if num == 0 then some (b'0' ∷ []) else digit_loop buf_size num base []

-- `print_num`: `num` is a 64-bit pattern, negative as a `long` from 2 ^ 63 on. The negation of
-- LONG_MIN, which C leaves undefined, wraps here; `%d` prints an `int` and never gets there.
unfoldable pub print_num : ℕ → ℕ → Bool → Option (List ℕ)
unfolding print_magnitude
print_num num base sign =
    if sign && leb (2 ^ 63) num
    then Option.map (λ out. b'-' ∷ out) (print_magnitude (2 ^ 64 - num) base)
    else print_magnitude num base

-- One variadic argument: a 64-bit slot, or the text behind a `const char *`.
pub data Arg : Type 0 where
  word : ℕ → Arg
  text : List ℕ → Arg

-- `va_arg(args, int)` widened to `unsigned long`: the low 32 bits of the slot, sign-extended.
unfoldable pub va_int : ℕ → ℕ
va_int w = let low = w % 2 ^ 32 in if ltb low (2 ^ 31) then low else low + (2 ^ 64 - 2 ^ 32)

-- Bytes written, and the arguments that are left; `none` is an argument that is missing or of the
-- other kind, or a fault of `print_num`.
abbrev pub Written : Type 0
Written = Option (List ℕ × List Arg)

-- `print_num(va_arg(args, int), 10, 1)`
unfoldable pub signed_directive : List Arg → Written
unfolding print_num va_int
signed_directive (word w ∷ rest) = Option.map (λ out. (out, rest)) (print_num (va_int w) 10 true)
signed_directive _ = none

-- `print_num(va_arg(args, unsigned long), 16, 0)`
unfoldable pub hex_directive : List Arg → Written
unfolding print_num
hex_directive (word w ∷ rest) = Option.map (λ out. (out, rest)) (print_num (w % 2 ^ 64) 16 false)
hex_directive _ = none

-- `uart_puts(va_arg(args, const char *))`
unfoldable pub string_directive : List Arg → Written
string_directive (text t ∷ rest) = some (t, rest)
string_directive _ = none

-- `uart_putc((char)va_arg(args, int))`
unfoldable pub char_directive : List Arg → Written
char_directive (word w ∷ rest) = some (w % 2 ^ 8 ∷ [], rest)
char_directive _ = none

-- The `switch` on the character behind a '%'.
unfoldable pub directive : ℕ → List Arg → Written
unfolding signed_directive hex_directive string_directive char_directive
directive c args =
    if c == b'd'
    then signed_directive args
    else if c == b'x'
    then hex_directive args
    else if c == b's'
    then string_directive args
    else if c == b'c'
    then char_directive args
    else if c == b'%'
    then some (b'%' ∷ [], args)
    else some (b'%' ∷ c ∷ [], args)

-- The rest of the output after a directive, and in front of it what the directive wrote.
unfoldable pub and_then : Written → (List Arg → Option (List ℕ)) → Option (List ℕ)
and_then none k = none
and_then (some (out, args)) k = Option.map (λ more. out ++ more) (k args)

-- `printf`: the bytes of a whole call. A '%' in the last place is answered with '%' and the
-- terminating NUL, and `fmt++` then walks past that NUL: a read outside the format, `none`.
unfoldable pub printf : List ℕ → List Arg → Option (List ℕ)
unfolding directive and_then
printf [] args = some []
printf (c ∷ []) args = if c == b'%' then none else some (c ∷ [])
printf (c ∷ d ∷ fmt) args = elim (c == b'%') [
  | true ↦ and_then (directive d args) (λ left. printf fmt left)
  | false ↦ Option.map (λ more. c ∷ more) (printf (d ∷ fmt) args)
]
