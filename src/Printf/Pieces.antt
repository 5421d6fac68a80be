-- ===== src/Printf/Pieces.antt =====
-- `printf` piece by piece: plain text, and the directives of numbers.
use riscvkernel_hit.Base.{
  ℕ, ◌%◌, ◌^◌, ◌≡◌, refl, List, [], ◌∷◌, ◌++◌, some, true, false, arith, has, ◌==◌,
}
use riscvkernel_hit.Printf.Defs.{Arg, word, va_int, print_num, printf}

-- Text without a '%' in front of a directive is written as it stands.
pub printf_text :
    (t fmt : List ℕ) (args : List Arg) (more : List ℕ)
    → has b'%' t ≡ false
    → printf (b'%' ∷ fmt) args ≡ some more
    → printf (t ++ b'%' ∷ fmt) args ≡ some (t ++ more)
unfolding printf
printf_text [] fmt args more plain h = h
printf_text (c ∷ []) fmt args more plain h =
    let other : (c == b'%') ≡ false = ground arith in rw (other, printf) (rw h refl)
printf_text (c ∷ d ∷ t) fmt args more plain h =
    let other : (c == b'%') ≡ false = ground arith in
    let ih = printf_text (d ∷ t) fmt args more (ground arith) h in rw (other, printf) (rw ih refl)

-- A signed number.
pub printf_decimal :
    (w : ℕ) (fmt : List ℕ) (args : List Arg) (out more : List ℕ)
    → print_num (va_int w) 10 true ≡ some out
    → printf fmt args ≡ some more
    → printf (b'%' ∷ b'd' ∷ fmt) (word w ∷ args) ≡ some (out ++ more)
unfolding printf
printf_decimal w fmt args out more e h = rw (e, h) refl

-- A hexadecimal number.
pub printf_hex :
    (w : ℕ) (fmt : List ℕ) (args : List Arg) (out more : List ℕ)
    → print_num (w % 2 ^ 64) 16 false ≡ some out
    → printf fmt args ≡ some more
    → printf (b'%' ∷ b'x' ∷ fmt) (word w ∷ args) ≡ some (out ++ more)
unfolding printf
printf_hex w fmt args out more e h = rw (e, h) refl
