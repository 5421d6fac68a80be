-- ===== src/Printf/Fits.antt =====
-- A format whose directives find their arguments prints without a fault.
use riscvkernel_hit.Base.{
  ℕ, ◌^◌, ◌%◌, ◌<◌, ◌≡◌, inl, inr, refl, List, [], ◌∷◌, ◌++◌, Option, none, some, Bool, true, false,
  arith, ◌==◌, if◌then◌else◌, Bool-cases, Option-cases,
}
use riscvkernel_hit.Printf.Defs.{
  Arg, word, text, Written, va_int, signed_directive, hex_directive, string_directive,
  char_directive, directive, and_then, printf,
}
use riscvkernel_hit.Printf.Number.{print_num-Reads}

-- The argument that a directive takes is there and of its kind.
unfoldable pub takes : ℕ → List Arg → Option (List Arg)
takes c (word w ∷ rest) =
    if c == b'd'
    then some rest
    else if c == b'x'
    then some rest
    else if c == b's'
    then none
    else if c == b'c'
    then some rest
    else some (word w ∷ rest)
takes c (text t ∷ rest) =
    if c == b'd'
    then none
    else if c == b'x'
    then none
    else if c == b's'
    then some rest
    else if c == b'c'
    then none
    else some (text t ∷ rest)
takes c [] =
    if c == b'd'
    then none
    else if c == b'x'
    then none
    else if c == b's'
    then none
    else if c == b'c'
    then none
    else some []

-- Every directive of the format is complete and finds its argument.
unfoldable pub fits : List ℕ → List Arg → Bool
unfolding takes
fits [] args = true
fits (c ∷ []) args = if c == b'%' then false else true
fits (c ∷ d ∷ fmt) args = elim (c == b'%') [
  | true ↦ elim (takes d args) [ none ↦ false | some left ↦ fits fmt left ]
  | false ↦ fits (d ∷ fmt) args
]

abbrev Prints : Written → List Arg → Type 0
Prints w left = (out : List ℕ) × (w ≡ some (out, left))

pub va_int-lt : (w : ℕ) → va_int w < 2 ^ 64
unfolding va_int
va_int-lt w = ground arith

signed_directive-Prints : (w : ℕ) (rest : List Arg) → Prints (signed_directive (word w ∷ rest)) rest
unfolding signed_directive
signed_directive-Prints w rest =
    let (out, e, reads) =
      print_num-Reads (va_int w) 10 true (va_int-lt w) (omega arith) (omega arith) in
    (out, rw e)

hex_directive-Prints : (w : ℕ) (rest : List Arg) → Prints (hex_directive (word w ∷ rest)) rest
unfolding hex_directive
hex_directive-Prints w rest =
    let (out, e, reads) =
      print_num-Reads (w % 2 ^ 64) 16 false (omega arith) (omega arith) (omega arith) in
    (out, rw e)

word-Prints :
    (c w : ℕ) (rest left : List Arg)
    → takes c (word w ∷ rest) ≡ some left
    → Prints (directive c (word w ∷ rest)) left
unfolding takes directive string_directive char_directive
word-Prints c w rest left h = elim (Bool-cases (c == b'd')) [
  | inl e ↦ let (out, p) = signed_directive-Prints w rest in (out, ground arith)
  | inr e ↦ elim (Bool-cases (c == b'x')) [
    | inl e' ↦ let (out, p) = hex_directive-Prints w rest in (out, ground arith)
    | inr e' ↦ elim (Bool-cases (c == b'c')) [
      | inl e'' ↦ (w % 2 ^ 8 ∷ [], ground arith)
      | inr e'' ↦ (if c == b'%' then b'%' ∷ [] else b'%' ∷ c ∷ [], ground arith)
    ]
  ]
]

directive-Prints :
    (c : ℕ) (args left : List Arg) → takes c args ≡ some left → Prints (directive c args) left
directive-Prints c (word w ∷ rest) left h = word-Prints c w rest left h
directive-Prints c (text t ∷ rest) left h =
    unfold takes directive string_directive in
    (if c == b's' then t else if c == b'%' then b'%' ∷ [] else b'%' ∷ c ∷ [], ground arith)
directive-Prints c [] left h =
    unfold takes directive in (if c == b'%' then b'%' ∷ [] else b'%' ∷ c ∷ [], ground arith)

abbrev Ends : List ℕ → List Arg → Type 0
Ends fmt args = (out : List ℕ) × (printf fmt args ≡ some out)

then-Ends :
    (w : Written) (left : List Arg) (fmt : List ℕ)
    → Prints w left
    → Ends fmt left
    → (out : List ℕ) × (and_then w (λ rest. printf fmt rest) ≡ some out)
unfolding and_then
then-Ends w left fmt (out, p) (more, q) = (out ++ more, rw (p, q))

-- A format whose directives are complete and find arguments of their kind is printed whole:
-- no read behind the format, no missing argument and no write behind the digit buffer.
pub printf-fits : (fmt : List ℕ) (args : List Arg) → fits fmt args ≡ true → Ends fmt args
unfolding fits printf
printf-fits [] args h = ([], refl)
printf-fits (c ∷ []) args h = (c ∷ [], ground arith)
printf-fits (c ∷ d ∷ fmt) args h = elim (Bool-cases (c == b'%')) [
  | inl e ↦ elim (Option-cases (takes d args)) [
    | inl none_left ↦ absurd (ground arith)
    | inr (left, found) ↦
        let (out, p) =
          then-Ends (directive d args) left fmt (directive-Prints d args left found)
            (printf-fits fmt left (ground arith)) in
        (out, rw (e, printf) p)
  ]
  | inr e ↦
      let (more, p) = printf-fits (d ∷ fmt) args (ground arith) in (c ∷ more, rw (e, printf) (rw p))
]
