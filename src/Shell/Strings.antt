-- ===== src/Shell/Strings.antt =====
-- The string functions against equality, prefixes and lists.
use riscvkernel_hit.Base.{ℕ, ◌≡◌, ◌↔◌, refl, List, [], ◌∷◌, ◌++◌, true, arith}
use riscvkernel_hit.Shell.Defs.{str_eq, str_starts_with}

pub str_eq_self : (a : List ℕ) → str_eq a a ≡ true
unfolding str_eq
str_eq_self [] = refl
str_eq_self (x ∷ a) = ground (arith, str_eq_self a)

pub str_eq_sound : (a b : List ℕ) → str_eq a b ≡ true → a ≡ b
unfolding str_eq
str_eq_sound [] [] h = refl
str_eq_sound [] (y ∷ b) h = absurd (ground arith)
str_eq_sound (x ∷ a) [] h = absurd (ground arith)
str_eq_sound (x ∷ a) (y ∷ b) h =
    let head : x ≡ y = ground arith in let tail : a ≡ b = str_eq_sound a b (ground arith) in cc

-- `str_eq` answers 1 exactly for equal texts.
pub str_eq_iff : (a b : List ℕ) → (str_eq a b ≡ true) ↔ (a ≡ b)
str_eq_iff a b = (str_eq_sound a b, λ e. rw e (str_eq_self b))

prefix_sound :
    (s prefix : List ℕ) → str_starts_with s prefix ≡ true → (rest : List ℕ) × (s ≡ prefix ++ rest)
unfolding str_starts_with
prefix_sound s [] h = (s, refl)
prefix_sound [] (y ∷ prefix) h = absurd (ground arith)
prefix_sound (x ∷ s) (y ∷ prefix) h =
    let head : x ≡ y = ground arith in
    let (rest, tail) = prefix_sound s prefix (ground arith) in (rest, rw (head, tail))

pub prefix_complete : (prefix rest : List ℕ) → str_starts_with (prefix ++ rest) prefix ≡ true
unfolding str_starts_with
prefix_complete [] rest = refl
prefix_complete (y ∷ prefix) rest = ground (arith, prefix_complete prefix rest)

-- `str_starts_with` answers 1 exactly for texts that continue the prefix.
pub str_starts_with_iff :
    (s prefix : List ℕ)
    → (str_starts_with s prefix ≡ true) ↔ ((rest : List ℕ) × (s ≡ prefix ++ rest))
str_starts_with_iff s prefix =
    (prefix_sound s prefix, λ (rest, e). rw e (prefix_complete prefix rest))
