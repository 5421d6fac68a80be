-- ===== src/Base/Lists.antt =====
-- Lists measured by native numbers, membership as a Boolean, and quantifiers by recursion.
use Prim.Native.Nat.{ℕ, suc, ◌+◌}
use mathlib.Core.Path.{◌≡◌, refl}
use mathlib.Core.Logic.{inl, inr}
use mathlib.Core.Bool.{Bool, true, false, ◌||◌}
use mathlib.Core.List.{List, [], ◌∷◌, ◌++◌}
use native.Mathlib.Omega.{arith}
use riscvkernel_hit.Base.Tests.{◌==◌, Bool-cases}

module _ {ℓ} {A : Type ℓ} where
  abbrev pub length : List A → ℕ
  length [] = 0
  length (x ∷ xs) = suc (length xs)

  pub length-append : (xs ys : List A) → length (xs ++ ys) ≡ length xs + length ys
  length-append [] ys = omega arith
  length-append (x ∷ xs) ys = omega (arith, length-append xs ys)

  abbrev pub All {κ} : (A → Type κ) → List A → Type κ
  All P [] = Unit
  All P (x ∷ xs) = P x × All P xs

abbrev pub has : ℕ → List ℕ → Bool
has a [] = false
has a (x ∷ xs) = (a == x) || has a xs

-- The entries of the list differ from one another.
abbrev pub Distinct : List ℕ → Type 0
Distinct [] = Unit
Distinct (x ∷ xs) = (has x xs ≡ false) × Distinct xs

pub has-append : (a : ℕ) (xs ys : List ℕ) → has a (xs ++ ys) ≡ (has a xs || has a ys)
has-append a [] ys = refl
has-append a (x ∷ xs) ys = ground (arith, has-append a xs ys)

-- No entry of the first list is in the second.
abbrev pub Apart : List ℕ → List ℕ → Type 0
Apart xs ys = (a : ℕ) → has a xs ≡ true → has a ys ≡ false

-- The parts of a list without repetitions.
pub Distinct-append_left : (xs ys : List ℕ) → Distinct (xs ++ ys) → Distinct xs
Distinct-append_left [] ys d = tt
Distinct-append_left (x ∷ xs) ys d =
    (ground (arith, d.0, has-append x xs ys), Distinct-append_left xs ys d.1)

pub Distinct-append_right : (xs ys : List ℕ) → Distinct (xs ++ ys) → Distinct ys
Distinct-append_right [] ys d = d
Distinct-append_right (x ∷ xs) ys d = Distinct-append_right xs ys d.1

pub Distinct-Apart : (xs ys : List ℕ) → Distinct (xs ++ ys) → Apart ys xs
Distinct-Apart [] ys d = λ a h. refl
Distinct-Apart (x ∷ xs) ys d = λ a h.
    let later = Distinct-Apart xs ys d.1 a h in
    elim (Bool-cases (a == x)) [
      | inl e ↦
          let same : a ≡ x = ground arith in
          let gone : has a (xs ++ ys) ≡ false = rw same d.0 in
          absurd (ground (arith, gone, has-append a xs ys, h))
      | inr e ↦ ground (arith, later)
    ]

module _ {ℓ κ} {A : Type ℓ} (P : A → Type κ) where
  pub All-append_left : (xs ys : List A) → All P (xs ++ ys) → All P xs
  All-append_left [] ys h = tt
  All-append_left (x ∷ xs) ys h = (h.0, All-append_left xs ys h.1)

  pub All-append_right : (xs ys : List A) → All P (xs ++ ys) → All P ys
  All-append_right [] ys h = h
  All-append_right (x ∷ xs) ys h = All-append_right xs ys h.1

-- An entry may be moved to the front of a list and back.
pub Distinct-front : (x : ℕ) (ys zs : List ℕ) → Distinct (ys ++ x ∷ zs) → Distinct (x ∷ (ys ++ zs))
Distinct-front x [] zs d = d
Distinct-front x (y ∷ ys) zs d =
    let later = Distinct-front x ys zs d.1 in
    (
      ground (arith, later.0, d.0, has-append y ys (x ∷ zs)),
      (ground (arith, d.0, has-append y ys (x ∷ zs), has-append y ys zs), later.1),
    )

pub Distinct-back : (x : ℕ) (ys zs : List ℕ) → Distinct (x ∷ (ys ++ zs)) → Distinct (ys ++ x ∷ zs)
Distinct-back x [] zs d = d
Distinct-back x (y ∷ ys) zs d = (
  ground (arith, d.1.0, d.0, has-append y ys (x ∷ zs), has-append y ys zs),
  Distinct-back x ys zs (ground (arith, d.0), d.1.1),
)

module _ {ℓ} (P : ℕ → Type ℓ) where
  pub All-front : (x : ℕ) (ys zs : List ℕ) → All P (ys ++ x ∷ zs) → All P (x ∷ (ys ++ zs))
  All-front x [] zs h = h
  All-front x (y ∷ ys) zs h = let later = All-front x ys zs h.1 in (later.0, (h.0, later.1))

  pub All-back : (x : ℕ) (ys zs : List ℕ) → All P (x ∷ (ys ++ zs)) → All P (ys ++ x ∷ zs)
  All-back x [] zs h = h
  All-back x (y ∷ ys) zs h = (h.1.0, All-back x ys zs (h.0, h.1.1))
