-- ===== src/Base/Bits.antt =====
-- `|`, `&` with masks, shifts: as arithmetic. The native operations have no laws at variables
-- but their definition, a recursion on binary digits with fuel.
use Prim.Native.Nat.{
  ℕ, zero, suc, ◌+◌, ◌-◌, ◌*◌, ◌/◌, ◌%◌, ◌^◌, ◌≤◌, ◌<◌, min, max, digits, bitwise, bit_and, bit_or,
  bit_and-bitwise, bit_or-bitwise,
}
use mathlib.Core.Path.{◌≡◌, refl, ap, ◌∙◌}
use native.Mathlib.Nat.{
  le_refl, pow-suc, pow-succ', one-le-pow, mul-one, div-one, div-div-eq-div-mul,
}
use native.Mathlib.Omega.{arith}

-- An operation that works digit by digit: `f` on each pair of digits, `z` where the first number
-- has no digits left.
module _ (z : ℕ → ℕ) (f : ℕ → ℕ → ℕ) (op : ℕ → ℕ → ℕ)
    (op-bitwise : (a b : ℕ) → op a b ≡ bitwise z f a b)
    (z-digit : (b : ℕ) → z b ≡ z (b / 2) * 2 + f 0 (b % 2)) where
  -- One more round of fuel than enough.
  spare_round : (n a b : ℕ) → a ≤ n → digits z f (suc n) a b ≡ digits z f n a b
  spare_round zero zero b low = refl
  spare_round (suc n) zero b low = refl
  spare_round zero (suc a) b low = absurd (omega arith)
  spare_round (suc n) (suc a) b low = rw (spare_round n (suc a / 2) (b / 2) (omega arith))

  spare_rounds : (k a b : ℕ) (n : ℕ) → a ≤ n → digits z f (n + k) a b ≡ digits z f n a b
  spare_rounds zero a b n low = let same : n + 0 ≡ n = omega arith in rw same
  spare_rounds (suc k) a b n low =
      let next : n + suc k ≡ suc (n + k) = omega arith in
      rw next (spare_round (n + k) a b (omega arith) ∙ spare_rounds k a b n low)

  -- The lowest digit apart.
  step_lem : (a b : ℕ) → op a b ≡ op (a / 2) (b / 2) * 2 + f (a % 2) (b % 2)
  step_lem zero b = simp op-bitwise (z-digit b)
  step_lem (suc a) b =
      let half : ℕ = suc a / 2 in
      let enough : half + (a - half) ≡ a = omega arith in
      let less : digits z f a half (b / 2) ≡ digits z f half half (b / 2) =
        rw enough at (spare_rounds (a - half) half (b / 2) half (le_refl _)) in
      simp op-bitwise (ap (λ (t : ℕ). t * 2 + f (suc a % 2) (b % 2)) less)

pub bit_or_step : (a b : ℕ) → bit_or a b ≡ bit_or (a / 2) (b / 2) * 2 + max (a % 2) (b % 2)
bit_or_step a b = step_lem (λ d. d) max bit_or bit_or-bitwise (λ d. omega arith) a b

pub bit_and_step : (a b : ℕ) → bit_and a b ≡ bit_and (a / 2) (b / 2) * 2 + min (a % 2) (b % 2)
bit_and_step a b = step_lem (λ _. 0) min bit_and bit_and-bitwise (λ d. omega arith) a b

-- 0 on the right, for a number of at most `n`.
with_zero : (n a : ℕ) → a ≤ n → (bit_or a 0 ≡ a) × (bit_and a 0 ≡ 0)
with_zero n zero low = (refl, refl)
with_zero zero (suc a) low = absurd (omega arith)
with_zero (suc n) (suc a) low =
    let (or, and) = with_zero n (suc a / 2) (omega arith) in
    (omega (arith, or, bit_or_step (suc a) 0), omega (arith, and, bit_and_step (suc a) 0))

double_field : (q k : ℕ) → q * 2 ^ suc k ≡ 2 * (q * 2 ^ k)
double_field q k = let twice = pow-suc 2 k in rw twice (ground arith)

-- A number of `k` digits behind `q` others: `|` puts it there, `&` with `k` ones takes it out.
fields :
    (k q r : ℕ)
    → r < 2 ^ k
    → (bit_or (q * 2 ^ k) r ≡ q * 2 ^ k + r) × (bit_and (q * 2 ^ k + r) (2 ^ k - 1) ≡ r)
fields zero q r fits = (
  ground (arith, (with_zero q q (le_refl _)).0),
  omega (arith, (with_zero (q * 2 ^ 0 + r) (q * 2 ^ 0 + r) (le_refl _)).1),
)
fields (suc k) q r fits =
    let whole : ℕ = q * 2 ^ suc k in
    let twice = double_field q k in
    let two_ones = pow-suc 2 k in
    let (or, and) = fields k q (r / 2) (omega arith) in
    (
      ground (arith, or, twice, bit_or_step whole r),
      ground (arith, and, twice, two_ones, bit_and_step (whole + r) (2 ^ suc k - 1)),
    )

pub bit_or_fields : (k q r : ℕ) → r < 2 ^ k → bit_or (q * 2 ^ k) r ≡ q * 2 ^ k + r
bit_or_fields k q r fits = (fields k q r fits).0

-- A mask of `k` low bits is the remainder by `2 ^ k`.
pub bit_and_low : (k a : ℕ) → bit_and a (2 ^ k - 1) ≡ a % 2 ^ k
bit_and_low k a =
    let positive = one-le-pow k 2 in
    let taken = fields k (a / 2 ^ k) (a % 2 ^ k) (omega arith) in ground (arith, positive, taken.1)

bit_and_high_zero : (n a : ℕ) → bit_and a ((2 ^ n - 1) * 2 ^ 0) ≡ (a / 2 ^ 0 % 2 ^ n) * 2 ^ 0
bit_and_high_zero n a =
    let one : 2 ^ 0 ≡ 1 = refl in rw one (rw (mul-one, div-one, mul-one) (bit_and_low n a))

-- A mask that clears the `k` low bits and keeps the `n` bits above them.
pub bit_and_high : (k n a : ℕ) → bit_and a ((2 ^ n - 1) * 2 ^ k) ≡ (a / 2 ^ k % 2 ^ n) * 2 ^ k
bit_and_high zero n a = bit_and_high_zero n a
bit_and_high (suc k) n a =
    let even : (2 ^ n - 1) * 2 ^ suc k ≡ 2 * ((2 ^ n - 1) * 2 ^ k) = double_field (2 ^ n - 1) k in
    let half : (2 ^ n - 1) * 2 ^ suc k / 2 ≡ (2 ^ n - 1) * 2 ^ k = omega arith in
    let ih : bit_and (a / 2) ((2 ^ n - 1) * 2 ^ k) ≡ (a / 2 / 2 ^ k % 2 ^ n) * 2 ^ k =
      bit_and_high k n (a / 2) in
    let shift : a / 2 / 2 ^ k ≡ a / 2 ^ suc k =
      rw (pow-succ' 2 k) (div-div-eq-div-mul a 2 (2 ^ k)) in
    rw bit_and_step
      (rw half (rw ih (rw shift (omega (arith, even, double_field (a / 2 ^ suc k % 2 ^ n) k)))))
