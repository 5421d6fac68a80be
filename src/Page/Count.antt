-- ===== src/Page/Count.antt =====
-- A free list has no more pages than the RAM, so `get_free_page_count` reaches its end.
use riscvkernel_hit.Base.{
  ℕ, zero, suc, ◌+◌, ◌*◌, ◌%◌, ◌≤◌, ◌<◌, ◌≡◌, ◌≢◌, inl, inr, refl, ◌∙◌, ap, List, [], ◌∷◌, false,
  arith, has, Distinct, All, length, Bool-cases, ◌==◌, if◌then◌else◌,
}
use riscvkernel_hit.Kernel.Defs.{Kernel, Layout, ok}
use riscvkernel_hit.Page.Defs.{page_size, page_fuel, ram_start, get_free_page_count}
use riscvkernel_hit.Page.FreeList.{IsPage, FreeList}
use riscvkernel_hit.Page.Alloc.{count_loop-length}

-- The list without its entries `a`.
remove : ℕ → List ℕ → List ℕ
remove a [] = []
remove a (x ∷ xs) = if a == x then remove a xs else x ∷ remove a xs

has-remove : (a b : ℕ) (xs : List ℕ) → has b xs ≡ false → has b (remove a xs) ≡ false
unfolding remove
has-remove a b [] h = refl
has-remove a b (x ∷ xs) h = ground (arith, has-remove a b xs)

Distinct-remove : (a : ℕ) (xs : List ℕ) → Distinct xs → Distinct (remove a xs)
unfolding remove
Distinct-remove a [] d = tt
Distinct-remove a (x ∷ xs) d = elim (Bool-cases (a == x)) [
  | inl e ↦ rw e (Distinct-remove a xs d.1)
  | inr e ↦ rw e (has-remove a x xs d.0, Distinct-remove a xs d.1)
]

remove-eq_of_not_has : (a : ℕ) (xs : List ℕ) → has a xs ≡ false → length (remove a xs) ≡ length xs
unfolding remove
remove-eq_of_not_has a [] h = refl
remove-eq_of_not_has a (x ∷ xs) h = ground (arith, remove-eq_of_not_has a xs)

length-remove : (a : ℕ) (xs : List ℕ) → Distinct xs → length xs ≤ length (remove a xs) + 1
unfolding remove
length-remove a [] d = omega arith
length-remove a (x ∷ xs) d = elim (Bool-cases (a == x)) [
  | inl e ↦
      let here : a ≡ x = ground arith in
      let gone : has a xs ≡ false = rw here d.0 in
      rw e (omega (arith, remove-eq_of_not_has a xs gone))
  | inr e ↦ rw e (omega (arith, length-remove a xs d.1))
]

-- One of the `n` pages from `base` on.
abbrev IsAmong : ℕ → ℕ → ℕ → Type 0
IsAmong base n x = (x % page_size ≡ 0) × (base ≤ x) × (x < base + n * page_size)

All-remove :
    (base n : ℕ) (xs : List ℕ)
    → base % page_size ≡ 0
    → All (IsAmong base (suc n)) xs
    → All (IsAmong base n) (remove (base + n * page_size) xs)
unfolding remove
All-remove base n [] al h = tt
All-remove base n (x ∷ xs) al h = elim (Bool-cases (base + n * page_size == x)) [
  | inl e ↦ rw e (All-remove base n xs al h.1)
  | inr e ↦ rw e ((h.0.0, h.0.1, among (ground arith) h.0), All-remove base n xs al h.1)
]
  where
    among : base + n * page_size ≢ x → IsAmong base (suc n) x → x < base + n * page_size
    among ne p = omega arith

length-le_pages :
    (base n : ℕ) (xs : List ℕ)
    → base % page_size ≡ 0
    → Distinct xs
    → All (IsAmong base n) xs
    → length xs ≤ n
length-le_pages base zero [] al d h = omega arith
length-le_pages base zero (x ∷ xs) al d h = absurd (omega (arith, h.0.1, h.0.2))
length-le_pages base (suc n) xs al d h =
    let fewer : length (remove (base + n * page_size) xs) ≤ n =
      length-le_pages base n (remove (base + n * page_size) xs) al
        (Distinct-remove (base + n * page_size) xs d) (All-remove base n xs al h) in
    omega (arith, fewer, length-remove (base + n * page_size) xs d)

module _ (l : Layout) (above : ram_start ≤ l.kernel_end) where
  All-IsAmong : (xs : List ℕ) → All (IsPage l) xs → All (IsAmong ram_start 32768) xs
  All-IsAmong [] h = tt
  All-IsAmong (x ∷ xs) h =
      ((h.0.aligned, omega (arith, h.0.above), omega (arith, h.0.below)), All-IsAmong xs h.1)

  -- The walk over a free list of a kernel in RAM ends, and counts its pages.
  pub get_free_page_count-length :
      (s : Kernel) (xs : List ℕ)
      → FreeList l s.mem s.free_list xs
      → get_free_page_count s ≡ ok (length xs) s
  unfolding get_free_page_count
  get_free_page_count-length s xs f =
      let few : length xs ≤ 32768 =
        length-le_pages ram_start 32768 xs refl f.distinct (All-IsAmong xs f.pages) in
      count_loop-length page_fuel s.free_list 0 s xs f (omega arith)
      ∙ ap (λ n. ok n s) (omega arith)
