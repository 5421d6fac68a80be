-- ===== src/Mmu/Copy/Twin.antt =====
-- A copied page table and its source: table by table, and page by page.
use riscvkernel_hit.Base.{
  ℕ, zero, suc, ◌+◌, ◌≤◌, ◌<◌, ◌≡◌, ◌⊎◌, refl, ◌∙◌, List, true, false, arith, has, bit_and,
  if◌then◌else◌,
}
use riscvkernel_hit.Memory.Defs.{Mem, read64}
use riscvkernel_hit.Memory.Laws.{read64_ext}
use riscvkernel_hit.Kernel.Defs.{Layout}
use riscvkernel_hit.Page.Defs.{page_size}
use riscvkernel_hit.Page.FreeList.{IsPage}
use riscvkernel_hit.Mmu.Pte.{pte_to_pa, pa_to_pte, is_valid}
use riscvkernel_hit.Mmu.Defs.{slot}

-- An address in none of the pages of a list.
abbrev pub Off : List ℕ → ℕ → Type 0
Off xs b = (x : ℕ) → has x xs ≡ true → (b < x) ⊎ (x + page_size ≤ b)

-- Every page of the first list is one of the second.
abbrev pub Within : List ℕ → List ℕ → Type 0
Within xs ys = (x : ℕ) → has x xs ≡ true → has x ys ≡ true

-- The page `d` was free and is no longer.
abbrev pub Taken : List ℕ → List ℕ → ℕ → Type 0
Taken xs xs' d = (has d xs ≡ true) × (has d xs' ≡ false)

-- The memories agree on the page `d`.
abbrev pub OnPage : Mem → Mem → ℕ → Type 0
OnPage m m' d = (b : ℕ) → d ≤ b → b < d + page_size → m' b ≡ m b

-- An entry `a` and its copy `b`: a valid one leads to a page of its own with the same permissions,
-- which `R` relates to the source's.
abbrev pub EntryTwin : Layout → (ℕ → Type 0) → (ℕ → ℕ → Type 0) → ℕ → ℕ → Type 0
EntryTwin l P R a b =
    (is_valid a ≡ true
      → (d : ℕ) × P d × IsPage l d × (b ≡ pa_to_pte d (bit_and a 0x3FF)) × R (pte_to_pa a) d)
    × (is_valid a ≡ false → is_valid b ≡ false)

-- The page `d` in the memory `m` copies the page `p` of `m₀`: a page of data at level 0, a table
-- above. All pages of the copy below `d` have the property `P`.
abbrev pub Twin : Layout → ℕ → Mem → Mem → (ℕ → Type 0) → ℕ → ℕ → Type 0
Twin l zero m₀ m P p d = (o : ℕ) → o < page_size → m (d + o) ≡ m₀ (p + o)
Twin l (suc n) m₀ m P p d =
    (i : ℕ) → i < 512 → EntryTwin l P (Twin l n m₀ m P) (read64 m₀ (slot p i)) (read64 m (slot d i))

-- No page of the source is in the list.
abbrev pub Source : ℕ → Mem → List ℕ → ℕ → Type 0
Source zero m xs p = has p xs ≡ false
Source (suc n) m xs p =
    (has p xs ≡ false)
    × ((i : ℕ)
        → i < 512
        → is_valid (read64 m (slot p i)) ≡ true
        → Source n m xs (pte_to_pa (read64 m (slot p i))))

-- The sum of `w i`, `w (i + 1)`, and so on.
unfoldable pub total : (ℕ → ℕ) → ℕ → ℕ → ℕ
total w zero i = 0
total w (suc left) i = w i + total w left (i + 1)

-- What entry `i` of the table `p` costs, if the page behind it costs `f`.
unfoldable pub entry_cost : (ℕ → ℕ) → Mem → ℕ → ℕ → ℕ
entry_cost f m p i =
    if is_valid (read64 m (slot p i)) then f (pte_to_pa (read64 m (slot p i))) else 0

-- The pages that a copy takes: one, and those below it.
unfoldable pub cost : ℕ → Mem → ℕ → ℕ
cost zero m p = 1
cost (suc n) m p = 1 + total (entry_cost (cost n m) m p) 512 0

pub cost_table :
    (n : ℕ) (m : Mem) (p : ℕ) → cost (suc n) m p ≡ 1 + total (entry_cost (cost n m) m p) 512 0
unfolding cost
cost_table n m p = refl

pub total_one : (w : ℕ → ℕ) (i : ℕ) → total w 1 i ≡ w i
unfolding total
total_one w i = omega arith

pub total_more : (w : ℕ → ℕ) (left i : ℕ) → total w (suc left) i ≡ w i + total w left (i + 1)
unfolding total
total_more w left i = refl

pub entry_cost_valid :
    (f : ℕ → ℕ) (m : Mem) (p i : ℕ)
    → is_valid (read64 m (slot p i)) ≡ true
    → entry_cost f m p i ≡ f (pte_to_pa (read64 m (slot p i)))
unfolding entry_cost
entry_cost_valid f m p i valid = rw valid refl

module _ (l : Layout) (m₀ : Mem) where
  -- An entry with another property of pages and another relation.
  pub EntryTwin-map :
      {P P' : ℕ → Type 0} {R R' : ℕ → ℕ → Type 0} (a b : ℕ)
      → ((d : ℕ) → P d → P' d)
      → ((p d : ℕ) → P d → R p d → R' p d)
      → EntryTwin l P R a b
      → EntryTwin l P' R' a b
  EntryTwin-map a b f g (valid, invalid) = (
    λ h. let (d, taken, page, e, r) = valid h in (d, f d taken, page, e, g (pte_to_pa a) d taken r),
    invalid,
  )

  pub OnPage-slot :
      (m m' : Mem) (d i : ℕ) → i < 512 → OnPage m m' d → read64 m' (slot d i) ≡ read64 m (slot d i)
  OnPage-slot m m' d i low same =
      read64_ext m m' (slot d i) (λ j lt. same (slot d i + j) (omega arith) (omega arith))
        (same (slot d i) (omega arith) (omega arith))

  -- The copy stays one while its pages do not change.
  pub Twin-frame :
      {P P' : ℕ → Type 0} (n : ℕ) (m m' : Mem) (p d : ℕ)
      → ((x : ℕ) → P x → P' x)
      → ((x : ℕ) → P x → OnPage m m' x)
      → OnPage m m' d
      → Twin l n m₀ m P p d
      → Twin l n m₀ m' P' p d
  Twin-frame zero m m' p d f each same h = λ o lt. same (d + o) (omega arith) (omega arith) ∙ h o lt
  Twin-frame (suc n) m m' p d f each same h = λ i low. rw (OnPage-slot m m' d i low same) (
      EntryTwin-map (read64 m₀ (slot p i)) (read64 m (slot d i)) f
        (λ p' d' taken r. Twin-frame n m m' p' d' f each (each d' taken) r) (h i low))

  -- Entry `j` of the table `dst` copies that of `src`.
  abbrev pub TableEntry : ℕ → ℕ → ℕ → (ℕ → Type 0) → Mem → ℕ → Type 0
  TableEntry n src dst P m j =
      EntryTwin l P (Twin l n m₀ m P) (read64 m₀ (slot src j)) (read64 m (slot dst j))

  -- What survives a change that spares the pages of the copy and the entry itself.
  abbrev pub IsStable : ℕ → ((ℕ → Type 0) → Mem → ℕ → Type 0) → Type 1
  IsStable dst E =
      (P P' : ℕ → Type 0) (m m' : Mem) (j : ℕ)
      → ((x : ℕ) → P x → P' x)
      → ((x : ℕ) → P x → OnPage m m' x)
      → read64 m' (slot dst j) ≡ read64 m (slot dst j)
      → E P m j
      → E P' m' j

  pub TableEntry-IsStable : (n src dst : ℕ) → IsStable dst (TableEntry n src dst)
  TableEntry-IsStable n src dst P P' m m' j f each same h = rw same (
      EntryTwin-map (read64 m₀ (slot src j)) (read64 m (slot dst j)) f
        (λ p d taken twin. Twin-frame n m m' p d f each (each d taken) twin) h)
