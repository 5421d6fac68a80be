-- ===== src/Mmu/Owned.antt =====
-- The pages that belong to one address space alone, in the order in which the kernel gives them
-- back, and what giving back a list of pages does.
use riscvkernel_hit.Base.{
  ℕ, zero, suc, ◌+◌, ◌≤◌, ◌<◌, ◌≡◌, ◌≢◌, ◌⊎◌, refl, ◌∙◌, List, [], ◌∷◌, ◌++◌, false, ◌&&◌, ◌==◌,
  leb, arith, has, Distinct, Apart, All, if◌then◌else◌,
}
use riscvkernel_hit.Memory.Defs.{Mem, read64}
use riscvkernel_hit.Memory.Laws.{read64-write64_apart, write64-outside}
use riscvkernel_hit.Kernel.Defs.{Kernel, Layout}
use riscvkernel_hit.Page.Defs.{link}
use riscvkernel_hit.Page.FreeList.{IsPage, FreeList}
use riscvkernel_hit.Page.Alloc.{link-FreeList, head-small}
use riscvkernel_hit.Mmu.Pte.{pte_to_pa, is_valid}
use riscvkernel_hit.Mmu.Defs.{slot}

-- The data pages behind `left` entries of a last-level table from entry `k` on, but for those below
-- the end of the kernel's image.
unfoldable pub leaf_pages : Layout → Mem → ℕ → ℕ → ℕ → List ℕ
leaf_pages l m t zero k = []
leaf_pages l m t (suc left) k =
    let pte = read64 m (slot t k) in
    let rest = leaf_pages l m t left (k + 1) in
    if is_valid pte && leb l.kernel_end (pte_to_pa pte) then pte_to_pa pte ∷ rest else rest

-- The pages of a second-level table: for each entry the data pages of the table behind it, and
-- that table.
unfoldable pub table_pages : Layout → Mem → ℕ → ℕ → ℕ → List ℕ
table_pages l m pmd zero j = []
table_pages l m pmd (suc left) j =
    let pte = read64 m (slot pmd j) in
    let rest = table_pages l m pmd left (j + 1) in
    if is_valid pte then leaf_pages l m (pte_to_pa pte) 512 0 ++ (pte_to_pa pte ∷ rest) else rest

-- The same of a root table, but for the entries that it shares with the kernel's root table.
unfoldable pub space_pages : Layout → Mem → ℕ → ℕ → ℕ → ℕ → List ℕ
space_pages l m root pgd zero i = []
space_pages l m root pgd (suc left) i =
    let pte = read64 m (slot pgd i) in
    let rest = space_pages l m root pgd left (i + 1) in
    let with_pte = table_pages l m (pte_to_pa pte) 512 0 ++ (pte_to_pa pte ∷ rest) in
    if pte == read64 m (slot root i) then rest else if is_valid pte then with_pte else rest

-- All pages of an address space, its root table last.
abbrev pub owned : Layout → Mem → ℕ → ℕ → List ℕ
owned l m root pgd = space_pages l m root pgd 512 0 ++ pgd ∷ []

-- The free list once the pages were put in front of it one after the other.
abbrev pub rev_onto : List ℕ → List ℕ → List ℕ
rev_onto [] xs = xs
rev_onto (p ∷ ps) xs = rev_onto ps (p ∷ xs)

-- `free_page` of each page of a list.
unfoldable pub frees : List ℕ → Kernel → Kernel
frees [] s = s
frees (p ∷ ps) s = frees ps (link p s)

pub frees-append : (ps qs : List ℕ) (s : Kernel) → frees (ps ++ qs) s ≡ frees qs (frees ps s)
unfolding frees
frees-append [] qs s = refl
frees-append (p ∷ ps) qs s = frees-append ps qs (link p s)

-- Nothing but memory and the free list changes.
pub frees-shape :
    (ps : List ℕ) (s : Kernel)
    → frees ps s ≡ record s { mem = (frees ps s).mem; free_list = (frees ps s).free_list }
unfolding frees link
frees-shape [] s = refl
frees-shape (p ∷ ps) s = frees-shape ps (link p s)

pub frees-outside :
    (ps : List ℕ) (s : Kernel) (b : ℕ)
    → All (λ p. (b < p) ⊎ (p + 8 ≤ b)) ps
    → (frees ps s).mem b ≡ s.mem b
unfolding frees link
frees-outside [] s b h = refl
frees-outside (p ∷ ps) s b h =
    frees-outside ps (link p s) b h.1 ∙ write64-outside s.mem p s.free_list b h.0

-- The entries of the table `t` are the same in both memories.
abbrev pub Agrees : Mem → Mem → ℕ → Type 0
Agrees m m' t = (i : ℕ) → i < 512 → read64 m' (slot t i) ≡ read64 m (slot t i)

pub frees-Agrees :
    {l : Layout} (ps : List ℕ) (s : Kernel) (t : ℕ)
    → All (IsPage l) ps
    → IsPage l t
    → has t ps ≡ false
    → Agrees s.mem (frees ps s).mem t
unfolding frees link
frees-Agrees [] s t pages page out = λ i low. refl
frees-Agrees (p ∷ ps) s t pages page out = λ i low.
    let ne : t ≢ p = ground (arith, out) in
    frees-Agrees ps (link p s) t pages.1 page (ground (arith, out)) i low
    ∙ read64-write64_apart s.mem p s.free_list (slot t i)
        (ground (arith, page.aligned, pages.0.aligned, ne))

-- Pages that are given back are free.
pub frees-FreeList :
    {l : Layout} (ps : List ℕ) (s : Kernel) (xs : List ℕ)
    → FreeList l s.mem s.free_list xs
    → All (IsPage l) ps
    → Distinct ps
    → Apart ps xs
    → FreeList l (frees ps s).mem (frees ps s).free_list (rev_onto ps xs)
unfolding frees link
frees-FreeList [] s xs f pages distinct apart = f
frees-FreeList (p ∷ ps) s xs f pages distinct apart =
    let new : has p xs ≡ false = apart p (ground arith) in
    frees-FreeList ps (link p s) (p ∷ xs)
      (link-FreeList s p xs pages.0 (head-small s.mem s.free_list xs f) new f) pages.1 distinct.1
      (λ a h. ground (arith, apart a, distinct.0, h))
