-- ===== src/Mmu/Release.antt =====
-- The loops of `free_user_page_table` over the tables of the two lower levels: the pages that they
-- give back are those of the block.
use riscvkernel_hit.Base.{
  ℕ, zero, suc, ◌+◌, ◌≤◌, ◌≡◌, ◌≢◌, inl, inr, refl, ◌∙◌, List, [], ◌∷◌, ◌++◌, true, false, ◌==◌,
  leb, arith, has, has-append, Distinct, Distinct-append_right, Distinct-Apart, All,
  All-append_left, All-append_right, Bool-cases,
}
use riscvkernel_hit.Memory.Defs.{Mem, read64}
use riscvkernel_hit.Kernel.Defs.{Kernel, Layout, ok}
use riscvkernel_hit.Page.Defs.{link, free_page}
use riscvkernel_hit.Page.FreeList.{IsPage, IsPage-of_has}
use riscvkernel_hit.Mmu.Pte.{pte_to_pa, is_valid}
use riscvkernel_hit.Mmu.Defs.{slot, load64}
use riscvkernel_hit.Mmu.Spaces.{for_each, free_leaf, free_pte_table}
use riscvkernel_hit.Mmu.Owned.{leaf_pages, table_pages, frees, frees-append, Agrees, frees-Agrees}

module _ (l : Layout) where
  leaf_pages-frame :
      (m m' : Mem) (t left k : ℕ)
      → k + left ≤ 512
      → Agrees m m' t
      → leaf_pages l m' t left k ≡ leaf_pages l m t left k
  unfolding leaf_pages
  leaf_pages-frame m m' t zero k top same = refl
  leaf_pages-frame m m' t (suc left) k top same =
      rw (same k (omega arith), leaf_pages-frame m m' t left (k + 1) (omega arith) same)

  -- One data page goes, and the entries that are left still lead to the same pages.
  pub free_page-link : (p : ℕ) (s : Kernel) → IsPage l p → free_page p s ≡ ok tt (link p s)
  unfolding free_page
  free_page-link p s page = let live : (p == 0) ≡ false = ground (arith, page.positive) in rw live

  free_leaves :
      (left k t : ℕ) (s : Kernel)
      → k + left ≤ 512
      → IsPage l t
      → All (IsPage l) (leaf_pages l s.mem t left k)
      → has t (leaf_pages l s.mem t left k) ≡ false
      → for_each left k (free_leaf l t) s ≡ ok tt (frees (leaf_pages l s.mem t left k) s)
  unfolding for_each free_leaf load64 leaf_pages frees
  free_leaves zero k t s top page pages out = refl
  free_leaves (suc left) k t s top page pages out =
      let pte : ℕ = read64 s.mem (slot t k) in
      let p : ℕ = pte_to_pa pte in
      elim (Bool-cases (is_valid pte)) [
        | inl valid ↦ elim (Bool-cases (leb l.kernel_end p)) [
          | inl above ↦
              let ps = leaf_pages l s.mem t left (k + 1) in
              let (page', pages') : All (IsPage l) (p ∷ ps) = rw (valid, above) at pages in
              let out' : has t (p ∷ ps) ≡ false = rw (valid, above) at out in
              let kept : leaf_pages l (link p s).mem t left (k + 1) ≡ ps =
                leaf_pages-frame s.mem (link p s).mem t left (k + 1) (omega arith)
                  (frees-Agrees (p ∷ []) s t (page', tt) page (ground (arith, out'))) in
              rw (valid, above, free_page-link p s page')
                (free_leaves left (k + 1) t (link p s) (omega arith) page (rw kept pages')
                    (rw kept (ground (arith, out')))
                  ∙ rw kept)
          | inr below ↦
              rw (valid, below)
                (free_leaves left (k + 1) t s (omega arith) page (rw (valid, below) at pages)
                  (rw (valid, below) at out))
        ]
        | inr stop ↦
            rw stop
              (free_leaves left (k + 1) t s (omega arith) page (rw stop at pages) (rw stop at out))
      ]

  -- The pages of a block, freed with the table behind them, are none of the rest.
  pub rest-Agrees :
      (qs : List ℕ) (t : ℕ) (rest : List ℕ) (s : Kernel) (x : ℕ)
      → All (IsPage l) (qs ++ (t ∷ rest))
      → IsPage l x
      → has x qs ≡ false
      → x ≢ t
      → Agrees s.mem (link t (frees qs s)).mem x
  unfolding frees
  rest-Agrees qs t rest s x pages page out ne = λ i low.
      let gone = All-append_right (IsPage l) qs (t ∷ rest) pages in
      frees-Agrees (t ∷ []) (frees qs s) x (gone.0, tt) page (ground (arith, ne)) i low
      ∙ frees-Agrees qs s x (All-append_left (IsPage l) qs (t ∷ rest) pages) page out i low

  pub table_pages-frame :
      (m m' : Mem) (pmd left j : ℕ)
      → j + left ≤ 512
      → Agrees m m' pmd
      → ((x : ℕ) → has x (table_pages l m pmd left j) ≡ true → Agrees m m' x)
      → table_pages l m' pmd left j ≡ table_pages l m pmd left j
  unfolding table_pages
  table_pages-frame m m' pmd zero j top same each = refl
  table_pages-frame m m' pmd (suc left) j top same each =
      let pte : ℕ = read64 m (slot pmd j) in
      let t : ℕ = pte_to_pa pte in
      elim (Bool-cases (is_valid pte)) [
        | inl valid ↦
            let qs = leaf_pages l m t 512 0 in
            let rest = table_pages l m pmd left (j + 1) in
            let each' : (x : ℕ) → has x (qs ++ (t ∷ rest)) ≡ true → Agrees m m' x =
              rw valid at each in
            let within : Agrees m m' t = each' t (ground (arith, has-append t qs (t ∷ rest))) in
            rw (same j (omega arith), valid)
              (rw (
                leaf_pages-frame m m' t 512 0 (omega arith) within,
                table_pages-frame m m' pmd left (j + 1) (omega arith) same
                    (λ x h. each' x (ground (arith, has-append x qs (t ∷ rest), h))),
              ))
        | inr stop ↦
            rw (same j (omega arith), stop)
              (table_pages-frame m m' pmd left (j + 1) (omega arith) same (rw stop at each))
      ]

  -- The entry of a second-level table: the block of its pages goes.
  free_block :
      (j pmd : ℕ) (s : Kernel) (rest : List ℕ)
      → let t = pte_to_pa (read64 s.mem (slot pmd j)) in
        is_valid (read64 s.mem (slot pmd j)) ≡ true
        → All (IsPage l) (leaf_pages l s.mem t 512 0 ++ (t ∷ rest))
        → Distinct (leaf_pages l s.mem t 512 0 ++ (t ∷ rest))
        → free_pte_table l pmd j s ≡ ok tt (link t (frees (leaf_pages l s.mem t 512 0) s))
  unfolding free_pte_table load64
  free_block j pmd s rest valid pages distinct =
      let t : ℕ = pte_to_pa (read64 s.mem (slot pmd j)) in
      let qs : List ℕ = leaf_pages l s.mem t 512 0 in
      let page : IsPage l t = (All-append_right (IsPage l) qs (t ∷ rest) pages).0 in
      let out : has t qs ≡ false = Distinct-Apart qs (t ∷ rest) distinct t (ground arith) in
      rw valid (
        rw
          (free_leaves 512 0 t s (omega arith) page (All-append_left (IsPage l) qs (t ∷ rest) pages)
            out)
          (free_page-link t (frees qs s) page))

  -- What holds of the rest of a block's list once the block is gone.
  pub block_gone :
      (qs : List ℕ) (t : ℕ) (rest : List ℕ) (s : Kernel) (x : ℕ)
      → All (IsPage l) (qs ++ (t ∷ rest))
      → Distinct (qs ++ (t ∷ rest))
      → has x rest ≡ true
      → Agrees s.mem (link t (frees qs s)).mem x
  block_gone qs t rest s x pages distinct h =
      let later = All-append_right (IsPage l) qs (t ∷ rest) pages in
      let (new, _) = Distinct-append_right qs (t ∷ rest) distinct in
      rest-Agrees qs t rest s x pages (IsPage-of_has rest x later.1 h)
        (Distinct-Apart qs (t ∷ rest) distinct x (ground (arith, h)))
        (λ e. let bad : has t rest ≡ true = rw (← e) h in ground (arith, new, bad))

  pub frees-block :
      (qs : List ℕ) (t : ℕ) (rest : List ℕ) (s : Kernel)
      → frees (qs ++ (t ∷ rest)) s ≡ frees rest (link t (frees qs s))
  unfolding frees
  frees-block qs t rest s = frees-append qs (t ∷ rest) s

  pub free_tables :
      (left j pmd : ℕ) (s : Kernel)
      → j + left ≤ 512
      → IsPage l pmd
      → All (IsPage l) (table_pages l s.mem pmd left j)
      → Distinct (table_pages l s.mem pmd left j)
      → has pmd (table_pages l s.mem pmd left j) ≡ false
      → for_each left j (free_pte_table l pmd) s ≡ ok tt (frees (table_pages l s.mem pmd left j) s)
  unfolding for_each table_pages
  free_tables zero j pmd s top page pages distinct out = unfold frees in refl
  free_tables (suc left) j pmd s top page pages distinct out =
      elim (Bool-cases (is_valid (read64 s.mem (slot pmd j)))) [
        | inl valid ↦
            let t : ℕ = pte_to_pa (read64 s.mem (slot pmd j)) in
            let qs = leaf_pages l s.mem t 512 0 in
            let rest = table_pages l s.mem pmd left (j + 1) in
            let pages' : All (IsPage l) (qs ++ (t ∷ rest)) = rw valid at pages in
            let distinct' : Distinct (qs ++ (t ∷ rest)) = rw valid at distinct in
            let out' : has pmd (qs ++ (t ∷ rest)) ≡ false = rw valid at out in
            let split = has-append pmd qs (t ∷ rest) in
            let s' : Kernel = link t (frees qs s) in
            let kept : table_pages l s'.mem pmd left (j + 1) ≡ rest =
              table_pages-frame s.mem s'.mem pmd left (j + 1) (omega arith)
                (rest-Agrees qs t rest s pmd pages' page (ground (arith, out', split))
                  (ground (arith, out', split)))
                (λ x h. block_gone qs t rest s x pages' distinct' h) in
            rw (free_block j pmd s rest valid pages' distinct', valid, frees-block qs t rest s)
              (free_tables left (j + 1) pmd s' (omega arith) page
                  (rw kept (All-append_right (IsPage l) qs (t ∷ rest) pages').1)
                  (rw kept (Distinct-append_right qs (t ∷ rest) distinct').1)
                  (rw kept (ground (arith, out', split)))
                ∙ rw kept)
        | inr stop ↦
            let skips : free_pte_table l pmd j s ≡ ok tt s =
              unfold free_pte_table load64 in rw stop in
            rw (skips, stop)
              (free_tables left (j + 1) pmd s (omega arith) page (rw stop at pages)
                (rw stop at distinct) (rw stop at out))
      ]
