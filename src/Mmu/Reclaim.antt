-- ===== src/Mmu/Reclaim.antt =====
-- `free_user_page_table` gives back exactly the pages of the address space.
use riscvkernel_hit.Base.{
  ℕ, zero, suc, ◌+◌, ◌≤◌, ◌<◌, ◌≡◌, ◌⊎◌, inl, inr, refl, ◌∙◌, List, [], ◌∷◌, ◌++◌, true, false,
  ◌==◌, arith, has, has-append, Distinct, Apart, Distinct-append_left, Distinct-append_right,
  Distinct-Apart, All, All-append_left, All-append_right, Bool-cases,
}
use riscvkernel_hit.Memory.Defs.{Mem, read64}
use riscvkernel_hit.Kernel.Defs.{Kernel, Layout, ok}
use riscvkernel_hit.Page.Defs.{link}
use riscvkernel_hit.Page.FreeList.{IsPage, FreeList}
use riscvkernel_hit.Mmu.Pte.{pte_to_pa, is_valid}
use riscvkernel_hit.Mmu.Defs.{slot, load64}
use riscvkernel_hit.Mmu.Spaces.{for_each, free_pmd, free_user_page_table}
use riscvkernel_hit.Mmu.Owned.{
  table_pages, space_pages, owned, rev_onto, frees, frees-append, frees-shape, frees-outside,
  Agrees, frees-FreeList,
}
use riscvkernel_hit.Mmu.Release.{
  free_page-link, rest-Agrees, table_pages-frame, block_gone, frees-block, free_tables,
}

module _ (l : Layout) where
  space_pages-frame :
      (m m' : Mem) (root pgd left i : ℕ)
      → i + left ≤ 512
      → Agrees m m' root
      → Agrees m m' pgd
      → ((x : ℕ) → has x (space_pages l m root pgd left i) ≡ true → Agrees m m' x)
      → space_pages l m' root pgd left i ≡ space_pages l m root pgd left i
  unfolding space_pages
  space_pages-frame m m' root pgd zero i top rooted same each = refl
  space_pages-frame m m' root pgd (suc left) i top rooted same each =
      let pte : ℕ = read64 m (slot pgd i) in
      let t : ℕ = pte_to_pa pte in
      let later = space_pages-frame m m' root pgd left (i + 1) (omega arith) rooted same in
      elim (Bool-cases (pte == read64 m (slot root i))) [
        | inl shared ↦
            rw (same i (omega arith), rooted i (omega arith), shared) (later (rw shared at each))
        | inr own ↦ elim (Bool-cases (is_valid pte)) [
          | inl valid ↦
              let qs = table_pages l m t 512 0 in
              let rest = space_pages l m root pgd left (i + 1) in
              let each' : (x : ℕ) → has x (qs ++ (t ∷ rest)) ≡ true → Agrees m m' x =
                rw (own, valid) at each in
              let within : Agrees m m' t = each' t (ground (arith, has-append t qs (t ∷ rest))) in
              rw (same i (omega arith), rooted i (omega arith), own, valid)
                (rw (
                  table_pages-frame l m m' t 512 0 (omega arith) within
                      (λ x h. each' x (ground (arith, has-append x qs (t ∷ rest), h))),
                  later (λ x h. each' x (ground (arith, has-append x qs (t ∷ rest), h))),
                ))
          | inr stop ↦
              rw (same i (omega arith), rooted i (omega arith), own, stop)
                (later (rw (own, stop) at each))
        ]
      ]

  -- An entry of the root table that is not the kernel's: its tables and pages go.
  free_branch :
      (i pgd : ℕ) (s : Kernel) (rest : List ℕ)
      → let t = pte_to_pa (read64 s.mem (slot pgd i)) in
        (read64 s.mem (slot pgd i) == read64 s.mem (slot s.root_page_table i)) ≡ false
        → is_valid (read64 s.mem (slot pgd i)) ≡ true
        → All (IsPage l) (table_pages l s.mem t 512 0 ++ (t ∷ rest))
        → Distinct (table_pages l s.mem t 512 0 ++ (t ∷ rest))
        → free_pmd l pgd i s ≡ ok tt (link t (frees (table_pages l s.mem t 512 0) s))
  unfolding free_pmd load64
  free_branch i pgd s rest own valid pages distinct =
      let t : ℕ = pte_to_pa (read64 s.mem (slot pgd i)) in
      let qs : List ℕ = table_pages l s.mem t 512 0 in
      let page : IsPage l t = (All-append_right (IsPage l) qs (t ∷ rest) pages).0 in
      let out : has t qs ≡ false = Distinct-Apart qs (t ∷ rest) distinct t (ground arith) in
      rw (own, valid)
        (rw
          (free_tables l 512 0 t s (omega arith) page
            (All-append_left (IsPage l) qs (t ∷ rest) pages)
            (Distinct-append_left qs (t ∷ rest) distinct) out)
          (free_page-link l t (frees qs s) page))

  frees-root : (ps : List ℕ) (s : Kernel) → (frees ps s).root_page_table ≡ s.root_page_table
  frees-root ps s = rw (frees-shape ps s)

  free_branches :
      (left i root pgd : ℕ) (s : Kernel)
      → i + left ≤ 512
      → s.root_page_table ≡ root
      → IsPage l root
      → IsPage l pgd
      → All (IsPage l) (space_pages l s.mem root pgd left i)
      → Distinct (space_pages l s.mem root pgd left i)
      → has pgd (space_pages l s.mem root pgd left i) ≡ false
      → has root (space_pages l s.mem root pgd left i) ≡ false
      → for_each left i (free_pmd l pgd) s ≡ ok tt (frees (space_pages l s.mem root pgd left i) s)
  unfolding for_each space_pages
  free_branches zero i root pgd s top rooted rp page pages distinct out apart = unfold frees in refl
  free_branches (suc left) i root pgd s top rooted rp page pages distinct out apart =
      elim (Bool-cases (read64 s.mem (slot pgd i) == read64 s.mem (slot root i))) [
        | inl shared ↦
            let skips : free_pmd l pgd i s ≡ ok tt s =
              unfold free_pmd load64 in rw (rooted, shared) in
            rw (skips, shared)
              (free_branches left (i + 1) root pgd s (omega arith) rooted rp page
                (rw shared at pages) (rw shared at distinct) (rw shared at out)
                (rw shared at apart))
        | inr own ↦ elim (Bool-cases (is_valid (read64 s.mem (slot pgd i)))) [
          | inl valid ↦
              let t : ℕ = pte_to_pa (read64 s.mem (slot pgd i)) in
              let qs = table_pages l s.mem t 512 0 in
              let rest = space_pages l s.mem root pgd left (i + 1) in
              let pages' : All (IsPage l) (qs ++ (t ∷ rest)) = rw (own, valid) at pages in
              let distinct' : Distinct (qs ++ (t ∷ rest)) = rw (own, valid) at distinct in
              let out' : has pgd (qs ++ (t ∷ rest)) ≡ false = rw (own, valid) at out in
              let apart' : has root (qs ++ (t ∷ rest)) ≡ false = rw (own, valid) at apart in
              let split = has-append pgd qs (t ∷ rest) in
              let split' = has-append root qs (t ∷ rest) in
              let s' : Kernel = link t (frees qs s) in
              let kept : space_pages l s'.mem root pgd left (i + 1) ≡ rest =
                space_pages-frame s.mem s'.mem root pgd left (i + 1) (omega arith)
                  (rest-Agrees l qs t rest s root pages' rp (ground (arith, apart', split'))
                    (ground (arith, apart', split')))
                  (rest-Agrees l qs t rest s pgd pages' page (ground (arith, out', split))
                    (ground (arith, out', split)))
                  (λ x h. block_gone l qs t rest s x pages' distinct' h) in
              let own' : (read64 s.mem (slot pgd i) == read64 s.mem (slot s.root_page_table i))
                  ≡ false =
                rw rooted own in
              let rooted' : s'.root_page_table ≡ root = unfold link in frees-root qs s ∙ rooted in
              rw
                (
                  free_branch i pgd s rest own' valid pages' distinct',
                  own,
                  valid,
                  frees-block l qs t rest s,
                )
                (free_branches left (i + 1) root pgd s' (omega arith) rooted' rp page
                    (rw kept (All-append_right (IsPage l) qs (t ∷ rest) pages').1)
                    (rw kept (Distinct-append_right qs (t ∷ rest) distinct').1)
                    (rw kept (ground (arith, out', split)))
                    (rw kept (ground (arith, apart', split')))
                  ∙ rw kept)
          | inr stop ↦
              let skips : free_pmd l pgd i s ≡ ok tt s =
                unfold free_pmd load64 in rw (rooted, own, stop) in
              rw (skips, own, stop)
                (free_branches left (i + 1) root pgd s (omega arith) rooted rp page
                  (rw (own, stop) at pages) (rw (own, stop) at distinct) (rw (own, stop) at out)
                  (rw (own, stop) at apart))
        ]
      ]

-- What has to hold of an address space so that it can be given back: its pages are pages of the
-- allocator, each counted once and none free, and the kernel's root table is not among them.
pub record Owns (l : Layout) (s : Kernel) (pgd : ℕ) (xs : List ℕ) : Type 0 where
  pub frees : FreeList l s.mem s.free_list xs
  pub root : IsPage l s.root_page_table
  pub pages : All (IsPage l) (owned l s.mem s.root_page_table pgd)
  pub distinct : Distinct (owned l s.mem s.root_page_table pgd)
  pub rootless : has s.root_page_table (owned l s.mem s.root_page_table pgd) ≡ false
  pub in_use : Apart (owned l s.mem s.root_page_table pgd) xs

-- A call that gives back the pages `ps` one after the other.
pub record Released (l : Layout) (s : Kernel) (pgd : ℕ) (ps xs : List ℕ) : Type 0 where
  pub mem' : Mem
  pub head' : ℕ
  pub returns : free_user_page_table l pgd s ≡ ok tt (record s { mem = mem'; free_list = head' })
  pub frees : FreeList l mem' head' (rev_onto ps xs)
  pub same : (b : ℕ) → All (λ p. (b < p) ⊎ (p + 8 ≤ b)) ps → mem' b ≡ s.mem b

-- `free_user_page_table` of an address space whose pages are pages of the allocator, each counted
-- once, none free, and the kernel's root table not among them, returns: it puts its data pages
-- behind the kernel's image, its tables of all levels and its root table in front of the free
-- list, each once, nothing that it shares with the kernel's root table, and writes no more than the
-- first word of each of those pages.
pub free_user_page_table-Released :
    (l : Layout) (s : Kernel) (pgd : ℕ) (xs : List ℕ)
    → Owns l s pgd xs
    → Released l s pgd (owned l s.mem s.root_page_table pgd) xs
unfolding free_user_page_table
free_user_page_table-Released l s pgd xs owns =
    let root : ℕ = s.root_page_table in
    let qs = space_pages l s.mem root pgd 512 0 in
    let ps = owned l s.mem root pgd in
    let page : IsPage l pgd = (All-append_right (IsPage l) qs (pgd ∷ []) owns.pages).0 in
    let out : has pgd qs ≡ false = Distinct-Apart qs (pgd ∷ []) owns.distinct pgd (ground arith) in
    let apart : has root qs ≡ false =
      ground (arith, owns.rootless, has-append root qs (pgd ∷ [])) in
    let goes =
      free_branches l 512 0 root pgd s (omega arith) refl owns.root page
        (All-append_left (IsPage l) qs (pgd ∷ []) owns.pages)
        (Distinct-append_left qs (pgd ∷ []) owns.distinct) out apart in
    let last : frees ps s ≡ link pgd (frees qs s) = unfold frees in frees-append qs (pgd ∷ []) s in
    record {
      mem' = (frees ps s).mem;
      head' = (frees ps s).free_list;
      returns = rw (goes, free_page-link l pgd (frees qs s) page, ← last, ← frees-shape ps s) refl;
      frees = frees-FreeList ps s xs owns.frees owns.pages owns.distinct owns.in_use;
      same = λ b h. frees-outside ps s b h;
    }
