-- ===== src/Mmu/Grow.antt =====
-- A new table in an empty entry: the tree stays a tree, and every translation stays as it was.
use riscvkernel_hit.Base.{
  ℕ, zero, suc, ◌+◌, ◌*◌, ◌%◌, ◌^◌, ◌≤◌, ◌<◌, ◌≡◌, ◌≢◌, ◌⊎◌, inl, inr, ◌∙◌, sym, List, ◌∷◌, true,
  false, arith, update, ◌==◌, Bool-cases, none,
}
use riscvkernel_hit.Memory.Defs.{Mem, read64, write64}
use riscvkernel_hit.Memory.Laws.{
  read64-write64_self, read64-write64_apart, read64_ext, write64-outside,
}
use riscvkernel_hit.Kernel.Defs.{Kernel, Layout, ok}
use riscvkernel_hit.Page.Defs.{page_size}
use riscvkernel_hit.Page.FreeList.{IsPage, FreeList-frame, IsPage-of_has, ne_of_has}
use riscvkernel_hit.Page.Alloc.{Allocated, SameOutside, alloc_page-Allocated}
use riscvkernel_hit.Mmu.Pte.{pte_v, get_vpn, pte_to_pa, pa_to_pte, is_valid}
use riscvkernel_hit.Mmu.Fields.{get_vpn-lt, pte_fields, is_valid_lem}
use riscvkernel_hit.Mmu.Defs.{slot, add_table}
use riscvkernel_hit.Mmu.Lookup.{lookup_from}
use riscvkernel_hit.Mmu.Tree.{Role, free, table, other, Spaces}

pub read64_zeroes : (m : Mem) (a : ℕ) → ((b : ℕ) → a ≤ b → b < a + 8 → m b ≡ 0) → read64 m a ≡ 0
unfolding read64
read64_zeroes m a h = omega (
  arith,
  h a (omega arith) (omega arith),
  h (a + 1) (omega arith) (omega arith),
  h (a + 2) (omega arith) (omega arith),
  h (a + 3) (omega arith) (omega arith),
  h (a + 4) (omega arith) (omega arith),
  h (a + 5) (omega arith) (omega arith),
  h (a + 6) (omega arith) (omega arith),
  h (a + 7) (omega arith) (omega arith),
)

read64_same :
    (x : ℕ) (m m' : Mem) (a : ℕ)
    → SameOutside x page_size m m'
    → (a + 8 ≤ x) ⊎ (x + page_size ≤ a)
    → read64 m' a ≡ read64 m a
read64_same x m m' a same h =
    read64_ext m m' a (λ i lt. same (a + i) (ground arith)) (same a (ground arith))

-- `i` is the entry of the table `t` that receives the page `x`.
module _ (l : Layout) (s : Kernel) (role : ℕ → Role) (x : ℕ) (xs : List ℕ) (t r k n i : ℕ)
    (sp : Spaces l s.mem s.free_list role (x ∷ xs)) (tab : role t ≡ table r (suc k) n)
    (low : i < 512) where
  pub got : Allocated l s x xs
  got = alloc_page-Allocated s x xs sp.frees

  abbrev pub grown : Mem
  grown = write64 got.mem' (slot t i) (pa_to_pte x pte_v)

  abbrev pub role_grown : ℕ → Role
  role_grown = update role x (table r k (n * 512 + i))

  x-IsPage : IsPage l x
  x-IsPage = sp.frees.pages.0

  t-IsPage : IsPage l t
  t-IsPage = sp.pages t r (suc k) n tab

  x-free : role x ≡ free
  x-free = sp.spare x (ground arith)

  x≢t : x ≢ t
  x≢t e = let bad : free ≡ table r (suc k) n = sym x-free ∙ (rw e tab) in cc

  pub entry-fields :
      (pte_to_pa (pa_to_pte x pte_v) ≡ x)
      × (is_valid (pa_to_pte x pte_v) ≡ true)
      × (pa_to_pte x pte_v < 2 ^ 64)
  entry-fields =
      let f = pte_fields x pte_v x-IsPage.aligned (omega (arith, x-IsPage.below)) (omega arith) in
      (f.0, f.2 ∙ is_valid_lem pte_v, f.3)

  pub grown-entry : read64 grown (slot t i) ≡ pa_to_pte x pte_v
  grown-entry = read64-write64_self got.mem' (slot t i) (pa_to_pte x pte_v) entry-fields.2

  grown-other :
      (y j : ℕ)
      → IsPage l y
      → j < 512
      → y ≢ x
      → (y ≢ t) ⊎ (j ≢ i)
      → read64 grown (slot y j) ≡ read64 s.mem (slot y j)
  grown-other y j page lt ne apart =
      read64-write64_apart got.mem' (slot t i) (pa_to_pte x pte_v) (slot y j)
        (ground (arith, page.aligned, t-IsPage.aligned))
      ∙ read64_same x s.mem got.mem' (slot y j) got.same
          (ground (arith, page.aligned, x-IsPage.aligned))

  grown-new : (j : ℕ) → j < 512 → read64 grown (slot x j) ≡ 0
  grown-new j lt =
      read64-write64_apart got.mem' (slot t i) (pa_to_pte x pte_v) (slot x j)
        (ground (arith, x-IsPage.aligned, t-IsPage.aligned, x≢t))
      ∙ read64_zeroes got.mem' (slot x j) (λ b lo hi. got.cleared b (omega arith) (omega arith))

  is_valid-zero : is_valid 0 ≡ false
  is_valid-zero = is_valid_lem 0

  -- A page of the old tree is not the new table.
  old-ne : (y r' k' n' : ℕ) → role y ≡ table r' k' n' → y ≢ x
  old-ne y r' k' n' h e = let bad : free ≡ table r' k' n' = sym x-free ∙ (rw (← e) h) in cc

  -- The entries of a table of the old tree, but for the one that was filled, are as they were.
  pub grown-old :
      (y j r' k' n' : ℕ)
      → role y ≡ table r' k' n'
      → j < 512
      → (y ≢ t) ⊎ (j ≢ i)
      → read64 grown (slot y j) ≡ read64 s.mem (slot y j)
  grown-old y j r' k' n' h lt apart =
      grown-other y j (sp.pages y r' k' n' h) lt (old-ne y r' k' n' h) apart

  pub role_grown-old : (y r' k' n' : ℕ) → role y ≡ table r' k' n' → role_grown y ≡ table r' k' n'
  role_grown-old y r' k' n' h = ground (arith, old-ne y r' k' n' h)

  grown-child :
      (y r' k' n' j : ℕ)
      → role y ≡ table r' (suc k') n'
      → j < 512
      → is_valid (read64 grown (slot y j)) ≡ true
      → role_grown (pte_to_pa (read64 grown (slot y j))) ≡ table r' k' (n' * 512 + j)
  grown-child y r' k' n' j h lt valid = elim (Bool-cases (y == t)) [
    | inl e ↦ elim (Bool-cases (j == i)) [
      | inl e' ↦
          let here : y ≡ t = ground arith in
          let there : j ≡ i = ground arith in
          let roles : table r' (suc k') n' ≡ table r (suc k) n = sym h ∙ (rw here tab) in
          let reads : pte_to_pa (read64 grown (slot y j)) ≡ x =
            rw (here, there, grown-entry) entry-fields.0 in
          rw reads (ground (arith, roles))
      | inr e' ↦ old (inr (ground arith))
    ]
    | inr e ↦ old (inl (ground arith))
  ]
    where
      old :
          (y ≢ t) ⊎ (j ≢ i)
          → role_grown (pte_to_pa (read64 grown (slot y j))) ≡ table r' k' (n' * 512 + j)
      old apart =
          let same = grown-old y j r' (suc k') n' h lt apart in
          let valid' : is_valid (read64 s.mem (slot y j)) ≡ true = rw same at valid in
          rw same (
            role_grown-old (pte_to_pa (read64 s.mem (slot y j))) r' k' (n' * 512 + j)
              (sp.child y r' k' n' j h lt valid'))

  -- The code of the step.
  pub add_table-grown :
      add_table (slot t i) s ≡ ok x (record s { mem = grown; free_list = got.head' })
  unfolding add_table
  add_table-grown = rw got.returns

  -- A page of data keeps its bytes.
  pub grown-contents :
      (y b : ℕ) → role y ≡ other → y % page_size ≡ 0 → y ≤ b → b < y + page_size → grown b ≡ s.mem b
  grown-contents y b h al lo hi =
      let ne : y ≢ x = λ e. not_free (rw (← e) h) in
      let ne' : y ≢ t = λ e. not_table (rw (← e) h) in
      write64-outside got.mem' (slot t i) (pa_to_pte x pte_v) b
        (ground (arith, t-IsPage.aligned, ne'))
      ∙ got.same b (ground (arith, x-IsPage.aligned, ne))
    where
      not_free : role x ≡ other → ⊥
      not_free e = let bad : free ≡ other = sym x-free ∙ e in cc

      not_table : role t ≡ other → ⊥
      not_table e = let bad : other ≡ table r (suc k) n = sym e ∙ tab in cc

  -- With `x` as a table of its own the pages are a tree again.
  pub grown-Spaces : Spaces l grown got.head' role_grown xs
  grown-Spaces = record {
    frees = FreeList-frame grown got.rest λ y h.
        let page = IsPage-of_has xs y sp.frees.pages.1 h in
        let spare : role y ≡ free = sp.spare y (ground arith) in
        let ne : y ≢ t = λ e. not_table y spare (rw e tab) in
        read64-write64_apart got.mem' (slot t i) (pa_to_pte x pte_v) y
          (ground (arith, page.aligned, t-IsPage.aligned, ne));
    spare =
        λ y h. let ne = ne_of_has xs x y sp.frees.distinct.0 h in ground (arith, ne, sp.spare y);
    pages = λ y r' k' n' h. elim (Bool-cases (x == y)) [
      | inl e ↦ let here : x ≡ y = ground arith in rw (← here) x-IsPage
      | inr e ↦ sp.pages y r' k' n' (rw e at h)
    ];
    child = λ y r' k' n' j h lt valid. elim (Bool-cases (x == y)) [
      | inl e ↦
          let here : x ≡ y = ground arith in
          let none_left : read64 grown (slot y j) ≡ 0 = rw (← here) (grown-new j lt) in
          let bad : is_valid 0 ≡ true = rw none_left at valid in
          absurd (ground (arith, is_valid-zero, bad))
      | inr e ↦ grown-child y r' k' n' j (rw e at h) lt valid
    ];
  }
    where
      not_table : (y : ℕ) → role y ≡ free → role y ≡ table r (suc k) n → ⊥
      not_table y a b = let bad : free ≡ table r (suc k) n = sym a ∙ b in cc

  lookup-new : (level va : ℕ) → lookup_from grown level x va ≡ none
  unfolding lookup_from
  lookup-new zero va = rw (grown-new (get_vpn va 0) (get_vpn-lt va 0), is_valid-zero)
  lookup-new (suc level) va =
      rw (grown-new (get_vpn va (suc level)) (get_vpn-lt va (suc level)), is_valid-zero)

  -- The way of an address through the entry that was empty: no translation before, none after.
  lookup-filled :
      (level va : ℕ)
      → get_vpn va (suc level) ≡ i
      → is_valid (read64 s.mem (slot t i)) ≡ false
      → lookup_from grown (suc level) t va ≡ lookup_from s.mem (suc level) t va
  unfolding lookup_from
  lookup-filled level va e empty =
      rw (e, grown-entry, entry-fields.1, entry-fields.0, empty) (lookup-new level va)

  -- Every translation from a table of the old tree is the same as before.
  pub grown-lookup :
      is_valid (read64 s.mem (slot t i)) ≡ false
      → (level y r' n' va : ℕ) → role y ≡ table r' level n'
      → lookup_from grown level y va ≡ lookup_from s.mem level y va
  unfolding lookup_from
  grown-lookup empty zero y r' n' va h =
      let ne : y ≢ t = λ e. levels e in
      rw (grown-old y (get_vpn va 0) r' 0 n' h (get_vpn-lt va 0) (inl ne))
    where
      levels : y ≡ t → ⊥
      levels e =
          let bad : table r' 0 n' ≡ table r (suc k) n = sym h ∙ (rw e tab) in ground (arith, bad)
  grown-lookup empty (suc level) y r' n' va h = elim (Bool-cases (y == t)) [
    | inl e ↦ elim (Bool-cases (get_vpn va (suc level) == i)) [
      | inl e' ↦
          let here : y ≡ t = ground arith in rw here (lookup-filled level va (ground arith) empty)
      | inr e' ↦
          old (inr (ground arith))
            (λ c. grown-lookup empty level c r' (n' * 512 + get_vpn va (suc level)) va)
    ]
    | inr e ↦
        old (inl (ground arith))
          (λ c. grown-lookup empty level c r' (n' * 512 + get_vpn va (suc level)) va)
  ]
    where
      old :
          (y ≢ t) ⊎ (get_vpn va (suc level) ≢ i)
          → ((c : ℕ)
              → role c ≡ table r' level (n' * 512 + get_vpn va (suc level))
              → lookup_from grown level c va ≡ lookup_from s.mem level c va)
          → lookup_from grown (suc level) y va ≡ lookup_from s.mem (suc level) y va
      old apart ih =
          rw
            (grown-old y (get_vpn va (suc level)) r' (suc level) n' h (get_vpn-lt va (suc level))
              apart)
            (elim (Bool-cases (is_valid (read64 s.mem (slot y (get_vpn va (suc level)))))) [
              | inl valid ↦ rw valid (
                  ih (pte_to_pa (read64 s.mem (slot y (get_vpn va (suc level))))) (
                    sp.child y r' level n' (get_vpn va (suc level)) h (get_vpn-lt va (suc level))
                      valid))
              | inr stop ↦ rw stop
            ])
