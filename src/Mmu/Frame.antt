-- ===== src/Mmu/Frame.antt =====
-- Changes of memory that leave page tables alone, and the page of data that is one of them.
use riscvkernel_hit.Base.{
  ℕ, zero, suc, ◌+◌, ◌*◌, ◌≤◌, ◌<◌, ◌≡◌, ◌≢◌, ◌⊎◌, inl, inr, ◌∙◌, sym, List, ◌∷◌, true, ◌==◌, arith,
  has, update, Bool-cases,
}
use riscvkernel_hit.Memory.Defs.{Mem, read64}
use riscvkernel_hit.Memory.Laws.{read64_ext}
use riscvkernel_hit.Kernel.Defs.{Kernel, Layout}
use riscvkernel_hit.Page.Defs.{page_size}
use riscvkernel_hit.Page.FreeList.{IsPage, FreeList-frame, IsPage-of_has, ne_of_has}
use riscvkernel_hit.Page.Alloc.{Allocated, SameOutside, alloc_page-Allocated}
use riscvkernel_hit.Mmu.Pte.{get_vpn, pte_to_pa, is_valid}
use riscvkernel_hit.Mmu.Fields.{get_vpn-lt}
use riscvkernel_hit.Mmu.Defs.{slot}
use riscvkernel_hit.Mmu.Lookup.{lookup_from}
use riscvkernel_hit.Mmu.Tree.{Role, free, table, other, Spaces}
use riscvkernel_hit.Mmu.Owned.{Agrees}

-- All tables have the same entries in both memories.
abbrev pub TablesAgree : (ℕ → Role) → Mem → Mem → Type 0
TablesAgree role m m' = (t r k n : ℕ) → role t ≡ table r k n → Agrees m m' t

pub Spaces-frame :
    {l : Layout} {m m' : Mem} {head : ℕ} {role : ℕ → Role} {xs : List ℕ}
    → Spaces l m head role xs
    → TablesAgree role m m'
    → ((x : ℕ) → has x xs ≡ true → read64 m' x ≡ read64 m x)
    → Spaces l m' head role xs
Spaces-frame {m'} sp same spare = record {
  frees = FreeList-frame m' sp.frees spare;
  spare = sp.spare;
  pages = sp.pages;
  child = λ t r k n i h low valid.
      let e = same t r (suc k) n h i low in rw e (sp.child t r k n i h low (rw e at valid));
}

pub lookup-frame :
    {l : Layout} {m : Mem} (m' : Mem) {head : ℕ} {role : ℕ → Role} {xs : List ℕ}
    → Spaces l m head role xs
    → TablesAgree role m m'
    → (level y r n va : ℕ) → role y ≡ table r level n
    → lookup_from m' level y va ≡ lookup_from m level y va
unfolding lookup_from
lookup-frame m' sp same zero y r n va h = rw (same y r 0 n h (get_vpn va 0) (get_vpn-lt va 0))
lookup-frame {m} m' sp same (suc level) y r n va h =
    let i : ℕ = get_vpn va (suc level) in
    let low : i < 512 = get_vpn-lt va (suc level) in
    rw (same y r (suc level) n h i low) (elim (Bool-cases (is_valid (read64 m (slot y i)))) [
      | inl valid ↦ rw valid (
          lookup-frame m' sp same level (pte_to_pa (read64 m (slot y i))) r (n * 512 + i) va
            (sp.child y r level n i h low valid))
      | inr stop ↦ rw stop
    ])

pub read64_apart :
    (x : ℕ) (m m' : Mem) (a : ℕ)
    → SameOutside x page_size m m'
    → (a + 8 ≤ x) ⊎ (x + page_size ≤ a)
    → read64 m' a ≡ read64 m a
read64_apart x m m' a same h =
    read64_ext m m' a (λ i lt. same (a + i) (ground arith)) (same a (ground arith))

-- A page that is no table, and a memory that differs only on it.
pub TablesAgree-data :
    {l : Layout} {m : Mem} (m' : Mem) {head : ℕ} {role : ℕ → Role} {xs : List ℕ} (x : ℕ)
    → Spaces l m head role xs
    → IsPage l x
    → ((r k n : ℕ) → role x ≢ table r k n)
    → SameOutside x page_size m m'
    → TablesAgree role m m'
TablesAgree-data {m} m' x sp page no_table same = λ t r k n h i low.
    let tp = sp.pages t r k n h in
    let ne : t ≢ x = λ e. no_table r k n (rw e at h) in
    read64_apart x m m' (slot t i) same (ground (arith, tp.aligned, page.aligned, ne))

pub free-not_table :
    {l : Layout} {m : Mem} {head : ℕ} {role : ℕ → Role} {xs : List ℕ} (x : ℕ)
    → Spaces l m head role xs
    → has x xs ≡ true
    → (r k n : ℕ) → role x ≢ table r k n
free-not_table x sp h = λ r k n e. let bad : free ≡ table r k n = sym (sp.spare x h) ∙ e in cc

pub other-not_table :
    (role : ℕ → Role) (x : ℕ) → role x ≡ other → (r k n : ℕ) → role x ≢ table r k n
other-not_table role x h = λ r k n e. let bad : other ≡ table r k n = sym h ∙ e in cc

-- Data is written to a page that holds data.
pub data-Spaces :
    {l : Layout} {m : Mem} (m' : Mem) {head : ℕ} {role : ℕ → Role} {xs : List ℕ} (x : ℕ)
    → Spaces l m head role xs
    → IsPage l x
    → role x ≡ other
    → SameOutside x page_size m m'
    → Spaces l m' head role xs
data-Spaces {m} m' {role} {xs} x sp page is_data same =
    Spaces-frame {m = m} {m' = m'} sp
      (TablesAgree-data m' x sp page (other-not_table role x is_data) same)
      λ y h.
        let py = IsPage-of_has xs y sp.frees.pages h in
        let ne : y ≢ x = λ e. not_both (sp.spare y h) (rw e is_data) in
        read64_apart x m m' y same (ground (arith, py.aligned, page.aligned, ne))
  where
    not_both : {y : ℕ} → role y ≡ free → role y ≡ other → ⊥
    not_both a b = let bad : free ≡ other = sym a ∙ b in cc

-- A free page becomes a page of data.
module _ (l : Layout) (s : Kernel) (role : ℕ → Role) (x : ℕ) (xs : List ℕ)
    (sp : Spaces l s.mem s.free_list role (x ∷ xs)) where
  pub got_data : Allocated l s x xs
  got_data = alloc_page-Allocated s x xs sp.frees

  abbrev pub role_data : ℕ → Role
  role_data = update role x other

  pub role_data-kept : (y r k n : ℕ) → role y ≡ table r k n → role_data y ≡ table r k n
  role_data-kept y r k n h =
      let ne : y ≢ x = λ e. free-not_table x sp (ground arith) r k n (rw e at h) in
      ground (arith, ne)

  pub data_tables : TablesAgree role s.mem got_data.mem'
  data_tables =
      TablesAgree-data got_data.mem' x sp sp.frees.pages.0 (free-not_table x sp (ground arith))
        got_data.same

  pub got_data-Spaces : Spaces l got_data.mem' got_data.head' role_data xs
  got_data-Spaces = record {
    frees = got_data.rest;
    spare =
        λ y h. let ne = ne_of_has xs x y sp.frees.distinct.0 h in ground (arith, ne, sp.spare y);
    pages = λ y r k n h. sp.pages y r k n (was y r k n h);
    child = λ y r k n i h low valid.
        let e = data_tables y r (suc k) n (was y r (suc k) n h) i low in
        let valid' : is_valid (read64 s.mem (slot y i)) ≡ true = rw e at valid in
        rw e (
          role_data-kept (pte_to_pa (read64 s.mem (slot y i))) r k (n * 512 + i)
            (sp.child y r k n i (was y r (suc k) n h) low valid'));
  }
    where
      was : (y r k n : ℕ) → role_data y ≡ table r k n → role y ≡ table r k n
      was y r k n h = elim (Bool-cases (x == y)) [
        | inl e ↦ let bad : other ≡ table r k n = rw e at h in absurd (cc)
        | inr e ↦ rw e at h
      ]
