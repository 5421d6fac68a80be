-- ===== src/Mmu/Root.antt =====
-- A fresh page as the root table of a new address space, in which nothing is mapped.
use riscvkernel_hit.Base.{
  ℕ, suc, ◌+◌, ◌*◌, ◌<◌, ◌≡◌, ◌≢◌, inl, inr, ◌∙◌, sym, List, ◌∷◌, true, false, none, ◌==◌, arith,
  update, Bool-cases,
}
use riscvkernel_hit.Memory.Defs.{read64}
use riscvkernel_hit.Kernel.Defs.{Kernel, Layout}
use riscvkernel_hit.Page.FreeList.{IsPage, ne_of_has}
use riscvkernel_hit.Page.Alloc.{Allocated}
use riscvkernel_hit.Mmu.Pte.{get_vpn, pte_to_pa, is_valid}
use riscvkernel_hit.Mmu.Fields.{get_vpn-lt, is_valid_lem}
use riscvkernel_hit.Mmu.Defs.{slot}
use riscvkernel_hit.Mmu.Lookup.{lookup, lookup_from}
use riscvkernel_hit.Mmu.Tree.{Role, free, table, other, Spaces}
use riscvkernel_hit.Mmu.Grow.{read64_zeroes}
use riscvkernel_hit.Mmu.Frame.{got_data, data_tables, free-not_table, lookup-frame}
use riscvkernel_hit.Mmu.Grows.{Grows}

module _ (l : Layout) (s : Kernel) (role : ℕ → Role) (x : ℕ) (xs : List ℕ)
    (sp : Spaces l s.mem s.free_list role (x ∷ xs)) where
  abbrev pub role_root : ℕ → Role
  role_root = update role x (table x 2 0)

  abbrev got : Allocated l s x xs
  got = got_data l s role x xs sp

  x-IsPage : IsPage l x
  x-IsPage = sp.frees.pages.0

  pub role_root-kept : (y r k n : ℕ) → role y ≡ table r k n → role_root y ≡ table r k n
  role_root-kept y r k n h =
      let ne : y ≢ x = λ e. free-not_table x sp (ground arith) r k n (rw e at h) in
      ground (arith, ne)

  -- All its entries are empty.
  empty_entry : (i : ℕ) → i < 512 → is_valid (read64 got.mem' (slot x i)) ≡ false
  empty_entry i low =
      let zero_word : read64 got.mem' (slot x i) ≡ 0 =
        read64_zeroes got.mem' (slot x i) (λ b lo hi. got.cleared b (omega arith) (omega arith)) in
      rw zero_word (is_valid_lem 0)

  pub root-Spaces : Spaces l got.mem' got.head' role_root xs
  root-Spaces = record {
    frees = got.rest;
    spare =
        λ y h. let ne = ne_of_has xs x y sp.frees.distinct.0 h in ground (arith, ne, sp.spare y);
    pages = λ y r k n h. elim (Bool-cases (x == y)) [
      | inl e ↦ let here : x ≡ y = ground arith in rw (← here) x-IsPage
      | inr e ↦ sp.pages y r k n (rw e at h)
    ];
    child = λ y r k n i h low valid. elim (Bool-cases (x == y)) [
      | inl e ↦
          let here : x ≡ y = ground arith in
          let none_valid : is_valid (read64 got.mem' (slot y i)) ≡ false =
            rw (← here) (empty_entry i low) in
          absurd (ground (arith, valid, none_valid))
      | inr e ↦ old y r k n i (rw e at h) low valid
    ];
  }
    where
      old :
          (y r k n i : ℕ)
          → role y ≡ table r (suc k) n
          → i < 512
          → is_valid (read64 got.mem' (slot y i)) ≡ true
          → role_root (pte_to_pa (read64 got.mem' (slot y i))) ≡ table r k (n * 512 + i)
      old y r k n i h low valid =
          let same = data_tables l s role x xs sp y r (suc k) n h i low in
          let valid' : is_valid (read64 s.mem (slot y i)) ≡ true = rw same at valid in
          rw same (
            role_root-kept (pte_to_pa (read64 s.mem (slot y i))) r k (n * 512 + i)
              (sp.child y r k n i h low valid'))

  pub root-empty : (va : ℕ) → lookup got.mem' x va ≡ none
  unfolding lookup_from
  root-empty va = rw (empty_entry (get_vpn va 2) (get_vpn-lt va 2))

  pub root-Grows : Grows s.mem role got.mem' role_root x (λ _. Unit)
  root-Grows = record {
    roles = role_root-kept;
    others = λ y h. let ne : y ≢ x = λ e. not_free (rw (← e) h) in ground (arith, h);
    contents = λ y b h al lo hi.
        let ne : y ≢ x = λ e. not_free (rw (← e) h) in
        got.same b (ground (arith, x-IsPage.aligned, ne));
    lookups = λ pgd' va h apart.
        lookup-frame got.mem' sp (data_tables l s role x xs sp) 2 pgd' pgd' 0 va h;
  }
    where
      not_free : role x ≡ other → ⊥
      not_free e = let bad : free ≡ other = sym (sp.spare x (ground arith)) ∙ e in cc
