-- ===== src/Mmu/Leaf.antt =====
-- A new leaf entry: one page is translated anew, every other page as before.
use riscvkernel_hit.Base.{
  ℕ, zero, suc, ◌+◌, ◌*◌, ◌^◌, ◌<◌, ◌≡◌, ◌≢◌, ◌⊎◌, inl, inr, ◌∙◌, sym, List, true, arith, ◌==◌,
  Bool-cases, some,
}
use riscvkernel_hit.Memory.Defs.{Mem, read64, write64}
use riscvkernel_hit.Memory.Laws.{read64-write64_self, read64-write64_apart}
use riscvkernel_hit.Kernel.Defs.{Layout}
use riscvkernel_hit.Page.FreeList.{IsPage, FreeList-frame, IsPage-of_has}
use riscvkernel_hit.Mmu.Pte.{get_vpn, pte_to_pa, is_valid}
use riscvkernel_hit.Mmu.Fields.{get_vpn-lt}
use riscvkernel_hit.Mmu.Defs.{slot}
use riscvkernel_hit.Mmu.Lookup.{lookup_from, table_no, Reaches}
use riscvkernel_hit.Mmu.Tree.{Role, free, table, Spaces}

module _ (l : Layout) (m : Mem) (head : ℕ) (role : ℕ → Role) (xs : List ℕ) (t r n i v : ℕ)
    (sp : Spaces l m head role xs) (tab : role t ≡ table r 0 n) (low : i < 512)
    (small : v < 2 ^ 64) where
  abbrev pub mapped : Mem
  mapped = write64 m (slot t i) v

  t-IsPage : IsPage l t
  t-IsPage = sp.pages t r 0 n tab

  mapped-other :
      (y r' k n' j : ℕ)
      → role y ≡ table r' k n'
      → j < 512
      → (y ≢ t) ⊎ (j ≢ i)
      → read64 mapped (slot y j) ≡ read64 m (slot y j)
  mapped-other y r' k n' j h lt apart =
      let page = sp.pages y r' k n' h in
      read64-write64_apart m (slot t i) v (slot y j)
        (ground (arith, page.aligned, t-IsPage.aligned))

  upper-ne : (y r' k n' : ℕ) → role y ≡ table r' (suc k) n' → y ≢ t
  upper-ne y r' k n' h e =
      let bad : table r' (suc k) n' ≡ table r 0 n = sym h ∙ (rw e tab) in ground (arith, bad)

  upper-same :
      (y r' k n' j : ℕ)
      → role y ≡ table r' (suc k) n'
      → j < 512
      → read64 mapped (slot y j) ≡ read64 m (slot y j)
  upper-same y r' k n' j h lt = mapped-other y r' (suc k) n' j h lt (inl (upper-ne y r' k n' h))

  pub mapped-Spaces : Spaces l mapped head role xs
  mapped-Spaces = record {
    frees = FreeList-frame mapped sp.frees λ y h.
        let page = IsPage-of_has xs y sp.frees.pages h in
        let ne : y ≢ t = λ e. not_table y (sp.spare y h) (rw e tab) in
        read64-write64_apart m (slot t i) v y (ground (arith, page.aligned, t-IsPage.aligned, ne));
    spare = sp.spare;
    pages = sp.pages;
    child = λ y r' k n' j h lt valid.
        let same = upper-same y r' k n' j h lt in
        rw same (sp.child y r' k n' j h lt (rw same at valid));
  }
    where
      not_table : (y : ℕ) → role y ≡ free → role y ≡ table r 0 n → ⊥
      not_table y a b = let bad : free ≡ table r 0 n = sym a ∙ b in cc

  -- An address that another leaf entry serves is translated as before.
  pub mapped-lookup_other :
      (level y r' n' va : ℕ)
      → role y ≡ table r' level n'
      → (r' ≢ r) ⊎ (table_no n' va level * 512 + get_vpn va 0 ≢ n * 512 + i)
      → lookup_from mapped level y va ≡ lookup_from m level y va
  unfolding lookup_from table_no
  mapped-lookup_other zero y r' n' va h apart = elim (Bool-cases (y == t)) [
    | inl e ↦
        let here : y ≡ t = ground arith in
        let same : table r' 0 n' ≡ table r 0 n = sym h ∙ (rw here tab) in
        let ne : get_vpn va 0 ≢ i = λ e'. ground (arith, same) in
        rw (mapped-other y r' 0 n' (get_vpn va 0) h (get_vpn-lt va 0) (inr ne))
    | inr e ↦ rw (mapped-other y r' 0 n' (get_vpn va 0) h (get_vpn-lt va 0) (inl (ground arith)))
  ]
  mapped-lookup_other (suc level) y r' n' va h apart =
      rw (upper-same y r' level n' (get_vpn va (suc level)) h (get_vpn-lt va (suc level)))
        (elim (Bool-cases (is_valid (read64 m (slot y (get_vpn va (suc level)))))) [
          | inl valid ↦ rw valid (
              mapped-lookup_other level (pte_to_pa (read64 m (slot y (get_vpn va (suc level))))) r'
                (n' * 512 + get_vpn va (suc level)) va
                (sp.child y r' level n' (get_vpn va (suc level)) h (get_vpn-lt va (suc level))
                  valid)
                apart)
          | inr stop ↦ rw stop
        ])

  -- The address that the entry serves is translated by it.
  pub mapped-lookup_self :
      (level y r' n' va : ℕ)
      → role y ≡ table r' level n'
      → Reaches m level y va t
      → get_vpn va 0 ≡ i
      → is_valid v ≡ true
      → lookup_from mapped level y va ≡ some v
  unfolding lookup_from
  mapped-lookup_self zero y r' n' va h here e valid =
      rw (here, e, read64-write64_self m (slot t i) v small, valid)
  mapped-lookup_self (suc level) y r' n' va h (go, reach) e valid =
      rw (upper-same y r' level n' (get_vpn va (suc level)) h (get_vpn-lt va (suc level)), go)
        (mapped-lookup_self level (pte_to_pa (read64 m (slot y (get_vpn va (suc level))))) r'
          (n' * 512 + get_vpn va (suc level)) va
          (sp.child y r' level n' (get_vpn va (suc level)) h (get_vpn-lt va (suc level)) go) reach e
          valid)
