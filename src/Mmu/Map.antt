-- ===== src/Mmu/Map.antt =====
-- `map_page`: one page of the address space is translated anew.
use riscvkernel_hit.Base.{
  ℕ, ◌+◌, ◌*◌, ◌/◌, ◌%◌, ◌^◌, ◌≤◌, ◌<◌, ◌≡◌, ◌≢◌, inl, inr, refl, ◌∙◌, sym, List, true, arith,
  length, some, bit_or, ◌⊎◌, all_below, all_below_sound, ltb, ◌==◌, ◌&&◌,
}
use riscvkernel_hit.Memory.Defs.{Mem, write64}
use riscvkernel_hit.Memory.Laws.{write64-outside}
use riscvkernel_hit.Kernel.Defs.{Kernel, Layout, ok}
use riscvkernel_hit.Page.Defs.{page_size}
use riscvkernel_hit.Mmu.Pte.{get_vpn, pte_to_pa, pa_to_pte, is_valid, pte_a, pte_d}
use riscvkernel_hit.Mmu.Fields.{get_vpn-lt, get_vpn-digits, pa_to_pte_lem, pte_fields, is_valid_lem}
use riscvkernel_hit.Mmu.Defs.{slot, walk_pte, store64, map_page}
use riscvkernel_hit.Mmu.Lookup.{lookup, table_no, missing}
use riscvkernel_hit.Mmu.Tree.{Role, table, other, Spaces}
use riscvkernel_hit.Mmu.Walk.{walk_loop-Walked}
use riscvkernel_hit.Mmu.Leaf

-- The entry that `map_page` writes.
abbrev pub leaf_entry : ℕ → ℕ → ℕ
leaf_entry pa flags = pa_to_pte pa (bit_or (bit_or flags pte_a) pte_d)

-- What `map_page` returns and leaves: `role'` and `xs'` say what the pages are used for then.
pub record Mapped (l : Layout) (s : Kernel) (role : ℕ → Role) (xs : List ℕ) (pgd va pa flags : ℕ)
    : Type 0 where
  pub mem' : Mem
  pub head' : ℕ
  pub role' : ℕ → Role
  pub xs' : List ℕ
  pub returns : map_page pgd va pa flags s ≡ ok tt (record s { mem = mem'; free_list = head' })
  pub spaces : Spaces l mem' head' role' xs'
  pub few : length xs ≤ length xs' + missing s.mem 2 pgd va
  pub roles : (y r' k' n' : ℕ) → role y ≡ table r' k' n' → role' y ≡ table r' k' n'
  pub here : lookup mem' pgd va ≡ some (leaf_entry pa flags)
  pub elsewhere :
      (pgd' va' : ℕ)
      → role pgd' ≡ table pgd' 2 0
      → (pgd' ≢ pgd) ⊎ (va' / page_size % 2 ^ 27 ≢ va / page_size % 2 ^ 27)
      → lookup mem' pgd' va' ≡ lookup s.mem pgd' va'
  pub others : (y : ℕ) → role y ≡ other → role' y ≡ other
  pub contents :
      (y b : ℕ) → role y ≡ other → y % page_size ≡ 0 → y ≤ b → b < y + page_size → mem' b ≡ s.mem b

leaf_flags : ℕ → ℕ
leaf_flags flags = bit_or (bit_or flags pte_a) pte_d

leaf_flags_table :
    all_below 1024 (λ f. ltb (leaf_flags f) 1024 && (leaf_flags f % 32 == f % 32)) ≡ true
unfolding all_below leaf_flags
leaf_flags_table = refl

leaf_flags_lem :
    (flags : ℕ) → flags < 1024 → (leaf_flags flags < 1024) × (leaf_flags flags % 32 ≡ flags % 32)
leaf_flags_lem flags h =
    let checked =
      all_below_sound 1024 (λ f. ltb (leaf_flags f) 1024 && (leaf_flags f % 32 == f % 32))
        leaf_flags_table flags h in
    ground (arith, checked)

leaf_entry-fields :
    (pa flags : ℕ)
    → pa % page_size ≡ 0
    → pa < 2 ^ 56
    → flags < 1024
    → flags % 2 ≡ 1
    → (is_valid (leaf_entry pa flags) ≡ true) × (leaf_entry pa flags < 2 ^ 64)
unfolding leaf_flags
leaf_entry-fields pa flags al lt fl odd =
    let small = leaf_flags_lem flags fl in
    let f = pte_fields pa (leaf_flags flags) al lt small.0 in
    (f.2 ∙ is_valid_lem (leaf_flags flags) ∙ ground (arith, small.1), f.3)

-- The page comes back out of the entry.
pub leaf_entry_pa :
    (pa flags : ℕ)
    → pa % page_size ≡ 0
    → pa < 2 ^ 56
    → flags < 1024
    → pte_to_pa (leaf_entry pa flags) ≡ pa
unfolding leaf_flags
leaf_entry_pa pa flags al lt fl =
    (pte_fields pa (leaf_flags flags) al lt (leaf_flags_lem flags fl).0).0

-- The permissions are those that were asked for.
pub leaf_entry_low : (pa flags : ℕ) → flags < 1024 → leaf_entry pa flags % 32 ≡ flags % 32
unfolding leaf_flags
leaf_entry_low pa flags fl =
    let (small, low) = leaf_flags_lem flags fl in
    omega (arith, small, low, pa_to_pte_lem pa (leaf_flags flags) small)

-- Two addresses with other page numbers are served by other entries.
entry_no-digits :
    (va va' : ℕ)
    → va' / page_size % 2 ^ 27 ≢ va / page_size % 2 ^ 27
    → table_no 0 va' 2 * 512 + get_vpn va' 0 ≢ table_no 0 va 2 * 512 + get_vpn va 0
unfolding table_no
entry_no-digits va va' ne = λ e. ne (omega (arith, e, get_vpn-digits va, get_vpn-digits va'))

pub map_page-Mapped :
    {l : Layout} (s : Kernel) (role : ℕ → Role) (xs : List ℕ) (pgd va pa flags : ℕ)
    → Spaces l s.mem s.free_list role xs
    → role pgd ≡ table pgd 2 0
    → missing s.mem 2 pgd va ≤ length xs
    → pa % page_size ≡ 0
    → pa < 2 ^ 56
    → flags < 1024
    → flags % 2 ≡ 1
    → Mapped l s role xs pgd va pa flags
unfolding map_page walk_pte
map_page-Mapped {l} s role xs pgd va pa flags sp tab enough al lt fl odd =
    let w = walk_loop-Walked {l = l} va 2 s role xs pgd pgd 0 sp tab enough in
    let i : ℕ = get_vpn va 0 in
    let v : ℕ = leaf_entry pa flags in
    let n : ℕ = table_no 0 va 2 in
    let low = get_vpn-lt va 0 in
    let (valid, small) = leaf_entry-fields pa flags al lt fl odd in
    record {
      mem' = write64 w.mem' (slot w.last i) v;
      head' = w.head';
      role' = w.role';
      xs' = w.xs';
      returns = rw w.returns (unfold store64 in refl);
      spaces =
          Leaf.mapped-Spaces l w.mem' w.head' w.role' w.xs' w.last pgd n i v w.spaces w.leads low
            small;
      few = w.few;
      roles = w.roles;
      here =
          Leaf.mapped-lookup_self l w.mem' w.head' w.role' w.xs' w.last pgd n i v w.spaces w.leads
            low small 2 pgd pgd 0 va (w.roles pgd pgd 2 0 tab) w.reaches refl valid;
      elsewhere = λ pgd' va' h apart.
          Leaf.mapped-lookup_other l w.mem' w.head' w.role' w.xs' w.last pgd n i v w.spaces w.leads
            low small 2 pgd' pgd' 0 va' (w.roles pgd' pgd' 2 0 h) (entries_apart pgd' va' apart)
          ∙ w.lookups 2 pgd' pgd' 0 va' h;
      others = w.others;
      contents = λ y b h al' lo hi.
          let ne : y ≢ w.last = λ e. not_table w.role' w.last n w.leads (rw (← e) (w.others y h)) in
          write64-outside w.mem' (slot w.last i) v b
            (ground (arith, ne, (w.spaces.pages w.last pgd 0 n w.leads).aligned))
          ∙ w.contents y b h al' lo hi;
    }
  where
    not_table : (f : ℕ → Role) (y n : ℕ) → f y ≡ table pgd 0 n → f y ≡ other → ⊥
    not_table f y n a b = let bad : table pgd 0 n ≡ other = sym a ∙ b in cc

    entries_apart :
        (pgd' va' : ℕ)
        → (pgd' ≢ pgd) ⊎ (va' / page_size % 2 ^ 27 ≢ va / page_size % 2 ^ 27)
        → (pgd' ≢ pgd)
          ⊎ (table_no 0 va' 2 * 512 + get_vpn va' 0 ≢ table_no 0 va 2 * 512 + get_vpn va 0)
    entries_apart pgd' va' (inl ne) = inl ne
    entries_apart pgd' va' (inr ne) = inr (entry_no-digits va va' ne)
