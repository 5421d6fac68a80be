-- ===== src/Mmu/Walk.antt =====
-- `walk_pte` with `create`: it ends at the last table of the address's way, and adds what is
-- missing on that way.
use riscvkernel_hit.Base.{
  ℕ, zero, suc, ◌+◌, ◌*◌, ◌%◌, ◌≤◌, ◌<◌, ◌≡◌, ◌≢◌, ◌⊎◌, inl, inr, refl, ◌∙◌, sym, List, [], ◌∷◌,
  true, false, arith, length, Bool-cases, ◌==◌,
}
use riscvkernel_hit.Memory.Defs.{Mem, read64}
use riscvkernel_hit.Kernel.Defs.{Kernel, Layout, ok}
use riscvkernel_hit.Page.Defs.{page_size}
use riscvkernel_hit.Mmu.Pte.{get_vpn, pte_to_pa, is_valid}
use riscvkernel_hit.Mmu.Fields.{get_vpn-lt}
use riscvkernel_hit.Mmu.Defs.{slot, walk_loop}
use riscvkernel_hit.Mmu.Lookup.{lookup_from, table_no, Reaches, missing, missing-le}
use riscvkernel_hit.Mmu.Tree.{Role, table, other, Spaces}
use riscvkernel_hit.Mmu.Grow

-- What the walk from table `t` (number `n` of level `k` under root `r`) returns and leaves.
pub record Walked (l : Layout) (s : Kernel) (role : ℕ → Role) (xs : List ℕ) (t r k n va : ℕ)
    : Type 0 where
  pub mem' : Mem
  pub head' : ℕ
  pub role' : ℕ → Role
  pub xs' : List ℕ
  pub last : ℕ
  pub returns :
      walk_loop k va true t s
      ≡ ok (slot last (get_vpn va 0)) (record s { mem = mem'; free_list = head' })
  pub spaces : Spaces l mem' head' role' xs'
  pub leads : role' last ≡ table r 0 (table_no n va k)
  pub reaches : Reaches mem' k t va last
  pub roles : (y r' k' n' : ℕ) → role y ≡ table r' k' n' → role' y ≡ table r' k' n'
  pub kept :
      (y r' k' n' j : ℕ)
      → role y ≡ table r' (suc k') n'
      → j < 512
      → is_valid (read64 s.mem (slot y j)) ≡ true
      → read64 mem' (slot y j) ≡ read64 s.mem (slot y j)
  pub lookups :
      (level y r' n' va' : ℕ)
      → role y ≡ table r' level n'
      → lookup_from mem' level y va' ≡ lookup_from s.mem level y va'
  pub few : length xs ≤ length xs' + missing s.mem k t va
  pub others : (y : ℕ) → role y ≡ other → role' y ≡ other
  pub contents :
      (y b : ℕ) → role y ≡ other → y % page_size ≡ 0 → y ≤ b → b < y + page_size → mem' b ≡ s.mem b

module _ {l : Layout} (va : ℕ) where
  -- The entry is valid: the walk goes on in the table behind it.
  through :
      {s : Kernel} {role : ℕ → Role} {xs : List ℕ} (t r k n : ℕ)
      → role t ≡ table r (suc k) n
      → let pte = read64 s.mem (slot t (get_vpn va (suc k))) in
        is_valid pte ≡ true
        → Walked l s role xs (pte_to_pa pte) r k (n * 512 + get_vpn va (suc k)) va
        → Walked l s role xs t r (suc k) n va
  unfolding walk_loop table_no missing
  through {s} {role} {xs} t r k n tab valid w =
      let i : ℕ = get_vpn va (suc k) in
      let same : read64 w.mem' (slot t i) ≡ read64 s.mem (slot t i) =
        w.kept t r k n i tab (get_vpn-lt va (suc k)) valid in
      record {
        mem' = w.mem';
        head' = w.head';
        role' = w.role';
        xs' = w.xs';
        last = w.last;
        returns = rw (valid, walk_loop) w.returns;
        spaces = w.spaces;
        leads = w.leads;
        reaches = rw same (valid, w.reaches);
        roles = w.roles;
        kept = w.kept;
        lookups = w.lookups;
        few = rw valid w.few;
        others = w.others;
        contents = w.contents;
      }

  -- The entry is empty: a new table is added, and the walk goes on in it.
  anew :
      (s : Kernel) (role : ℕ → Role) (x : ℕ) (xs : List ℕ) (t r k n : ℕ)
      (sp : Spaces l s.mem s.free_list role (x ∷ xs)) (tab : role t ≡ table r (suc k) n)
      (low : get_vpn va (suc k) < 512)
      → let i = get_vpn va (suc k) in
        is_valid (read64 s.mem (slot t i)) ≡ false
        → Walked l
            (record s {
              mem = Grow.grown l s role x xs t r k n i sp tab low;
              free_list = (Grow.got l s role x xs t r k n i sp tab low).head';
            })
            (Grow.role_grown l s role x xs t r k n i sp tab low)
            xs
            x
            r
            k
            (n * 512 + i)
            va
        → Walked l s role (x ∷ xs) t r (suc k) n va
  unfolding walk_loop table_no missing
  anew s role x xs t r k n sp tab low empty w =
      let i : ℕ = get_vpn va (suc k) in
      let old = Grow.role_grown-old l s role x xs t r k n i sp tab low in
      let entry = Grow.grown-entry l s role x xs t r k n i sp tab low in
      let fields = Grow.entry-fields l s role x xs t r k n i sp tab low in
      let valid : is_valid (read64 (Grow.grown l s role x xs t r k n i sp tab low) (slot t i))
          ≡ true =
        rw entry fields.1 in
      let same = w.kept t r k n i (old t r (suc k) n tab) low valid in
      let cost = missing-le (Grow.grown l s role x xs t r k n i sp tab low) k x va in
      record {
        mem' = w.mem';
        head' = w.head';
        role' = w.role';
        xs' = w.xs';
        last = w.last;
        returns =
            rw (empty, walk_loop)
              (rw (Grow.add_table-grown l s role x xs t r k n i sp tab low) w.returns);
        spaces = w.spaces;
        leads = w.leads;
        reaches = rw (same, entry) (fields.1, rw fields.0 w.reaches);
        roles = λ y r' k' n' h. w.roles y r' k' n' (old y r' k' n' h);
        kept = λ y r' k' n' j h lt v.
            let apart : (y ≢ t) ⊎ (j ≢ i) = elsewhere y j v in
            let same' =
              Grow.grown-old l s role x xs t r k n i sp tab low y j r' (suc k') n' h lt apart in
            w.kept y r' k' n' j (old y r' (suc k') n' h) lt (rw same' v) ∙ same';
        lookups = λ level y r' n' va' h.
            w.lookups level y r' n' va' (old y r' level n' h)
            ∙ Grow.grown-lookup l s role x xs t r k n i sp tab low empty level y r' n' va' h;
        few = rw empty (omega (arith, w.few, cost));
        others = λ y h. w.others y (ground (arith, still y h));
        contents = λ y b h al lo hi.
            w.contents y b (still y h) al lo hi
            ∙ Grow.grown-contents l s role x xs t r k n i sp tab low y b h al lo hi;
      }
    where
      elsewhere :
          (y j : ℕ) → is_valid (read64 s.mem (slot y j)) ≡ true → (y ≢ t) ⊎ (j ≢ get_vpn va (suc k))
      elsewhere y j v = elim (Bool-cases (y == t)) [
        | inl e ↦ inr λ e'.
            let here : y ≡ t = ground arith in
            let v' : is_valid (read64 s.mem (slot t (get_vpn va (suc k)))) ≡ true =
              rw (here, e') at v in
            ground (arith, empty, v')
        | inr e ↦ inl (ground arith)
      ]

      still :
          (y : ℕ)
          → role y ≡ other
          → Grow.role_grown l s role x xs t r k n (get_vpn va (suc k)) sp tab low y ≡ other
      still y h = let ne : y ≢ x = λ e. not_free (rw (← e) h) in ground arith
        where
          not_free : role x ≡ other → ⊥
          not_free e = let bad : Role.free ≡ other = sym (sp.spare x (ground arith)) ∙ e in cc

  walk_zero :
      (s : Kernel) (role : ℕ → Role) (xs : List ℕ) (t r n : ℕ)
      → Spaces l s.mem s.free_list role xs
      → role t ≡ table r 0 n
      → Walked l s role xs t r 0 n va
  unfolding walk_loop table_no missing
  walk_zero s role xs t r n sp tab = record {
    mem' = s.mem;
    head' = s.free_list;
    role' = role;
    xs' = xs;
    last = t;
    returns = refl;
    spaces = sp;
    leads = tab;
    reaches = refl;
    roles = λ y r' k' n' h. h;
    kept = λ y r' k' n' j h lt v. refl;
    lookups = λ level y r' n' va' h. refl;
    few = omega arith;
    others = λ y h. h;
    contents = λ y b h al lo hi. refl;
  }

  -- With a free page for each missing table, the walk returns the entry that serves `va`, and every
  -- translation and every page of data stays as it was.
  pub walk_loop-Walked :
      (k : ℕ) (s : Kernel) (role : ℕ → Role) (xs : List ℕ) (t r n : ℕ)
      → Spaces l s.mem s.free_list role xs
      → role t ≡ table r k n
      → missing s.mem k t va ≤ length xs
      → Walked l s role xs t r k n va
  unfolding missing
  walk_loop-Walked zero s role xs t r n sp tab h = walk_zero s role xs t r n sp tab
  walk_loop-Walked (suc k) s role [] t r n sp tab h =
      elim (Bool-cases (is_valid (read64 s.mem (slot t (get_vpn va (suc k)))))) [
        | inl valid ↦
            let pte : ℕ = read64 s.mem (slot t (get_vpn va (suc k))) in
            let i : ℕ = get_vpn va (suc k) in
            through t r k n tab valid (
              walk_loop-Walked k s role [] (pte_to_pa pte) r (n * 512 + i) sp
                (sp.child t r k n i tab (get_vpn-lt va (suc k)) valid) (rw valid at h))
        | inr empty ↦ let none_left : suc k ≤ 0 = rw empty at h in absurd (omega (arith, none_left))
      ]
  walk_loop-Walked (suc k) s role (x ∷ xs) t r n sp tab h =
      let low : get_vpn va (suc k) < 512 = get_vpn-lt va (suc k) in
      elim (Bool-cases (is_valid (read64 s.mem (slot t (get_vpn va (suc k)))))) [
        | inl valid ↦
            let pte : ℕ = read64 s.mem (slot t (get_vpn va (suc k))) in
            let i : ℕ = get_vpn va (suc k) in
            through t r k n tab valid (
              walk_loop-Walked k s role (x ∷ xs) (pte_to_pa pte) r (n * 512 + i) sp
                (sp.child t r k n i tab (get_vpn-lt va (suc k)) valid) (rw valid at h))
        | inr empty ↦
            let i : ℕ = get_vpn va (suc k) in
            let m : Mem = Grow.grown l s role x xs t r k n i sp tab low in
            let enough : suc k ≤ suc (length xs) = rw empty at h in
            anew s role x xs t r k n sp tab low empty (
              walk_loop-Walked k
                (record s {
                  mem = m;
                  free_list = (Grow.got l s role x xs t r k n i sp tab low).head';
                })
                (Grow.role_grown l s role x xs t r k n i sp tab low) xs x r (n * 512 + i)
                (Grow.grown-Spaces l s role x xs t r k n i sp tab low) (ground arith)
                (omega (arith, enough, missing-le m k x va)))
      ]
