-- ===== src/Mmu/Copy/Root.antt =====
-- `copy_user_page_table`: the child's address space against the parent's.
use riscvkernel_hit.Base.{
  ℕ, ◌%◌, ◌<◌, ◌≡◌, ◌≢◌, inl, inr, refl, ◌∙◌, List, true, false, ◌==◌, arith, has, All, Bool,
  Bool-cases, if◌then◌else◌,
}
use riscvkernel_hit.Memory.Defs.{Mem, read64, write64}
use riscvkernel_hit.Memory.Laws.{
  IsBytes, write64-IsBytes, read64-lt, read64-write64_self, read64-write64_apart, write64-outside,
}
use riscvkernel_hit.Kernel.Defs.{Kernel, Layout}
use riscvkernel_hit.Page.Defs.{page_size}
use riscvkernel_hit.Page.FreeList.{IsPage, FreeList-frame, IsPage-of_has}
use riscvkernel_hit.Mmu.Pte.{pte_to_pa, is_valid}
use riscvkernel_hit.Mmu.Defs.{slot, load64, store64}
use riscvkernel_hit.Mmu.Spaces.{copy_leaf, copy_pte_table, copy_pmd}
use riscvkernel_hit.Mmu.Copy.Twin.{
  Source, IsStable, TableEntry, TableEntry-IsStable, entry_cost, cost, entry_cost_valid,
}
use riscvkernel_hit.Mmu.Copy.Rounds.{Copied}
use riscvkernel_hit.Mmu.Copy.Leaf.{Start, source_slot, skip-Copied, leaf-Copied}
use riscvkernel_hit.Mmu.Copy.Table.{table_round, Rounds, table-taken, table-Copied}

-- The root tables `src` and `root` have the same entry `i`.
abbrev pub is_shared : Mem → ℕ → ℕ → ℕ → Bool
is_shared m root src i = read64 m (slot src i) == read64 m (slot root i)

-- The pages that the copy takes for entry `i` of the root table `src`.
abbrev pub root_cost : Mem → ℕ → ℕ → ℕ → ℕ
root_cost m root src i = if is_shared m root src i then 0 else entry_cost (cost 2 m) m src i

module _ (l : Layout) (m₀ : Mem) (xs₀ : List ℕ) (pages₀ : All (IsPage l) xs₀) where
  abbrev pub RootEntry : ℕ → ℕ → ℕ → (ℕ → Type 0) → Mem → ℕ → Type 0
  RootEntry root src dst P m j =
      (is_shared m₀ root src j ≡ true → read64 m (slot dst j) ≡ read64 m₀ (slot src j))
      × (is_shared m₀ root src j ≡ false → TableEntry l m₀ 2 src dst P m j)

  pub RootEntry-IsStable : (root src dst : ℕ) → IsStable l m₀ dst (RootEntry root src dst)
  RootEntry-IsStable root src dst P P' m m' j f each same (shared, own) = (
    λ h. same ∙ shared h,
    λ h. TableEntry-IsStable l m₀ 2 src dst P P' m m' j f each same (own h),
  )

  -- The entries of a second-level table.
  pte_table-Rounds : Rounds l m₀ xs₀ pages₀ 1 copy_pte_table
  unfolding copy_pte_table
  pte_table-Rounds = table-Copied l m₀ xs₀ pages₀ 0 copy_leaf (leaf-Copied l m₀ xs₀ pages₀)

  module _ (root src : ℕ) (bytes : IsBytes m₀) (al : src % page_size ≡ 0)
      (out : has src xs₀ ≡ false) (al_root : root % page_size ≡ 0) (out_root : has root xs₀ ≡ false)
      (sources : (i : ℕ)
        → i < 512
        → is_shared m₀ root src i ≡ false
        → is_valid (read64 m₀ (slot src i)) ≡ true
        → Source 2 m₀ xs₀ (pte_to_pa (read64 m₀ (slot src i)))) where
    shared-Copied :
        (dst i : ℕ) (s : Kernel) (xs : List ℕ)
        → Start l m₀ xs₀ pages₀ (root_cost m₀ root src) dst i 1 s xs
        → is_shared m₀ root src i ≡ true
        → Copied l m₀ xs₀
            (RootEntry root src dst)
            dst
            i
            1
            (root_cost m₀ root src i)
            s
            xs
            (copy_pmd root dst src i s)
    unfolding copy_pmd load64 store64
    shared-Copied dst i s xs st shared =
        let low : i < 512 = omega (arith, st.top) in
        let a : ℕ = read64 m₀ (slot src i) in
        let m' : Mem = write64 s.mem (slot dst i) a in
        record {
          mem' = m';
          head' = s.free_list;
          xs' = xs;
          returns =
              rw
                (
                  source_slot l m₀ xs₀ pages₀ s xs src i st.ready al out low,
                  source_slot l m₀ xs₀ pages₀ s xs root i st.ready al_root out_root low,
                  shared,
                )
                refl;
          ready = record {
            frees = FreeList-frame m' st.ready.frees λ y h.
                let py = IsPage-of_has xs y st.ready.frees.pages h in
                let ne : y ≢ dst =
                  λ e. let bad : has dst xs ≡ true = rw (← e) h in ground (arith, bad, st.out) in
                read64-write64_apart s.mem (slot dst i) a y
                  (ground (arith, py.aligned, st.page.aligned, ne));
            within = st.ready.within;
            clean = λ b off.
                write64-outside s.mem (slot dst i) a b (omega (arith, off dst st.fresh))
                ∙ st.ready.clean b off;
          };
          within = λ x h. h;
          few = omega arith;
          bytes = λ h. write64-IsBytes s.mem (slot dst i) a h;
          same = λ b off off_d. write64-outside s.mem (slot dst i) a b (omega (arith, off_d));
          entries = λ j lo hi.
              let here : j ≡ i = omega arith in
              rw here (
                λ _. read64-write64_self s.mem (slot dst i) a (read64-lt m₀ (slot src i) bytes),
                λ own. absurd (ground (arith, own, shared)),
              );
        }

    own-Copied :
        (dst i : ℕ) (s : Kernel) (xs : List ℕ)
        → Start l m₀ xs₀ pages₀ (root_cost m₀ root src) dst i 1 s xs
        → is_shared m₀ root src i ≡ false
        → Copied l m₀ xs₀
            (TableEntry l m₀ 2 src dst)
            dst
            i
            1
            (root_cost m₀ root src i)
            s
            xs
            (table_round copy_pte_table dst src i s)
    unfolding load64
    own-Copied dst i s xs st own =
        let low : i < 512 = omega (arith, st.top) in
        elim (Bool-cases (is_valid (read64 m₀ (slot src i)))) [
          | inl valid ↦
              let paid : root_cost m₀ root src i ≡ cost 2 m₀ (pte_to_pa (read64 m₀ (slot src i))) =
                rw own (entry_cost_valid (cost 2 m₀) m₀ src i valid) in
              table-taken l m₀ xs₀ pages₀ 1 copy_pte_table pte_table-Rounds (root_cost m₀ root src)
                dst src i s xs al out (sources i low own valid) st (omega (arith, paid)) valid
          | inr stop ↦
              skip-Copied l m₀ xs₀ pages₀ 2 (root_cost m₀ root src) dst src i
                (root_cost m₀ root src i) s xs (table_round copy_pte_table dst src i) st stop
                (rw (source_slot l m₀ xs₀ pages₀ s xs src i st.ready al out low, stop) refl)
        ]

    pub root-Copied :
        (dst i : ℕ) (s : Kernel) (xs : List ℕ)
        → Start l m₀ xs₀ pages₀ (root_cost m₀ root src) dst i 1 s xs
        → Copied l m₀ xs₀
            (RootEntry root src dst)
            dst
            i
            1
            (root_cost m₀ root src i)
            s
            xs
            (copy_pmd root dst src i s)
    unfolding copy_pmd load64
    root-Copied dst i s xs st = elim (Bool-cases (is_shared m₀ root src i)) [
      | inl shared ↦ shared-Copied dst i s xs st shared
      | inr own ↦
          let low : i < 512 = omega (arith, st.top) in
          let e : copy_pmd root dst src i s ≡ table_round copy_pte_table dst src i s =
            rw
              (
                source_slot l m₀ xs₀ pages₀ s xs src i st.ready al out low,
                source_slot l m₀ xs₀ pages₀ s xs root i st.ready al_root out_root low,
                own,
              )
              refl in
          let a = own-Copied dst i s xs st own in
          record {
            mem' = a.mem';
            head' = a.head';
            xs' = a.xs';
            returns = e ∙ a.returns;
            ready = a.ready;
            within = a.within;
            bytes = a.bytes;
            few = a.few;
            same = a.same;
            entries = λ j lo hi.
                let here : j ≡ i = omega arith in
                (
                  λ shared.
                      let shared' : is_shared m₀ root src i ≡ true = rw (← here) shared in
                      absurd (ground (arith, shared', own)),
                  λ _. a.entries j lo hi,
                );
          }
    ]
