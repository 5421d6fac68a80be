-- ===== src/Mmu/Copy/Table.antt =====
-- A table of `copy_user_page_table`, with the loop over its entries.
use riscvkernel_hit.Base.{
  ℕ, zero, suc, ◌+◌, ◌%◌, ◌≤◌, ◌≡◌, inl, inr, refl, List, [], ◌∷◌, true, false, arith, has, All,
  Bool-cases, bit_and,
}
use riscvkernel_hit.Memory.Defs.{Mem, read64}
use riscvkernel_hit.Kernel.Defs.{Kernel, Layout, Cmd, ◌>>=◌, ◌>>◌}
use riscvkernel_hit.Page.Defs.{page_size, alloc_page}
use riscvkernel_hit.Page.FreeList.{IsPage}
use riscvkernel_hit.Mmu.Pte.{pte_to_pa, pa_to_pte, is_valid}
use riscvkernel_hit.Mmu.Defs.{slot, load64, store64}
use riscvkernel_hit.Mmu.Spaces.{for_each, when}
use riscvkernel_hit.Mmu.Copy.Twin.{
  Taken, Source, EntryTwin-map, Twin-frame, IsStable, TableEntry, TableEntry-IsStable, total,
  entry_cost, cost, cost_table, total_one, total_more, entry_cost_valid,
}
use riscvkernel_hit.Mmu.Copy.Rounds.{Copied, Copied-then, slot-same, not_Within}
use riscvkernel_hit.Mmu.Copy.Fresh.{
  given, with_entry, fresh-Start, fresh-entry, fresh-same, fresh-IsBytes,
}
use riscvkernel_hit.Mmu.Copy.Leaf.{Start, source_slot, copied_entry, skip-Copied}

-- One round for a table: a fresh table goes into the entry, and `body` fills its entries.
abbrev pub table_round : (ℕ → ℕ → ℕ → Cmd (Unit {0})) → ℕ → ℕ → ℕ → Cmd (Unit {0})
table_round body dst src i = do
  pte ← load64 (slot src i)
  when (is_valid pte) (do
    t ← alloc_page
    store64 (slot dst i) (pa_to_pte t (bit_and pte 0x3FF))
    for_each 512 0 (body t (pte_to_pa pte)))

module _ (l : Layout) (m₀ : Mem) (xs₀ : List ℕ) (pages₀ : All (IsPage l) xs₀) where
  -- The loop over the entries of `dst`, for any body whose rounds do what `E` says at a price `w`.
  module _ (E : (ℕ → Type 0) → Mem → ℕ → Type 0) (w : ℕ → ℕ) (dst : ℕ) (body : ℕ → Cmd (Unit {0}))
      (stable : IsStable l m₀ dst E)
      (rounds : (i : ℕ) (s : Kernel) (xs : List ℕ)
        → Start l m₀ xs₀ pages₀ w dst i 1 s xs
        → Copied l m₀ xs₀ E dst i 1 (w i) s xs (body i s)) where
    pub loop-Copied :
        (left i : ℕ) (s : Kernel) (xs : List ℕ)
        → Start l m₀ xs₀ pages₀ w dst i left s xs
        → Copied l m₀ xs₀ E dst i left (total w left i) s xs (for_each left i body s)
    unfolding for_each
    loop-Copied zero i s xs st = record {
      mem' = s.mem;
      head' = s.free_list;
      xs' = xs;
      returns = refl;
      ready = st.ready;
      within = λ x h. h;
      few = omega arith;
      bytes = λ h. h;
      same = λ b off apart. refl;
      entries = λ j lo hi. absurd (omega arith);
    }
    loop-Copied (suc left) i s xs st =
        let sum = total_more w left i in
        let a = rounds i s xs (record {
          ready = st.ready;
          page = st.page;
          fresh = st.fresh;
          out = st.out;
          empty = λ j lo hi. st.empty j lo (omega arith);
          top = omega (arith, st.top);
          enough = omega (arith, st.enough, sum, total_one w i);
        }) in
        let s₁ : Kernel = record s { mem = a.mem'; free_list = a.head' } in
        let z = loop-Copied left (i + 1) s₁ a.xs' (record {
          ready = a.ready;
          page = st.page;
          fresh = st.fresh;
          out = not_Within a.xs' xs dst a.within st.out;
          empty = λ j lo hi.
              rw
                (slot-same l m₀ xs₀ a j st.ready.frees st.page st.out (omega (arith, st.top))
                  (inr lo))
                (st.empty j (omega arith) (omega arith));
          top = omega (arith, st.top);
          enough = omega (arith, st.enough, sum, a.few);
        }) in
        rw sum
          (Copied-then l m₀ xs₀ stable st.top st.ready.frees st.page st.out a z (rw a.returns refl))

  -- What a body does in each round for a table whose pages below are of level `n`.
  abbrev pub Rounds : ℕ → (ℕ → ℕ → ℕ → Cmd (Unit {0})) → Type 0
  Rounds n body =
      (dst src i : ℕ) (s : Kernel) (xs : List ℕ)
      → Source (suc n) m₀ xs₀ src
      → src % page_size ≡ 0
      → Start l m₀ xs₀ pages₀ (entry_cost (cost n m₀) m₀ src) dst i 1 s xs
      → Copied l m₀ xs₀ (TableEntry l m₀ n src dst) dst i 1 (entry_cost (cost n m₀) m₀ src i) s xs
          (body dst src i s)

  module _ (n : ℕ) (body : ℕ → ℕ → ℕ → Cmd (Unit {0})) (rounds : Rounds n body) where
    -- An entry that is valid: a fresh table goes into it, and its entries are filled.
    pub table-taken :
        (w : ℕ → ℕ) (dst src i : ℕ) (s : Kernel) (xs : List ℕ)
        → src % page_size ≡ 0
        → has src xs₀ ≡ false
        → Source (suc n) m₀ xs₀ (pte_to_pa (read64 m₀ (slot src i)))
        → Start l m₀ xs₀ pages₀ w dst i 1 s xs
        → cost (suc n) m₀ (pte_to_pa (read64 m₀ (slot src i))) ≤ w i
        → is_valid (read64 m₀ (slot src i)) ≡ true
        → Copied l m₀ xs₀
            (TableEntry l m₀ (suc n) src dst)
            dst
            i
            1
            (w i)
            s
            xs
            (table_round body dst src i s)
    unfolding load64 store64
    table-taken w dst src i s [] al apart source st paid valid =
        let positive = cost_table n m₀ (pte_to_pa (read64 m₀ (slot src i))) in
        absurd (omega (arith, st.enough, total_one w i, positive, paid))
    table-taken w dst src i s (x ∷ ys) al apart source st paid valid =
        let a : ℕ = read64 m₀ (slot src i) in
        let p : ℕ = pte_to_pa a in
        let v : ℕ = pa_to_pte x (bit_and a 0x3FF) in
        let read =
          source_slot l m₀ xs₀ pages₀ s (x ∷ ys) src i st.ready al apart (omega (arith, st.top)) in
        let px : IsPage l x = st.ready.frees.pages.0 in
        let more = cost_table n m₀ p in
        let w' : ℕ → ℕ = entry_cost (cost n m₀) m₀ p in
        let each =
          λ (k : ℕ) (s' : Kernel) (zs : List ℕ) (st' : Start l m₀ xs₀ pages₀ w' x k 1 s' zs).
            rounds x p k s' zs source (unfold pte_to_pa in omega arith) st' in
        let z =
          loop-Copied (TableEntry l m₀ n p x) w' x (body x p) (TableEntry-IsStable l m₀ n p x) each
            512 0 (with_entry l m₀ xs₀ pages₀ w dst i s x ys st v) ys
            (fresh-Start l m₀ xs₀ pages₀ w dst i s x ys st v w'
              (omega (arith, st.enough, total_one w i, more, paid))) in
        let later = λ (d : ℕ) (t : Taken ys z.xs' d).
          let t' : Taken (x ∷ ys) z.xs' d = (ground (arith, t.0), t.1) in t' in
        record {
          mem' = z.mem';
          head' = z.head';
          xs' = z.xs';
          returns =
              rw (read, valid) (rw (given l m₀ xs₀ pages₀ w dst i s x ys st v).returns z.returns);
          ready = z.ready;
          within = λ y h. ground (arith, z.within y h);
          few = omega (arith, z.few, more, paid);
          bytes = fresh-IsBytes l m₀ xs₀ pages₀ w dst i s x ys st v z;
          same = fresh-same l m₀ xs₀ pages₀ w dst i s x ys st v z;
          entries = λ j lo hi.
              let here : j ≡ i = omega arith in
              rw here (
                λ _. (
                  x,
                  (ground arith, not_Within z.xs' ys x z.within st.ready.frees.distinct.0),
                  px,
                  fresh-entry l m₀ xs₀ pages₀ w dst i s x ys st v z
                      (copied_entry l m₀ xs₀ pages₀ x a px),
                  λ k lt.
                      EntryTwin-map l m₀ (read64 m₀ (slot p k)) (read64 z.mem' (slot x k)) later
                        (λ p' d t twin.
                          Twin-frame l m₀ n z.mem' z.mem' p' d later (λ y was b lo' hi'. refl)
                            (λ b lo' hi'. refl) twin)
                        (z.entries k (omega arith) (omega arith)),
                ),
                λ stop. absurd (ground (arith, valid, stop)),
              );
        }

    -- A round for a table whose entries lead to tables.
    pub table-Copied : Rounds (suc n) (table_round body)
    unfolding load64 store64
    table-Copied dst src i s xs source al st =
        let w : ℕ → ℕ = entry_cost (cost (suc n) m₀) m₀ src in
        elim (Bool-cases (is_valid (read64 m₀ (slot src i)))) [
          | inl valid ↦
              table-taken w dst src i s xs al source.0 (source.1 i (omega (arith, st.top)) valid) st
                (omega (arith, entry_cost_valid (cost (suc n) m₀) m₀ src i valid)) valid
          | inr stop ↦
              skip-Copied l m₀ xs₀ pages₀ (suc n) w dst src i (w i) s xs
                (table_round body dst src i) st stop
                (rw
                  (
                    source_slot l m₀ xs₀ pages₀ s xs src i st.ready al source.0
                        (omega (arith, st.top)),
                    stop,
                  )
                  refl)
        ]
