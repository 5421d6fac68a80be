-- ===== src/Mmu/Copy/Leaf.antt =====
-- The loops of `copy_user_page_table` over tables of the two lower levels.
use riscvkernel_hit.Base.{
  ℕ, ◌+◌, ◌%◌, ◌^◌, ◌≤◌, ◌<◌, ◌≡◌, ◌≢◌, ◌⊎◌, inl, inr, refl, ◌∙◌, List, [], ◌∷◌, true, false, arith,
  has, length, All, Bool-cases, bit_and, bit_and_low,
}
use riscvkernel_hit.Memory.Defs.{Mem, read64, write64, copy_bytes}
use riscvkernel_hit.Memory.Laws.{write64-IsBytes, read64_ext, read64-write64_self, write64-outside}
use riscvkernel_hit.Memory.Ranges.{copy_bytes-outside, copy_bytes-inside, copy_bytes-IsBytes}
use riscvkernel_hit.Kernel.Defs.{Kernel, Layout, ok, Cmd}
use riscvkernel_hit.Page.Defs.{page_size}
use riscvkernel_hit.Page.FreeList.{IsPage, FreeList-frame, IsPage-of_has, ne_of_has}
use riscvkernel_hit.Page.Alloc.{Allocated, Allocated-IsBytes, alloc_page-Allocated}
use riscvkernel_hit.Mmu.Pte.{pte_to_pa, pa_to_pte, is_valid}
use riscvkernel_hit.Mmu.Fields.{pte_fields}
use riscvkernel_hit.Mmu.Defs.{slot, load64, store64}
use riscvkernel_hit.Mmu.Spaces.{copy_leaf}
use riscvkernel_hit.Mmu.Copy.Twin.{
  Source, total, entry_cost, cost, total_one, entry_cost_valid, TableEntry,
}
use riscvkernel_hit.Mmu.Copy.Rounds.{page-Off, Ready, Copied}

module _ (l : Layout) (m₀ : Mem) (xs₀ : List ℕ) (pages₀ : All (IsPage l) xs₀) where
  -- Before the entries of `dst` from `i` on are filled.
  pub record Start (w : ℕ → ℕ) (dst i left : ℕ) (s : Kernel) (xs : List ℕ) : Type 0 where
    pub ready : Ready l m₀ xs₀ s xs
    pub page : IsPage l dst
    pub fresh : has dst xs₀ ≡ true
    pub out : has dst xs ≡ false
    pub empty : (j : ℕ) → i ≤ j → j < i + left → is_valid (read64 s.mem (slot dst j)) ≡ false
    pub top : i + left ≤ 512
    pub enough : total w left i ≤ length xs

  -- A page of the source is as it was.
  pub source_byte :
      (s : Kernel) (xs : List ℕ) (p b : ℕ)
      → Ready l m₀ xs₀ s xs
      → p % page_size ≡ 0
      → has p xs₀ ≡ false
      → p ≤ b
      → b < p + page_size
      → s.mem b ≡ m₀ b
  source_byte s xs p b ready al out lo hi = ready.clean b (page-Off l xs₀ p b pages₀ al out lo hi)

  pub source_slot :
      (s : Kernel) (xs : List ℕ) (p i : ℕ)
      → Ready l m₀ xs₀ s xs
      → p % page_size ≡ 0
      → has p xs₀ ≡ false
      → i < 512
      → read64 s.mem (slot p i) ≡ read64 m₀ (slot p i)
  source_slot s xs p i ready al out low =
      read64_ext m₀ s.mem (slot p i)
        (λ j lt. source_byte s xs p (slot p i + j) ready al out (omega arith) (omega arith))
        (source_byte s xs p (slot p i) ready al out (omega arith) (omega arith))

  -- The first free page is taken, and it and an entry of `dst` are written.
  module _ (s : Kernel) (x : ℕ) (ys : List ℕ) (dst i : ℕ) (m₂ : Mem)
      (ready : Ready l m₀ xs₀ s (x ∷ ys)) (page : IsPage l dst) (fresh : has dst xs₀ ≡ true)
      (out : has dst (x ∷ ys) ≡ false) (low : i < 512) where
    abbrev pub got : Allocated l s x ys
    got = alloc_page-Allocated s x ys ready.frees

    pub taken-Ready :
        ((b : ℕ)
          → (b < x) ⊎ (x + page_size ≤ b)
          → (b < slot dst i) ⊎ (slot dst i + 8 ≤ b)
          → m₂ b ≡ got.mem' b)
        → Ready l m₀ xs₀ (record s { mem = m₂; free_list = got.head' }) ys
    taken-Ready same = record {
      frees = FreeList-frame m₂ got.rest λ y h.
          let py = IsPage-of_has ys y ready.frees.pages.1 h in
          let px = ready.frees.pages.0 in
          let ne : x ≢ y = ne_of_has ys x y ready.frees.distinct.0 h in
          let ne' : y ≢ dst =
            λ e. let bad : has dst ys ≡ true = rw (← e) h in ground (arith, bad, out) in
          let near = λ (b : ℕ) (lo : y ≤ b) (hi : b < y + 8).
            same b (ground (arith, py.aligned, px.aligned, ne))
              (ground (arith, py.aligned, page.aligned, ne')) in
          read64_ext got.mem' m₂ y (λ j lt. near (y + j) (omega arith) (omega arith))
            (near y (omega arith) (omega arith));
      within = λ y h. ready.within y (ground arith);
      clean = λ b off.
          let off_x = off x (ready.within x (ground arith)) in
          let off_dst = off dst fresh in
          same b off_x (omega (arith, off_dst)) ∙ got.same b off_x ∙ ready.clean b off;
    }

  -- The entry of the copy, as the code writes it.
  pub copied_entry : (x a : ℕ) → IsPage l x → pa_to_pte x (bit_and a 0x3FF) < 2 ^ 64
  copied_entry x a page =
      (pte_fields x (bit_and a 0x3FF) page.aligned (omega (arith, page.below))
        (omega (arith, bit_and_low 10 a))).3

  -- An entry of the source that is not valid: nothing happens.
  pub skip-Copied :
      (n : ℕ) (w : ℕ → ℕ) (dst src i c : ℕ) (s : Kernel) (xs : List ℕ) (body : Cmd (Unit {0}))
      → Start w dst i 1 s xs
      → is_valid (read64 m₀ (slot src i)) ≡ false
      → body s ≡ ok tt s
      → Copied l m₀ xs₀ (TableEntry l m₀ n src dst) dst i 1 c s xs (body s)
  skip-Copied n w dst src i c s xs body st stop e = record {
    mem' = s.mem;
    head' = s.free_list;
    xs' = xs;
    returns = e;
    ready = st.ready;
    within = λ x h. h;
    few = omega arith;
    bytes = λ h. h;
    same = λ b off apart. refl;
    entries = λ j lo hi.
        let here : j ≡ i = omega arith in
        (
          λ valid.
              let valid' : is_valid (read64 m₀ (slot src i)) ≡ true = rw (← here) valid in
              absurd (ground (arith, valid', stop)),
          λ _. st.empty j lo hi,
        );
  }

  -- A round of the innermost loop: the page of data is copied.
  pub leaf-Copied :
      (dst src i : ℕ) (s : Kernel) (xs : List ℕ)
      → Source 1 m₀ xs₀ src
      → src % page_size ≡ 0
      → Start (entry_cost (cost 0 m₀) m₀ src) dst i 1 s xs
      → Copied l m₀ xs₀
          (TableEntry l m₀ 0 src dst)
          dst
          i
          1
          (entry_cost (cost 0 m₀) m₀ src i)
          s
          xs
          (copy_leaf dst src i s)
  unfolding copy_leaf load64 store64 cost
  leaf-Copied dst src i s xs source aligned st =
      elim (Bool-cases (is_valid (read64 m₀ (slot src i)))) [
        | inr stop ↦
            skip-Copied 0 (entry_cost (cost 0 m₀) m₀ src) dst src i
              (entry_cost (cost 0 m₀) m₀ src i) s xs (copy_leaf dst src i) st stop
              (rw (source_slot s xs src i st.ready aligned source.0 (omega (arith, st.top)), stop)
                refl)
        | inl valid ↦ taken xs st valid
      ]
    where
      taken :
          (xs : List ℕ)
          → Start (entry_cost (cost 0 m₀) m₀ src) dst i 1 s xs
          → is_valid (read64 m₀ (slot src i)) ≡ true
          → Copied l m₀ xs₀
              (TableEntry l m₀ 0 src dst)
              dst
              i
              1
              (entry_cost (cost 0 m₀) m₀ src i)
              s
              xs
              (copy_leaf dst src i s)
      taken [] st valid =
          let one = total_one (entry_cost (cost 0 m₀) m₀ src) i in
          let paid = entry_cost_valid (cost 0 m₀) m₀ src i valid in
          absurd (omega (arith, st.enough, one, paid))
      taken (x ∷ ys) st valid =
          let a : ℕ = read64 m₀ (slot src i) in
          let p : ℕ = pte_to_pa a in
          let low : i < 512 = omega (arith, st.top) in
          let read = source_slot s (x ∷ ys) src i st.ready aligned source.0 low in
          let g = got s x ys dst i s.mem st.ready st.page st.fresh st.out low in
          let v : ℕ = pa_to_pte x (bit_and a 0x3FF) in
          let m₁ : Mem = copy_bytes page_size 0 x p g.mem' in
          let m₂ : Mem = write64 m₁ (slot dst i) v in
          let px : IsPage l x = st.ready.frees.pages.0 in
          let ne : x ≢ dst = ground (arith, st.out) in
          let out_p : has p xs₀ ≡ false = source.1 i low valid in
          let in_x : has x xs₀ ≡ true = st.ready.within x (ground arith) in
          let ne_p : p ≢ x =
            λ e. let bad : has x xs₀ ≡ false = rw (← e) out_p in ground (arith, bad, in_x) in
          let al : p % page_size ≡ 0 = unfold pte_to_pa in omega arith in
          let apart : (p + page_size ≤ x) ⊎ (x + page_size ≤ p) =
            omega (arith, al, px.aligned, ne_p) in
          record {
            mem' = m₂;
            head' = g.head';
            xs' = ys;
            returns = rw (read, valid) (rw g.returns refl);
            ready =
                taken-Ready s x ys dst i m₂ st.ready st.page st.fresh st.out low (λ b off_x off_d.
                  write64-outside m₁ (slot dst i) v b off_d
                  ∙ copy_bytes-outside page_size 0 x p g.mem' b (omega (arith, off_x)));
            within = λ y h. ground (arith, h);
            few = omega (arith, entry_cost_valid (cost 0 m₀) m₀ src i valid);
            bytes = λ h.
                write64-IsBytes m₁ (slot dst i) v
                  (copy_bytes-IsBytes page_size 0 x p g.mem' (Allocated-IsBytes g h));
            same = λ b off off_d.
                write64-outside m₁ (slot dst i) v b (omega (arith, off_d))
                ∙ copy_bytes-outside page_size 0 x p g.mem' b (omega (arith, off x (ground arith)))
                ∙ g.same b (omega (arith, off x (ground arith)));
            entries = λ j lo hi.
                let here : j ≡ i = omega arith in
                rw here (
                  λ _. (
                    x,
                    (ground arith, st.ready.frees.distinct.0),
                    px,
                    read64-write64_self m₁ (slot dst i) v (copied_entry x a px),
                    λ o small.
                        write64-outside m₁ (slot dst i) v (x + o)
                          (omega (arith, px.aligned, st.page.aligned, ne))
                        ∙ copy_bytes-inside page_size 0 x p page_size g.mem' o apart (omega arith)
                            (omega arith) small
                        ∙ g.same (p + o) (omega (arith, apart))
                        ∙ source_byte s (x ∷ ys) p (p + o) st.ready al out_p (omega arith)
                            (omega arith),
                  ),
                  λ stop. absurd (ground (arith, valid, stop)),
                );
          }
