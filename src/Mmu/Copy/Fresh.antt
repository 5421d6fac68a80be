-- ===== src/Mmu/Copy/Fresh.antt =====
-- A fresh table in an entry of `dst`: it is empty, and the loop that fills it spares the entry.
use riscvkernel_hit.Base.{ℕ, ◌+◌, ◌^◌, ◌≤◌, ◌<◌, ◌≡◌, ◌≢◌, ◌⊎◌, ◌∙◌, List, ◌∷◌, arith, length, All}
use riscvkernel_hit.Memory.Defs.{Mem, read64, write64}
use riscvkernel_hit.Memory.Laws.{
  IsBytes, write64-IsBytes, read64_ext, read64-write64_self, read64-write64_apart, write64-outside,
}
use riscvkernel_hit.Kernel.Defs.{Kernel, Layout, Run}
use riscvkernel_hit.Page.Alloc.{Allocated, Allocated-IsBytes}
use riscvkernel_hit.Page.FreeList.{IsPage}
use riscvkernel_hit.Mmu.Fields.{is_valid_lem}
use riscvkernel_hit.Mmu.Defs.{slot}
use riscvkernel_hit.Mmu.Grow.{read64_zeroes}
use riscvkernel_hit.Mmu.Copy.Twin.{Off, total}
use riscvkernel_hit.Mmu.Copy.Rounds.{page-Off, Copied}
use riscvkernel_hit.Mmu.Copy.Leaf.{Start, got, taken-Ready}

module _ (l : Layout) (m₀ : Mem) (xs₀ : List ℕ) (pages₀ : All (IsPage l) xs₀) (w : ℕ → ℕ)
    (dst i : ℕ) (s : Kernel) (x : ℕ) (ys : List ℕ) (st : Start l m₀ xs₀ pages₀ w dst i 1 s (x ∷ ys))
    (v : ℕ) where
  pub in_table : i < 512
  in_table = omega (arith, st.top)

  abbrev pub given : Allocated l s x ys
  given = got l m₀ xs₀ pages₀ s x ys dst i s.mem st.ready st.page st.fresh st.out in_table

  -- The kernel once the entry is written.
  abbrev pub with_entry : Kernel
  with_entry = record s { mem = write64 given.mem' (slot dst i) v; free_list = given.head' }

  apart : x ≢ dst
  apart = ground (arith, st.out)

  pub fresh-Start :
      (w' : ℕ → ℕ) → total w' 512 0 ≤ length ys → Start l m₀ xs₀ pages₀ w' x 0 512 with_entry ys
  fresh-Start w' enough = record {
    ready =
        taken-Ready l m₀ xs₀ pages₀ s x ys dst i with_entry.mem st.ready st.page st.fresh st.out
          in_table (λ b off_x off_d. write64-outside given.mem' (slot dst i) v b off_d);
    page = st.ready.frees.pages.0;
    fresh = st.ready.within x (ground arith);
    out = st.ready.frees.distinct.0;
    empty = λ j lo hi.
        let px : IsPage l x = st.ready.frees.pages.0 in
        let e : read64 with_entry.mem (slot x j) ≡ 0 =
          read64-write64_apart given.mem' (slot dst i) v (slot x j)
            (omega (arith, px.aligned, st.page.aligned, apart))
          ∙ read64_zeroes given.mem' (slot x j)
              (λ b lo' hi'. given.cleared b (omega arith) (omega arith)) in
        rw e (is_valid_lem 0);
    top = omega arith;
    enough = enough;
  }

  module _ {E : (ℕ → Type 0) → Mem → ℕ → Type 0} {c : ℕ} {r : Run (Unit {0})}
      (z : Copied l m₀ xs₀ E x 0 512 c with_entry ys r) where
    spared : (b : ℕ) → slot dst i ≤ b → b < slot dst i + 8 → z.mem' b ≡ with_entry.mem b
    spared b lo hi =
        let px : IsPage l x = st.ready.frees.pages.0 in
        let low = in_table in
        z.same b
          (page-Off l ys dst b st.ready.frees.pages.1 st.page.aligned (ground (arith, st.out))
            (omega arith) (omega (arith, low)))
          (omega (arith, px.aligned, st.page.aligned, apart, low))

    pub fresh-entry : v < 2 ^ 64 → read64 z.mem' (slot dst i) ≡ v
    fresh-entry small =
        read64_ext with_entry.mem z.mem' (slot dst i)
          (λ j lt. spared (slot dst i + j) (omega arith) (omega arith))
          (spared (slot dst i) (omega arith) (omega arith))
        ∙ read64-write64_self given.mem' (slot dst i) v small

    pub fresh-same :
        (b : ℕ) → Off (x ∷ ys) b → (b < slot dst i) ⊎ (slot dst (i + 1) ≤ b) → z.mem' b ≡ s.mem b
    fresh-same b off off_d =
        let off_x = off x (ground arith) in
        z.same b (λ y h. off y (ground (arith, h))) (omega (arith, off_x))
        ∙ write64-outside given.mem' (slot dst i) v b (omega (arith, off_d))
        ∙ given.same b off_x

    pub fresh-IsBytes : IsBytes s.mem → IsBytes z.mem'
    fresh-IsBytes h =
        z.bytes (write64-IsBytes given.mem' (slot dst i) v (Allocated-IsBytes given h))
