-- ===== src/Mmu/Copy/Rounds.antt =====
-- What the loops of `copy_user_page_table` keep, and how two of their rounds go together.
use riscvkernel_hit.Base.{
  ℕ, suc, ◌+◌, ◌%◌, ◌≤◌, ◌<◌, ◌≡◌, ◌≢◌, ◌⊎◌, inl, inr, refl, ◌∙◌, List, true, false, arith, has,
  length, All, ◌==◌, Bool-cases,
}
use riscvkernel_hit.Memory.Defs.{Mem, read64}
use riscvkernel_hit.Memory.Laws.{IsBytes, read64_ext}
use riscvkernel_hit.Kernel.Defs.{Kernel, Layout, Run, ok}
use riscvkernel_hit.Page.Defs.{page_size}
use riscvkernel_hit.Page.FreeList.{IsPage, FreeList, IsPage-of_has}
use riscvkernel_hit.Mmu.Defs.{slot}
use riscvkernel_hit.Mmu.Copy.Twin.{Off, Within, Taken, OnPage, IsStable}

-- A page that is not in the list lies off its pages.
pub page-Off :
    (l : Layout) (xs : List ℕ) (x b : ℕ)
    → All (IsPage l) xs
    → x % page_size ≡ 0
    → has x xs ≡ false
    → x ≤ b
    → b < x + page_size
    → Off xs b
page-Off l xs x b pages al out lo hi = λ y h.
    let page = IsPage-of_has xs y pages h in
    let ne : y ≢ x = λ e. let bad : has x xs ≡ true = rw (← e) h in ground (arith, bad, out) in
    ground (arith, page.aligned, al, ne)

pub not_Within : (xs ys : List ℕ) (x : ℕ) → Within xs ys → has x ys ≡ false → has x xs ≡ false
not_Within xs ys x within out = elim (Bool-cases (has x xs)) [
  | inl h ↦ ground (arith, out, within x h)
  | inr h ↦ h
]

-- `m₀` is the memory before the copy, and `xs₀` the pages that were free then.
module _ (l : Layout) (m₀ : Mem) (xs₀ : List ℕ) where
  pub record Ready (s : Kernel) (xs : List ℕ) : Type 0 where
    pub frees : FreeList l s.mem s.free_list xs
    pub within : Within xs xs₀
    pub clean : (b : ℕ) → Off xs₀ b → s.mem b ≡ m₀ b

  -- The entries of `dst` from `i` on, `left` of them, are what `E` says at the end of a run that
  -- took at most `c` pages of `xs` and wrote no more than those and the entries.
  pub record Copied (E : (ℕ → Type 0) → Mem → ℕ → Type 0) (dst i left c : ℕ) (s : Kernel)
      (xs : List ℕ) (r : Run (Unit {0})) : Type 0 where
    pub mem' : Mem
    pub head' : ℕ
    pub xs' : List ℕ
    pub returns : r ≡ ok tt (record s { mem = mem'; free_list = head' })
    pub ready : Ready (record s { mem = mem'; free_list = head' }) xs'
    pub within : Within xs' xs
    pub few : length xs ≤ length xs' + c
    pub bytes : IsBytes s.mem → IsBytes mem'
    pub same : (b : ℕ) → Off xs b → (b < slot dst i) ⊎ (slot dst (i + left) ≤ b) → mem' b ≡ s.mem b
    pub entries : (j : ℕ) → i ≤ j → j < i + left → E (Taken xs xs') mem' j

  -- A slot that a run spares.
  pub slot-same :
      {E : (ℕ → Type 0) → Mem → ℕ → Type 0} {dst i left c : ℕ} {s : Kernel} {xs : List ℕ}
      {r : Run (Unit {0})} (z : Copied E dst i left c s xs r) (j : ℕ)
      → FreeList l s.mem s.free_list xs
      → IsPage l dst
      → has dst xs ≡ false
      → j < 512
      → (j < i) ⊎ (i + left ≤ j)
      → read64 z.mem' (slot dst j) ≡ read64 s.mem (slot dst j)
  slot-same {dst} {s} {xs} z j f page out low apart =
      let spared : (b : ℕ) → slot dst j ≤ b → b < slot dst j + 8 → z.mem' b ≡ s.mem b = λ b lo hi.
        z.same b (page-Off l xs dst b f.pages page.aligned out (omega arith) (omega arith))
          (omega (arith, apart)) in
      read64_ext s.mem z.mem' (slot dst j)
        (λ k lt. spared (slot dst j + k) (omega arith) (omega arith))
        (spared (slot dst j) (omega arith) (omega arith))

  -- A page that the earlier rounds took does not change in the later ones.
  taken-OnPage :
      {E : (ℕ → Type 0) → Mem → ℕ → Type 0} {dst i left c : ℕ} {s : Kernel} {xs : List ℕ}
      {r : Run (Unit {0})} (z : Copied E dst i left c s xs r) (x : ℕ)
      → i + left ≤ 512
      → FreeList l s.mem s.free_list xs
      → IsPage l dst
      → IsPage l x
      → x ≢ dst
      → has x xs ≡ false
      → OnPage s.mem z.mem' x
  taken-OnPage {xs} z x top f page px ne out = λ b lo hi.
      z.same b (page-Off l xs x b f.pages px.aligned out lo hi)
        (ground (arith, page.aligned, px.aligned, ne))

  -- One round and the later ones.
  pub Copied-then :
      {E : (ℕ → Type 0) → Mem → ℕ → Type 0} {dst i left c c' : ℕ} {s : Kernel} {xs : List ℕ}
      {r r' r'' : Run (Unit {0})}
      → IsStable l m₀ dst E
      → i + suc left ≤ 512
      → FreeList l s.mem s.free_list xs
      → IsPage l dst
      → has dst xs ≡ false
      → (a : Copied E dst i 1 c s xs r)
      → (z : Copied E dst (i + 1) left c' (record s { mem = a.mem'; free_list = a.head' }) a.xs' r')
      → r'' ≡ r'
      → Copied E dst i (suc left) (c + c') s xs r''
  Copied-then {dst} {i} {left} {s} {xs} stable top f page out a z e =
      let late = λ (d : ℕ) (taken : Taken xs a.xs' d).
        let out_page = IsPage-of_has xs d f.pages taken.0 in
        taken-OnPage z d (omega (arith, top)) a.ready.frees page out_page
          (λ e'. let bad : has dst xs ≡ true = rw (← e') taken.0 in ground (arith, bad, out))
          taken.1 in
      let still = λ (d : ℕ) (taken : Taken xs a.xs' d).
        let gone : Taken xs z.xs' d = (taken.0, not_Within z.xs' a.xs' d z.within taken.1) in
        gone in
      let out' : has dst a.xs' ≡ false = not_Within a.xs' xs dst a.within out in
      record {
        mem' = z.mem';
        head' = z.head';
        xs' = z.xs';
        returns = e ∙ z.returns;
        ready = z.ready;
        within = λ x h. a.within x (z.within x h);
        few = omega (arith, a.few, z.few);
        bytes = λ h. z.bytes (a.bytes h);
        same = λ b off apart.
            z.same b (λ x h. off x (a.within x h)) (omega (arith, apart))
            ∙ a.same b off (omega (arith, apart));
        entries = λ j lo hi. elim (Bool-cases (j == i)) [
          | inl here ↦
              let first : j ≡ i = ground (arith, here) in
              stable (Taken xs a.xs') (Taken xs z.xs') a.mem' z.mem' j still late
                (slot-same z j a.ready.frees page out' (omega (arith, first, top))
                  (inl (omega (arith, first))))
                (a.entries j lo (omega (arith, first)))
          | inr later ↦
              let ne : j ≢ i = ground (arith, later) in
              let before = λ (d : ℕ) (taken : Taken a.xs' z.xs' d).
                let was : Taken xs z.xs' d = (a.within d taken.0, taken.1) in was in
              stable (Taken a.xs' z.xs') (Taken xs z.xs') z.mem' z.mem' j before
                (λ x was b lo' hi'. refl) refl (z.entries j (omega (arith, ne)) (omega arith))
        ];
      }
