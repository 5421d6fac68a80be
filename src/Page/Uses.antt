-- ===== src/Page/Uses.antt =====
-- The allocator's user: what any sequence of calls and writes to the pages in use leaves.
use mathlib.Core.List.{append_assoc, perm_middle, Perm}
use mathlib.Core.List.Perm
use riscvkernel_hit.Base.{
  ℕ, ◌+◌, ◌≤◌, ◌<◌, ◌≡◌, All-append_left, Distinct-Apart, inl, inr, refl, sym, ◌∙◌, List, [], ◌∷◌,
  ◌++◌, true, false, arith, has, has-append, All, Distinct, Distinct-front, Distinct-back,
  All-front, All-back, ◌&&◌, leb, ltb, update, Bool-cases, if◌then◌else◌,
}
use riscvkernel_hit.Memory.Defs.{Mem}
use riscvkernel_hit.Memory.Laws.{read64_ext}
use riscvkernel_hit.Kernel.Defs.{Kernel, Layout, ok, hung}
use riscvkernel_hit.Page.Defs.{page_size, alloc_page, free_page}
use riscvkernel_hit.Page.FreeList.{IsPage, FreeList, FreeList-frame, IsPage-of_has, apart_of_has}
use riscvkernel_hit.Page.Alloc.{
  Allocated, alloc_page-Allocated, alloc_page-hung, free_page-FreeList,
}

abbrev pub OnPage : ℕ → ℕ → Type 0
OnPage x b = (x ≤ b) × (b < x + page_size)

-- The memory with the page at `x` cleared.
abbrev pub clear : ℕ → Mem → Mem
clear x v b = if leb x b && ltb b (x + page_size) then 0 else v b

-- From `s₀`, where no page is in use, to a kernel with the pages `us` in use: by calls of
-- `alloc_page` that returned, calls of `free_page` on a page in use, and writes of bytes to pages
-- in use. `v` is what the user has written to each page since it was handed out, and 0 elsewhere.
pub data Uses (s₀ : Kernel) : Kernel → List ℕ → Mem → Type 0 where
  starts : {v : Mem} → Uses s₀ s₀ [] v
  allocs :
      {s s' : Kernel} {us : List ℕ} {v : Mem} (x : ℕ)
      → Uses s₀ s us v
      → alloc_page s ≡ ok x s'
      → Uses s₀ s' (x ∷ us) (clear x v)
  frees :
      {s s' : Kernel} {us : List ℕ} {v : Mem} (x : ℕ) (before after : List ℕ)
      → Uses s₀ s us v
      → us ≡ before ++ x ∷ after
      → free_page x s ≡ ok tt s'
      → Uses s₀ s' (before ++ after) v
  writes :
      {s : Kernel} {us : List ℕ} {v : Mem} (x b byte : ℕ)
      → Uses s₀ s us v
      → has x us ≡ true
      → OnPage x b
      → Uses s₀ (record s { mem = update s.mem b byte }) us (update v b byte)

-- The pages of the list are the pages `xs₀`, each once, in any order.
pub record Whole (l : Layout) (xs₀ xs : List ℕ) : Type 0 where
  pub distinct : Distinct xs
  pub pages : All (IsPage l) xs
  pub same : Perm xs xs₀

module _ {l : Layout} {xs₀ : List ℕ} where
  Whole-front : (x : ℕ) (ys zs : List ℕ) → Whole l xs₀ (ys ++ x ∷ zs) → Whole l xs₀ (x ∷ (ys ++ zs))
  Whole-front x ys zs w = record {
    distinct = Distinct-front x ys zs w.distinct;
    pages = All-front (IsPage l) x ys zs w.pages;
    same = Perm.trans (Perm.symm (perm_middle ys zs)) w.same;
  }

  Whole-back : (x : ℕ) (ys zs : List ℕ) → Whole l xs₀ (x ∷ (ys ++ zs)) → Whole l xs₀ (ys ++ x ∷ zs)
  Whole-back x ys zs w = record {
    distinct = Distinct-back x ys zs w.distinct;
    pages = All-back (IsPage l) x ys zs w.pages;
    same = Perm.trans (perm_middle ys zs) w.same;
  }

-- What the allocator promises its user: the pages in use and the free ones are those of the start,
-- each once, and a page in use reads what the user has written to it.
pub record Serves (l : Layout) (xs₀ : List ℕ) (s : Kernel) (us : List ℕ) (v : Mem) : Type 0 where
  pub xs : List ℕ
  pub free : FreeList l s.mem s.free_list xs
  pub whole : Whole l xs₀ (us ++ xs)
  pub kept : (x b : ℕ) → has x us ≡ true → OnPage x b → s.mem b ≡ v b

module _ {l : Layout} {xs₀ us : List ℕ} {s : Kernel} {v : Mem} (g : Serves l xs₀ s us v) where
  -- A page in use is no free page.
  used-IsPage : (x : ℕ) → has x us ≡ true → IsPage l x × (has x g.xs ≡ false)
  used-IsPage x h = (
    IsPage-of_has us x (All-append_left (IsPage l) us g.xs g.whole.pages) h,
    elim (Bool-cases (has x g.xs)) [
      | inl is_in ↦
          let out = Distinct-Apart us g.xs g.whole.distinct x is_in in
          absurd (ground (arith, h, out))
      | inr out ↦ out
    ],
  )

  write-Serves :
      (x b byte : ℕ)
      → has x us ≡ true
      → OnPage x b
      → Serves l xs₀ (record s { mem = update s.mem b byte }) us (update v b byte)
  write-Serves x b byte h on = record {
    xs = g.xs;
    free = FreeList-frame (update s.mem b byte) g.free λ y k.
        let (page, out) = used-IsPage x h in
        let apart = apart_of_has g.xs x y page g.free.pages out k in
        read64_ext s.mem (update s.mem b byte) y (λ i low. ground (arith, apart, on))
          (ground (arith, apart, on));
    whole = g.whole;
    kept = λ y a k off. ground (arith, g.kept y a k off);
  }

ok-injective : {A : Type 0} {a b : A} {s t : Kernel} → ok a s ≡ ok b t → (a ≡ b) × (s ≡ t)
ok-injective e = (cc, cc)

module _ {l : Layout} {xs₀ us : List ℕ} {s : Kernel} {v : Mem} where
  taken-Serves :
      (y : ℕ) (xs : List ℕ) (a : Allocated l s y xs)
      → Whole l xs₀ (us ++ y ∷ xs)
      → ((z b : ℕ) → has z us ≡ true → OnPage z b → s.mem b ≡ v b)
      → Serves l xs₀ (record s { mem = a.mem'; free_list = a.head' }) (y ∷ us) (clear y v)
  taken-Serves y xs a whole kept =
      let front = Whole-front y us xs whole in
      record {
        xs = xs;
        free = a.rest;
        whole = front;
        kept = λ z b h on. elim (Bool-cases (leb y b && ltb b (y + page_size))) [
          | inl here ↦ rw here (a.cleared b (ground (arith, here)) (ground (arith, here)))
          | inr there ↦
              let old : has z us ≡ true = ground (arith, h, on) in
              rw there (a.same b (ground (arith, there)) ∙ kept z b old on)
        ];
      }

  alloc-Serves :
      (x : ℕ) (s' : Kernel) (g : Serves l xs₀ s us v) (xs : List ℕ)
      → g.xs ≡ xs
      → alloc_page s ≡ ok x s'
      → Serves l xs₀ s' (x ∷ us) (clear x v)
  alloc-Serves x s' g [] none_left e =
      let (out, stuck) = alloc_page-hung s (rw none_left at g.free) in
      let differ : ok x s' ≡ hung (record s { sent = s.sent ++ out }) = sym e ∙ stuck in cc
  alloc-Serves x s' g (y ∷ xs) some_left e =
      let a = alloc_page-Allocated s y xs (rw some_left at g.free) in
      let whole : Whole l xs₀ (us ++ y ∷ xs) = rw some_left at g.whole in
      let served = taken-Serves y xs a whole g.kept in
      let (first, end) = ok-injective (sym e ∙ a.returns) in rw (end, first) served

  free-Serves :
      (x : ℕ) (before after : List ℕ) (s' : Kernel) (g : Serves l xs₀ s us v)
      → us ≡ before ++ x ∷ after
      → free_page x s ≡ ok tt s'
      → Serves l xs₀ s' (before ++ after) v
  free-Serves x before after s' g split e =
      let is_in : has x us ≡ true =
        rw split (rw (has-append x before (x ∷ after)) (ground arith)) in
      let (page, out) = used-IsPage g x is_in in
      let (m, returns, list, same) = free_page-FreeList s x g.xs page out g.free in
      let front : Whole l xs₀ (x ∷ ((before ++ after) ++ g.xs)) =
        rw (append_assoc before after g.xs) (
          Whole-front x before (after ++ g.xs)
            (rw (split, append_assoc before (x ∷ after) g.xs) at g.whole)) in
      let others : All (IsPage l) (before ++ after) =
        All-append_left (IsPage l) (before ++ after) g.xs front.pages.1 in
      let gone : has x (before ++ after) ≡ false =
        ground (arith, front.distinct.0, has-append x (before ++ after) g.xs) in
      let served : Serves l xs₀ (record s { mem = m; free_list = x }) (before ++ after) v = record {
        xs = x ∷ g.xs;
        free = list;
        whole = Whole-back x (before ++ after) g.xs front;
        kept = λ z b h on.
            let apart = apart_of_has (before ++ after) x z page others gone h in
            let old : has z us ≡ true = rw split (
              rw (has-append z before (x ∷ after))
                (ground (arith, h, has-append z before after))) in
            same b (omega (arith, apart, on)) ∙ g.kept z b old on;
      } in
      rw ((ok-injective (sym e ∙ returns)).1) served

-- From a kernel whose free list is `xs₀`, with no page in use: whatever the user does with the
-- pages that it was handed out, the pages in use and the free ones stay together those of `xs₀`,
-- each once; and a page in use reads what the user has
-- written to it since `alloc_page` returned it, and 0 where it has not.
pub Uses-Serves :
    {l : Layout} {s₀ s : Kernel} {us : List ℕ} {v : Mem} (xs₀ : List ℕ)
    → FreeList l s₀.mem s₀.free_list xs₀
    → Uses s₀ s us v
    → Serves l xs₀ s us v
Uses-Serves xs₀ f starts = record {
  xs = xs₀;
  free = f;
  whole = record { distinct = f.distinct; pages = f.pages; same = Perm.refl xs₀ };
  kept = λ x b h on. absurd (ground (arith, h));
}
Uses-Serves xs₀ f (allocs x r e) = let g = Uses-Serves xs₀ f r in alloc-Serves x _ g g.xs refl e
Uses-Serves xs₀ f (frees x before after r split e) =
    free-Serves x before after _ (Uses-Serves xs₀ f r) split e
Uses-Serves xs₀ f (writes x b byte r h on) = write-Serves (Uses-Serves xs₀ f r) x b byte h on
