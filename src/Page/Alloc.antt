-- ===== src/Page/Alloc.antt =====
-- `alloc_page`, `free_page` and `get_free_page_count` on a free list.
use riscvkernel_hit.Base.{
  ℕ, zero, suc, ◌+◌, ◌^◌, ◌≤◌, ◌<◌, ◌≡◌, ◌⊎◌, refl, ap, ◌∙◌, List, [], ◌∷◌, ◌++◌, true, false,
  arith, has, length, ◌==◌, leb, ltb, inl, inr, Bool-cases,
}
use riscvkernel_hit.Memory.Defs.{Mem, read64, write64, zero_bytes}
use riscvkernel_hit.Memory.Laws.{
  IsBytes, read64-write64_self, read64-write64_apart, write64-outside,
}
use riscvkernel_hit.Memory.Ranges.{zero_bytes-inside, zero_bytes-outside, read64-zero_bytes_outside}
use riscvkernel_hit.Printf.Fits.{fits}
use riscvkernel_hit.Kernel.Defs.{Kernel, Layout, ok, hung, ◌>>◌}
use riscvkernel_hit.Kernel.Say.{say-ok}
use riscvkernel_hit.Page.Defs.{page_size, alloc_page, free_page, count_loop}
use riscvkernel_hit.Page.FreeList.{IsPage, FreeList, FreeList-frame, apart_of_has}

-- Every byte of the page at `x` is zero.
abbrev pub IsClear : Mem → ℕ → Type 0
IsClear m x = (b : ℕ) → x ≤ b → b < x + page_size → m b ≡ 0

-- The memories agree except on the `n` bytes at `x`.
abbrev pub SameOutside : ℕ → ℕ → Mem → Mem → Type 0
SameOutside x n m m' = (b : ℕ) → (b < x) ⊎ (x + n ≤ b) → m' b ≡ m b

-- A call of `alloc_page` that hands out `x`: no more than the memory and the free list change.
pub record Allocated (l : Layout) (s : Kernel) (x : ℕ) (xs : List ℕ) : Type 0 where
  pub mem' : Mem
  pub head' : ℕ
  pub returns : alloc_page s ≡ ok x (record s { mem = mem'; free_list = head' })
  pub rest : FreeList l mem' head' xs
  pub cleared : IsClear mem' x
  pub same : SameOutside x page_size s.mem mem'

pub Allocated-IsBytes :
    {l : Layout} {s : Kernel} {x : ℕ} {xs : List ℕ}
    → (g : Allocated l s x xs) → IsBytes s.mem
    → IsBytes g.mem'
Allocated-IsBytes {s} {x} g h b = elim (Bool-cases (leb x b)) [
  | inl lo ↦ elim (Bool-cases (ltb b (x + page_size))) [
    | inl hi ↦ rw (g.cleared b (ground (arith, lo)) (ground (arith, hi))) (omega arith)
    | inr hi ↦ rw (g.same b (ground (arith, hi))) (h b)
  ]
  | inr lo ↦ rw (g.same b (ground (arith, lo))) (h b)
]

module _ {l : Layout} where
  -- With a page left, `alloc_page` hands out the head of the free list, cleared, and keeps the
  -- list of the others; it changes no byte outside that page and nothing else in the kernel.
  pub alloc_page-Allocated :
      (s : Kernel) (x : ℕ) (xs : List ℕ)
      → FreeList l s.mem s.free_list (x ∷ xs)
      → Allocated l s x xs
  alloc_page-Allocated s x xs f = record {
    mem' = zero_bytes page_size 0 x s.mem;
    head' = read64 s.mem x;
    returns =
        unfold alloc_page in
        let here : s.free_list ≡ x = f.chain.0 in
        let live : (x == 0) ≡ false = ground (arith, f.pages.0.positive) in rw (here, live);
    rest =
        FreeList-frame (zero_bytes page_size 0 x s.mem)
          (record { chain = f.chain.1; distinct = f.distinct.1; pages = f.pages.1 })
          λ y h.
            read64-zero_bytes_outside page_size x s.mem y
              (ground (arith, apart_of_has xs x y f.pages.0 f.pages.1 f.distinct.0 h));
    cleared = λ b lo hi. zero_bytes-inside page_size 0 x s.mem b (omega arith) (omega arith);
    same = λ b h. zero_bytes-outside page_size 0 x s.mem b (ground arith);
  }

  -- Without a page left, `alloc_page` reports it and never returns.
  pub alloc_page-hung :
      (s : Kernel)
      → FreeList l s.mem s.free_list []
      → (out : List ℕ) × (alloc_page s ≡ hung (record s { sent = s.sent ++ out }))
  unfolding alloc_page
  alloc_page-hung s f =
      let (out, e) = say-ok "[FATAL] Out of Memory (OOM)!\n" [] s (unfold fits in refl) in
      let empty : (s.free_list == 0) ≡ true = ground (arith, f.chain) in (out, rw (empty, e))

  pub link-FreeList :
      (s : Kernel) (p : ℕ) (xs : List ℕ)
      → IsPage l p
      → s.free_list < 2 ^ 64
      → has p xs ≡ false
      → FreeList l s.mem s.free_list xs
      → FreeList l (write64 s.mem p s.free_list) p (p ∷ xs)
  link-FreeList s p xs page small out f =
      let kept : FreeList l (write64 s.mem p s.free_list) s.free_list xs =
        FreeList-frame (write64 s.mem p s.free_list) f λ y h.
          read64-write64_apart s.mem p s.free_list y
            (ground (arith, apart_of_has xs p y page f.pages out h)) in
      record {
        chain = (refl, rw (read64-write64_self s.mem p s.free_list small) kept.chain);
        distinct = (out, f.distinct);
        pages = (page, f.pages);
      }

  pub head-small : (m : Mem) (p : ℕ) (xs : List ℕ) → FreeList l m p xs → p < 2 ^ 64
  head-small m p [] f = omega (arith, f.chain)
  head-small m p (x ∷ xs) f = omega (arith, f.chain.0, f.pages.0.below)

  -- `free_page` of a page that is not free puts it in front of the free list, and writes no more
  -- than the page's first word.
  pub free_page-FreeList :
      (s : Kernel) (p : ℕ) (xs : List ℕ)
      → IsPage l p
      → has p xs ≡ false
      → FreeList l s.mem s.free_list xs
      → (m : Mem) × (free_page p s ≡ ok tt (record s { mem = m; free_list = p }))
        × FreeList l m p (p ∷ xs)
        × SameOutside p 8 s.mem m
  unfolding free_page
  free_page-FreeList s p xs page out f =
      let live : (p == 0) ≡ false = ground (arith, page.positive) in
      (
        write64 s.mem p s.free_list,
        rw live,
        link-FreeList s p xs page (head-small s.mem s.free_list xs f) out f,
        λ b h. write64-outside s.mem p s.free_list b h,
      )

  -- A page of the allocator that was not free and is given back is the next to be handed out,
  -- cleared of what it held; the free list is as it was, and no byte outside the page has changed.
  pub free_page-alloc_page :
      (s : Kernel) (p : ℕ) (xs : List ℕ)
      → IsPage l p
      → has p xs ≡ false
      → FreeList l s.mem s.free_list xs
      → (s' : Kernel) × ((free_page p >> alloc_page) s ≡ ok p s')
        × FreeList l s'.mem s'.free_list xs
        × IsClear s'.mem p
        × SameOutside p page_size s.mem s'.mem
  free_page-alloc_page s p xs page out f =
      let (m, freed, list, same) = free_page-FreeList s p xs page out f in
      let a = alloc_page-Allocated (record s { mem = m; free_list = p }) p xs list in
      (
        record s { mem = a.mem'; free_list = a.head' },
        rw (freed, a.returns),
        a.rest,
        a.cleared,
        λ b h. a.same b h ∙ same b (ground arith),
      )

  pub count_loop-length :
      (fuel p count : ℕ) (s : Kernel) (xs : List ℕ)
      → FreeList l s.mem p xs
      → length xs < fuel
      → count_loop fuel p count s ≡ ok (count + length xs) s
  unfolding count_loop
  count_loop-length zero p count s xs f h = absurd (omega arith)
  count_loop-length (suc fuel) p count s [] f h =
      let end : p ≡ 0 = f.chain in rw end (ap (λ n. ok n s) (omega arith))
  count_loop-length (suc fuel) p count s (x ∷ xs) f h =
      let here : p ≡ x = f.chain.0 in
      let live : (x == 0) ≡ false = ground (arith, f.pages.0.positive) in
      let later : FreeList l s.mem (read64 s.mem x) xs = record {
        chain = f.chain.1;
        distinct = f.distinct.1;
        pages = f.pages.1;
      } in
      rw (here, live)
        (count_loop-length fuel (read64 s.mem x) (count + 1) s xs later (omega arith)
          ∙ ap (λ n. ok n s) (omega arith))
