-- ===== src/Page/Init.antt =====
-- `page_init`: every page of RAM behind the kernel's image is on the free list.
use mathlib.Core.List.{append_assoc}
use riscvkernel_hit.Base.{
  ℕ, zero, suc, ◌+◌, ◌-◌, ◌*◌, ◌/◌, ◌%◌, ◌^◌, ◌≤◌, ◌<◌, ◌≡◌, inl, inr, refl, ap, ◌∙◌, List, [], ◌∷◌,
  ◌++◌, true, false, arith, has, length, Bool-cases, bit_and_high, ltb, ◌==◌,
}
use riscvkernel_hit.Memory.Defs.{Mem}
use riscvkernel_hit.Memory.Laws.{write64-outside}
use riscvkernel_hit.Printf.Defs.{word}
use riscvkernel_hit.Printf.Fits.{fits}
use riscvkernel_hit.Kernel.Defs.{Kernel, Layout, ok, Cmd, ◌>>◌}
use riscvkernel_hit.Kernel.Say.{say, say-ok}
use riscvkernel_hit.Page.Defs.{
  page_size, page_fuel, ram_start, ram_end, align_up, link, page_loop, page_init,
}
use riscvkernel_hit.Page.FreeList.{IsPage, FreeList}
use riscvkernel_hit.Page.Alloc.{link-FreeList, head-small}

pub align_up_lem : (a : ℕ) → a + 4095 < 2 ^ 64 → align_up a page_size ≡ (a + 4095) / 4096 * 4096
unfolding align_up
align_up_lem a h = omega (arith, bit_and_high 12 52 ((a + page_size - 1) % 2 ^ 64))

-- The loop from `p` on: the pages from `p` to the end of RAM join the list, and no byte below `p`
-- changes.
record Linked (l : Layout) (s : Kernel) (fuel p count n : ℕ) (xs : List ℕ) : Type 0 where
  mem' : Mem
  head' : ℕ
  list : List ℕ
  returns : page_loop fuel p count s ≡ ok (count + n) (record s { mem = mem'; free_list = head' })
  free : FreeList l mem' head' list
  old : (x : ℕ) → has x xs ≡ true → has x list ≡ true
  new : (x : ℕ) → x % page_size ≡ 0 → p ≤ x → x < ram_end → has x list ≡ true
  total : length list ≡ length xs + n
  same : (b : ℕ) → b < p → mem' b ≡ s.mem b

not-has_self : (p : ℕ) (xs : List ℕ) → ((x : ℕ) → has x xs ≡ true → x < p) → has p xs ≡ false
not-has_self p xs below = elim (Bool-cases (has p xs)) [
  | inl e ↦ absurd (omega (arith, below p e))
  | inr e ↦ e
]

module _ {l : Layout} where
  page_loop-Linked :
      (n fuel p count : ℕ) (s : Kernel) (xs : List ℕ)
      → n < fuel
      → p + n * page_size ≡ ram_end
      → p % page_size ≡ 0
      → 0 < p
      → l.kernel_end ≤ p
      → ((x : ℕ) → has x xs ≡ true → x < p)
      → FreeList l s.mem s.free_list xs
      → Linked l s fuel p count n xs
  unfolding page_loop
  page_loop-Linked zero zero p count s xs h end al pos above below f = absurd (omega arith)
  page_loop-Linked (suc n) zero p count s xs h end al pos above below f = absurd (omega arith)
  page_loop-Linked zero (suc fuel) p count s xs h end al pos above below f = record {
    mem' = s.mem;
    head' = s.free_list;
    list = xs;
    returns =
        let stop : ltb p ram_end ≡ false = ground arith in rw stop (ap (λ c. ok c s) (omega arith));
    free = f;
    old = λ x k. k;
    new = λ x a lo hi. absurd (omega arith);
    total = omega arith;
    same = λ b k. refl;
  }
  page_loop-Linked (suc n) (suc fuel) p count s xs h end al pos above below f =
      let page : IsPage l p = record {
        aligned = al;
        positive = pos;
        above = above;
        below = omega arith;
      } in
      let out = not-has_self p xs below in
      let f' = link-FreeList s p xs page (head-small s.mem s.free_list xs f) out f in
      let rest =
        page_loop-Linked n fuel (p + page_size) (count + 1) (link p s) (p ∷ xs) (omega arith)
          (omega arith) (omega arith) (omega arith) (omega arith) (λ x k. ground (arith, below x))
          f' in
      record {
        mem' = rest.mem';
        head' = rest.head';
        list = rest.list;
        returns =
            let go : ltb p ram_end ≡ true = ground arith in
            rw go (
              rest.returns
              ∙ ap (λ c. ok c (record s { mem = rest.mem'; free_list = rest.head' }))
                  (omega arith));
        free = rest.free;
        old = λ x k. rest.old x (ground arith);
        new = λ x a lo hi. elim (Bool-cases (x == p)) [
          | inl e ↦ rest.old x (ground arith)
          | inr e ↦ rest.new x a (ground arith) hi
        ];
        total = omega (arith, rest.total);
        same = λ b k. rest.same b (omega arith) ∙ write64-outside s.mem p s.free_list b (inl k);
      }

-- The three messages of `page_init`.
report : ℕ → ℕ → Cmd (Unit {0})
report start page_count = do
  say "[SYS] Physical Memory Allocator initialized.\n" []
  say "[SYS] Managed RAM: 0x%x -> 0x%x\n" (word start ∷ word ram_end ∷ [])
  say "[SYS] Total free pages: %d (approx %d MB)\n"
      (word page_count ∷ word (page_count * 4096 / 1024 / 1024) ∷ [])

report-ok :
    (start page_count : ℕ) (s : Kernel)
    → (out : List ℕ) × (report start page_count s ≡ ok tt (record s { sent = s.sent ++ out }))
unfolding report fits
report-ok start page_count s =
    let (a, e₁) = say-ok "[SYS] Physical Memory Allocator initialized.\n" [] s refl in
    let (b, e₂) =
      say-ok "[SYS] Managed RAM: 0x%x -> 0x%x\n" (word start ∷ word ram_end ∷ [])
        (record s { sent = s.sent ++ a }) refl in
    let (c, e₃) =
      say-ok "[SYS] Total free pages: %d (approx %d MB)\n"
        (word page_count ∷ word (page_count * 4096 / 1024 / 1024) ∷ [])
        (record s { sent = (s.sent ++ a) ++ b }) refl in
    (
      a ++ (b ++ c),
      rw (e₁, e₂, e₃)
          (ap (λ o. ok tt (record s { sent = o }))
            (append_assoc (s.sent ++ a) b c ∙ append_assoc s.sent a (b ++ c))),
    )

-- With an empty free list and an image that ends in RAM, `page_init` returns, makes a free list of
-- exactly the whole pages between the image and the end of RAM, each once, and changes no byte
-- below the end of the image.
pub page_init-FreeList :
    (l : Layout) (s : Kernel)
    → ram_start ≤ l.kernel_end
    → l.kernel_end ≤ ram_end
    → s.free_list ≡ 0
    → (m : Mem) × (head : ℕ) × (xs : List ℕ) × (out : List ℕ) × (page_init l s
        ≡ ok tt (record s { mem = m; free_list = head; sent = s.sent ++ out }))
      × FreeList l m head xs
      × (length xs ≡ (ram_end - l.kernel_end) / page_size)
      × ((x : ℕ) → IsPage l x → has x xs ≡ true)
      × ((b : ℕ) → b < l.kernel_end → m b ≡ s.mem b)
unfolding page_init report
page_init-FreeList l s lo hi empty =
    let start : ℕ = align_up l.kernel_end page_size in
    let e : start ≡ (l.kernel_end + 4095) / 4096 * 4096 = align_up_lem l.kernel_end (omega arith) in
    let n : ℕ = (ram_end - start) / page_size in
    let loop =
      page_loop-Linked {l = l} n page_fuel start 0 s [] (omega (arith, e)) (omega (arith, e))
        (omega (arith, e)) (omega (arith, e)) (omega (arith, e)) (λ x k. absurd (ground arith))
        (record { chain = empty; distinct = tt; pages = tt }) in
    let (out, said) =
      report-ok start (0 + n) (record s { mem = loop.mem'; free_list = loop.head' }) in
    (
      loop.mem',
      loop.head',
      loop.list,
      out,
      rw loop.returns said,
      loop.free,
      omega (arith, loop.total, e),
      λ x page. loop.new x page.aligned (omega (arith, e, page.aligned, page.above)) page.below,
      λ b h. loop.same b (omega (arith, e)),
    )
