-- ===== src/Page/FreeList.antt =====
-- What the free list stands for: a list of pages, each one once.
use riscvkernel_hit.Base.{
  ℕ, ◌+◌, ◌%◌, ◌≤◌, ◌<◌, ◌≡◌, ◌≢◌, List, [], ◌∷◌, true, false, arith, has, Distinct, All, ◌⊎◌,
}
use riscvkernel_hit.Memory.Defs.{Mem, read64}
use riscvkernel_hit.Kernel.Defs.{Layout}
use riscvkernel_hit.Page.Defs.{page_size, ram_end}

-- A page that the allocator may hand out: whole, in RAM and behind the kernel's image.
pub record IsPage (l : Layout) (x : ℕ) : Type 0 where
  pub aligned : x % page_size ≡ 0
  pub positive : 0 < x
  pub above : l.kernel_end ≤ x
  pub below : x < ram_end

-- From `p` the first words of the pages lead through `xs` to the null pointer.
abbrev pub Chain : Mem → ℕ → List ℕ → Type 0
Chain m p [] = p ≡ 0
Chain m p (x ∷ xs) = (p ≡ x) × Chain m (read64 m x) xs

pub record FreeList (l : Layout) (m : Mem) (head : ℕ) (xs : List ℕ) : Type 0 where
  pub chain : Chain m head xs
  pub distinct : Distinct xs
  pub pages : All (IsPage l) xs

-- The chain survives a change that spares the first words of its pages.
pub Chain-frame :
    (m m' : Mem) (p : ℕ) (xs : List ℕ)
    → Chain m p xs
    → ((x : ℕ) → has x xs ≡ true → read64 m' x ≡ read64 m x)
    → Chain m' p xs
Chain-frame m m' p [] c same = c
Chain-frame m m' p (x ∷ xs) (e, c) same =
    let first : read64 m' x ≡ read64 m x = same x (ground arith) in
    (e, rw first (Chain-frame m m' (read64 m x) xs c (λ y h. same y (ground arith))))

pub IsPage-of_has :
    {l : Layout} (xs : List ℕ) (x : ℕ) → All (IsPage l) xs → has x xs ≡ true → IsPage l x
IsPage-of_has [] x ps h = absurd (ground arith)
IsPage-of_has (y ∷ ys) x ps h = ground (arith, IsPage-of_has ys x ps.1)

pub ne_of_has : (xs : List ℕ) (x y : ℕ) → has x xs ≡ false → has y xs ≡ true → x ≢ y
ne_of_has xs x y h k = λ e. let h' : has y xs ≡ false = rw (← e) h in ground arith

pub FreeList-frame :
    {l : Layout} {m : Mem} (m' : Mem) {head : ℕ} {xs : List ℕ}
    → FreeList l m head xs
    → ((x : ℕ) → has x xs ≡ true → read64 m' x ≡ read64 m x)
    → FreeList l m' head xs
FreeList-frame {m} m' {head} {xs} f same = record {
  chain = Chain-frame m m' head xs f.chain same;
  distinct = f.distinct;
  pages = f.pages;
}

-- A page of the list other than `x` lies apart from all of `x`.
pub apart_of_has :
    {l : Layout} (xs : List ℕ) (x y : ℕ)
    → IsPage l x
    → All (IsPage l) xs
    → has x xs ≡ false
    → has y xs ≡ true
    → (y + page_size ≤ x) ⊎ (x + page_size ≤ y)
apart_of_has {l} xs x y px ps out is_in =
    let py : IsPage l y = IsPage-of_has xs y ps is_in in
    let ne : x ≢ y = ne_of_has xs x y out is_in in ground (arith, px.aligned, py.aligned, ne)
