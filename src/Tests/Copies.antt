-- ===== src/Tests/Copies.antt =====
-- A copy of an address space that holds a user stack and no more, with four free pages.
use riscvkernel_hit.Base.{
  ℕ, ◌%◌, zero, suc, ◌+◌, ◌≤◌, ◌<◌, ◌≡◌, ◌≢◌, inl, inr, refl, ap, ◌∙◌, List, [], ◌∷◌, true, false,
  ◌==◌, arith, has, All, Bool-cases,
}
use riscvkernel_hit.Memory.Defs.{Mem, read64, write64}
use riscvkernel_hit.Memory.Laws.{IsBytes, write64-IsBytes, read64-write64_apart}
use riscvkernel_hit.Kernel.Defs.{Kernel}
use riscvkernel_hit.Page.Defs.{link}
use riscvkernel_hit.Page.FreeList.{IsPage, FreeList}
use riscvkernel_hit.Mmu.Pte.{pte_to_pa, pa_to_pte, is_valid}
use riscvkernel_hit.Mmu.Fields.{is_valid_lem}
use riscvkernel_hit.Mmu.Defs.{slot}
use riscvkernel_hit.Mmu.Owned.{rev_onto, frees, frees-Agrees, frees-FreeList}
use riscvkernel_hit.Mmu.Copy.Twin.{Source, total, entry_cost, cost, entry_cost_valid}
use riscvkernel_hit.Mmu.Copy.Root.{is_shared, root_cost}
use riscvkernel_hit.Mmu.Copy.Space.{Copiable}
use riscvkernel_hit.Tests.States.{
  layout, zeroes, page_a, page_b, page_c, page_a-IsPage, page_b-IsPage, page_c-IsPage,
}
use riscvkernel_hit.Tests.Spaces.{page_d, page_e, ending}

abbrev pub spare : List ℕ
spare = 0x8020_0000 ∷ 0x8020_1000 ∷ 0x8020_2000 ∷ 0x8020_3000 ∷ []

-- Entry 1 of `page_a` leads to `page_b`, entry 0 of `page_b` to `page_c`, and entry 255 of `page_c`
-- to the stack in `page_d`. The kernel's root table `page_e` is empty.
abbrev pub m_1 : Mem
m_1 = write64 zeroes (slot page_a 1) (pa_to_pte page_b 1)

abbrev pub m_2 : Mem
m_2 = write64 m_1 (slot page_b 0) (pa_to_pte page_c 1)

abbrev pub stacked : Mem
stacked = write64 m_2 (slot page_c 255) (pa_to_pte page_d 0x17)

-- The three entries, and what they lead to.
entries :
    (read64 stacked (slot page_a 1) ≡ pa_to_pte page_b 1)
    × (read64 stacked (slot page_b 0) ≡ pa_to_pte page_c 1)
    × (read64 stacked (slot page_c 255) ≡ pa_to_pte page_d 0x17)
unfolding pa_to_pte read64 write64
entries = (refl, refl, refl)

pub targets :
    (pte_to_pa (pa_to_pte page_b 1) ≡ page_b)
    × (pte_to_pa (pa_to_pte page_c 1) ≡ page_c)
    × (pte_to_pa (pa_to_pte page_d 0x17) ≡ page_d)
unfolding pa_to_pte pte_to_pa
targets = (refl, refl, refl)

other_word :
    (a : ℕ)
    → (a % 8 ≡ 0) × (a ≢ slot page_a 1) × (a ≢ slot page_b 0) × (a ≢ slot page_c 255)
    → read64 stacked a ≡ 0
unfolding read64
other_word a (al, n₁, n₂, n₃) =
    read64-write64_apart m_2 (slot page_c 255) (pa_to_pte page_d 0x17) a (ground (arith, al, n₃))
    ∙ read64-write64_apart m_1 (slot page_b 0) (pa_to_pte page_c 1) a (ground (arith, al, n₂))
    ∙ read64-write64_apart zeroes (slot page_a 1) (pa_to_pte page_b 1) a (ground (arith, al, n₁))

abbrev pub before : Kernel
before = record ending { mem = stacked }

abbrev pub parent : Kernel
parent = frees spare before

abbrev pub free_ones : List ℕ
free_ones = rev_onto spare []

spare_pages : All (IsPage layout) spare
spare_pages = (omega arith, (omega arith, (omega arith, (omega arith, tt))))

frees-IsBytes : (ps : List ℕ) (s : Kernel) → IsBytes s.mem → IsBytes (frees ps s).mem
unfolding frees link
frees-IsBytes [] s h = h
frees-IsBytes (p ∷ ps) s h = frees-IsBytes ps (link p s) (write64-IsBytes s.mem p s.free_list h)

parent-IsBytes : IsBytes parent.mem
parent-IsBytes = frees-IsBytes spare before (
    write64-IsBytes m_2 (slot page_c 255) (pa_to_pte page_d 0x17) (
      write64-IsBytes m_1 (slot page_b 0) (pa_to_pte page_c 1)
        (write64-IsBytes zeroes (slot page_a 1) (pa_to_pte page_b 1) (λ a. omega arith))))

nothing_free : FreeList layout stacked 0 []
nothing_free = record { chain = refl; distinct = tt; pages = tt }

parent_frees : FreeList layout parent.mem parent.free_list free_ones
parent_frees =
    frees-FreeList spare before [] nothing_free spare_pages (refl, (refl, (refl, (refl, tt))))
      (λ a h. refl)

-- The tables are those of the space.
kept :
    (t i : ℕ)
    → IsPage layout t
    → has t spare ≡ false
    → i < 512
    → read64 parent.mem (slot t i) ≡ read64 stacked (slot t i)
kept t i page out low = frees-Agrees spare before t spare_pages page out i low

zero_is_invalid : is_valid 0 ≡ false
zero_is_invalid = is_valid_lem 0

-- A table with the entry `k` and no other.
abbrev pub Only : ℕ → ℕ → ℕ → Type 0
Only t k e =
    (read64 parent.mem (slot t k) ≡ e)
    × ((i : ℕ) → i ≢ k → i < 512 → read64 parent.mem (slot t i) ≡ 0)

pub sole_a : Only page_a 1 (pa_to_pte page_b 1)
sole_a = (
  kept page_a 1 page_a-IsPage refl (omega arith) ∙ entries.0,
  λ i ne low. kept page_a i page_a-IsPage refl low ∙ other_word (slot page_a i) (omega (arith, ne)),
)

pub sole_b : Only page_b 0 (pa_to_pte page_c 1)
sole_b = (
  kept page_b 0 page_b-IsPage refl (omega arith) ∙ entries.1,
  λ i ne low. kept page_b i page_b-IsPage refl low ∙ other_word (slot page_b i) (omega (arith, ne)),
)

pub sole_c : Only page_c 255 (pa_to_pte page_d 0x17)
sole_c = (
  kept page_c 255 page_c-IsPage refl (omega arith) ∙ entries.2,
  λ i ne low. kept page_c i page_c-IsPage refl low ∙ other_word (slot page_c i) (omega (arith, ne)),
)

empty_e : (i : ℕ) → i < 512 → read64 parent.mem (slot page_e i) ≡ 0
empty_e i low = kept page_e i (omega arith) refl low ∙ other_word (slot page_e i) (omega arith)

-- So no other entry is valid.
valid_sole :
    (t k e : ℕ)
    → Only t k e
    → (i : ℕ) → i < 512
    → is_valid (read64 parent.mem (slot t i)) ≡ true
    → i ≡ k
valid_sole t k e (here, rest) i low valid = elim (Bool-cases (i == k)) [
  | inl same ↦ ground (arith, same)
  | inr other ↦
      let ne : i ≢ k = ground (arith, other) in
      let bad : is_valid 0 ≡ true = rw (rest i ne low) at valid in
      absurd (ground (arith, bad, zero_is_invalid))
]

page_c-Source : Source 1 parent.mem free_ones page_c
page_c-Source = (
  refl,
  λ i low valid.
      let here = valid_sole page_c 255 (pa_to_pte page_d 0x17) sole_c i low valid in
      rw (here, sole_c.0, targets.2) refl,
)

page_b-Source : Source 2 parent.mem free_ones page_b
page_b-Source = (
  refl,
  λ i low valid.
      let here = valid_sole page_b 0 (pa_to_pte page_c 1) sole_b i low valid in
      rw (here, sole_b.0, targets.1) page_c-Source,
)

total_none :
    (w : ℕ → ℕ) (left i : ℕ) → ((j : ℕ) → i ≤ j → j < i + left → w j ≡ 0) → total w left i ≡ 0
unfolding total
total_none w zero i h = refl
total_none w (suc left) i h = omega (
  arith,
  h i (omega arith) (omega arith),
  total_none w left (i + 1) (λ j lo hi. h j (omega arith) (omega arith)),
)

total_only :
    (w : ℕ → ℕ) (k left i : ℕ)
    → i ≤ k
    → k < i + left
    → ((j : ℕ) → j ≢ k → j < i + left → w j ≡ 0)
    → total w left i ≡ w k
unfolding total
total_only w k zero i lo hi h = absurd (omega arith)
total_only w k (suc left) i lo hi h = elim (Bool-cases (i == k)) [
  | inl here ↦
      let e : i ≡ k = ground (arith, here) in
      let rest = total_none w left (i + 1) (λ j lo' hi'. h j (omega (arith, e)) (omega arith)) in
      let same : w i ≡ w k = ap w e in omega (arith, rest, same)
  | inr other ↦
      let ne : i ≢ k = ground (arith, other) in
      omega (
        arith,
        h i ne (omega arith),
        total_only w k left (i + 1) (omega (arith, ne)) (omega arith)
            (λ j ne' hi'. h j ne' (omega arith)),
      )
]

-- The cost of a table with one entry.
cost_sole :
    (n t k e : ℕ)
    → k < 512
    → Only t k e
    → is_valid e ≡ true
    → cost (suc n) parent.mem t ≡ 1 + cost n parent.mem (pte_to_pa e)
unfolding cost entry_cost
cost_sole n t k e low (here, rest) valid =
    ap (λ c. 1 + c)
      (total_only (entry_cost (cost n parent.mem) parent.mem t) k 512 0 (omega arith) (omega arith)
          (λ j ne top. rw (rest j ne (omega arith), zero_is_invalid) refl)
        ∙ rw (here, valid) refl)

pub valid_entries :
    (is_valid (pa_to_pte page_b 1) ≡ true)
    × (is_valid (pa_to_pte page_c 1) ≡ true)
    × (is_valid (pa_to_pte page_d 0x17) ≡ true)
unfolding is_valid pa_to_pte
valid_entries = (refl, refl, refl)

cost_b : cost 2 parent.mem page_b ≡ 3
cost_b =
    let one : cost 0 parent.mem (pte_to_pa (pa_to_pte page_d 0x17)) ≡ 1 = unfold cost in refl in
    let below =
      cost_sole 0 page_c 255 (pa_to_pte page_d 0x17) (omega arith) sole_c valid_entries.2 in
    cost_sole 1 page_b 0 (pa_to_pte page_c 1) (omega arith) sole_b valid_entries.1
    ∙ rw targets.1 (omega (arith, one, below))

-- Entry 1 is the space's own, and the others are those of the kernel.
pub own_one : is_shared parent.mem page_e page_a 1 ≡ false
own_one = rw (sole_a.0, empty_e 1 (omega arith)) (unfold pa_to_pte in refl)

shared_rest : (i : ℕ) → i ≢ 1 → i < 512 → is_shared parent.mem page_e page_a i ≡ true
shared_rest i ne low = rw (sole_a.1 i ne low, empty_e i low) refl

root_total : total (root_cost parent.mem page_e page_a) 512 0 ≡ 3
root_total =
    total_only (root_cost parent.mem page_e page_a) 1 512 0 (omega arith) (omega arith)
      (λ j ne top. rw (shared_rest j ne (omega arith)) refl)
    ∙ rw own_one (
        entry_cost_valid (cost 2 parent.mem) parent.mem page_a 1 (rw sole_a.0 valid_entries.0)
        ∙ rw (sole_a.0, targets.0) cost_b)

pub parent_root : parent.root_page_table ≡ page_e
unfolding frees link
parent_root = refl

pub parent-Copiable : Copiable layout parent page_a free_ones
parent-Copiable = record {
  frees = parent_frees;
  bytes = parent-IsBytes;
  aligned = refl;
  out = refl;
  root_aligned = rw parent_root refl;
  root_out = rw parent_root refl;
  sources = λ i low own valid.
      let here = valid_sole page_a 1 (pa_to_pte page_b 1) sole_a i low valid in
      rw (here, sole_a.0, targets.0) page_b-Source;
  enough = rw parent_root (omega (arith, root_total));
}
