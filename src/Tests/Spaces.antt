-- ===== src/Tests/Spaces.antt =====
-- An address space of one page of data, which is given back: by itself, and by the end of its task.
use riscvkernel_hit.Base.{
  ℕ, zero, suc, ◌+◌, ◌%◌, ◌≢◌, ◌≤◌, ◌<◌, ◌≡◌, refl, All, Distinct, ◌∙◌, ap, List, [], ◌∷◌, ◌==◌,
  arith, if◌then◌else◌,
}
use riscvkernel_hit.Memory.Defs.{Mem, read64, write64}
use riscvkernel_hit.Memory.Laws.{read64-write64_apart}
use riscvkernel_hit.Kernel.Defs.{Kernel, Layout}
use riscvkernel_hit.Page.FreeList.{IsPage, FreeList}
use riscvkernel_hit.Mmu.Pte.{pte_to_pa, pa_to_pte, is_valid, mmu_make_satp, mmu_satp_to_pgd}
use riscvkernel_hit.Mmu.Defs.{slot}
use riscvkernel_hit.Mmu.Owned.{leaf_pages, table_pages, space_pages, owned}
use riscvkernel_hit.Mmu.Reclaim.{Owns, Released, free_user_page_table-Released}
use riscvkernel_hit.Task.Process.{task_page_table, task_exit}
use riscvkernel_hit.Task.Exit.{Exited, task_exit-Exited}
use riscvkernel_hit.Tests.States.{
  layout, context, kernel, zeroes, page_a, page_b, page_c, page_a-IsPage, page_b-IsPage,
  page_c-IsPage,
}

-- Entries from `k` on that are empty lead nowhere.
leaf_pages_none :
    (l : Layout) (m : Mem) (t left k : ℕ)
    → ((i : ℕ) → k ≤ i → i < k + left → read64 m (slot t i) ≡ 0)
    → leaf_pages l m t left k ≡ []
unfolding leaf_pages is_valid
leaf_pages_none l m t zero k h = refl
leaf_pages_none l m t (suc left) k h =
    rw (h k (omega arith) (omega arith))
      (leaf_pages_none l m t left (k + 1) (λ i lo hi. h i (omega arith) (omega arith)))

table_pages_none :
    (l : Layout) (m : Mem) (t left k : ℕ)
    → ((i : ℕ) → k ≤ i → i < k + left → read64 m (slot t i) ≡ 0)
    → table_pages l m t left k ≡ []
unfolding table_pages is_valid
table_pages_none l m t zero k h = refl
table_pages_none l m t (suc left) k h =
    rw (h k (omega arith) (omega arith))
      (table_pages_none l m t left (k + 1) (λ i lo hi. h i (omega arith) (omega arith)))

pub space_pages_none :
    (l : Layout) (m : Mem) (root t left k : ℕ)
    → ((i : ℕ) → k ≤ i → i < k + left → read64 m (slot t i) ≡ 0)
    → ((i : ℕ) → read64 m (slot root i) ≡ 0)
    → space_pages l m root t left k ≡ []
unfolding space_pages
space_pages_none l m root t zero k h e = refl
space_pages_none l m root t (suc left) k h e =
    rw (h k (omega arith) (omega arith), e k)
      (space_pages_none l m root t left (k + 1) (λ i lo hi. h i (omega arith) (omega arith)) e)

abbrev pub page_d : ℕ
page_d = 0x8010_3000

abbrev pub page_e : ℕ
page_e = 0x8010_4000

-- The first entry of `page_a` leads to `page_b`, that of `page_b` to `page_c`, and that of `page_c`
-- to the data in `page_d`. The kernel's root table `page_e` is empty.
abbrev pub m_a : Mem
m_a = write64 zeroes (slot page_a 0) (pa_to_pte page_b 1)

abbrev pub m_b : Mem
m_b = write64 m_a (slot page_b 0) (pa_to_pte page_c 1)

abbrev pub chained : Mem
chained = write64 m_b (slot page_c 0) (pa_to_pte page_d 0x17)

pub entry_a :
    (read64 chained (slot page_a 0) ≡ pa_to_pte page_b 1)
    × (pte_to_pa (pa_to_pte page_b 1) ≡ page_b)
unfolding pa_to_pte pte_to_pa read64 write64
entry_a = (refl, refl)

pub entry_b :
    (read64 chained (slot page_b 0) ≡ pa_to_pte page_c 1)
    × (pte_to_pa (pa_to_pte page_c 1) ≡ page_c)
unfolding pa_to_pte pte_to_pa read64 write64
entry_b = (refl, refl)

pub entry_c :
    (read64 chained (slot page_c 0) ≡ pa_to_pte page_d 0x17)
    × (pte_to_pa (pa_to_pte page_d 0x17) ≡ page_d)
unfolding pa_to_pte pte_to_pa read64 write64
entry_c = (refl, refl)

-- All other entries are empty.
pub other_entry :
    (a : ℕ)
    → (a % 8 ≡ 0) × (a ≢ slot page_a 0) × (a ≢ slot page_b 0) × (a ≢ slot page_c 0)
    → read64 chained a ≡ 0
unfolding read64
other_entry a (al, n₁, n₂, n₃) =
    read64-write64_apart m_b (slot page_c 0) (pa_to_pte page_d 0x17) a (ground (arith, al, n₃))
    ∙ read64-write64_apart m_a (slot page_b 0) (pa_to_pte page_c 1) a (ground (arith, al, n₂))
    ∙ read64-write64_apart zeroes (slot page_a 0) (pa_to_pte page_b 1) a (ground (arith, al, n₁))

leaf_pages_c : (left : ℕ) → left ≤ 511 → leaf_pages layout chained page_c (suc left) 0 ≡ page_d ∷ []
unfolding leaf_pages is_valid pa_to_pte
leaf_pages_c left top =
    rw (entry_c.0, entry_c.1)
      (ap (λ ps. page_d ∷ ps)
        (leaf_pages_none layout chained page_c left 1
          (λ i lo hi. other_entry (slot page_c i) (omega arith))))

-- Tables of 512 entries, of which only the first is used.
table_pages_b :
    (left : ℕ) → left ≤ 511 → table_pages layout chained page_b (suc left) 0 ≡ page_d ∷ page_c ∷ []
unfolding table_pages is_valid pa_to_pte
table_pages_b left top =
    rw (entry_b.0, entry_b.1)
      (rw (
        leaf_pages_c 511 (omega arith),
        table_pages_none layout chained page_b left 1
            (λ i lo hi. other_entry (slot page_b i) (omega arith)),
      ))

space_pages_a :
    (left : ℕ)
    → left ≤ 511
    → space_pages layout chained page_e page_a (suc left) 0 ≡ page_d ∷ page_c ∷ page_b ∷ []
unfolding space_pages is_valid pa_to_pte
space_pages_a left top =
    rw (entry_a.0, other_entry (slot page_e 0) (omega arith), entry_a.1)
      (rw (
        table_pages_b 511 (omega arith),
        space_pages_none layout chained page_e page_a left 1
            (λ i lo hi. other_entry (slot page_a i) (omega arith))
            (λ i. other_entry (slot page_e i) (omega arith)),
      ))

-- Task 0 runs in that space, and no page is free.
abbrev pub ending : Kernel
ending = record (kernel chained 0) {
  root_page_table = page_e;
  tasks = λ n. if n == 0 then context (mmu_make_satp page_a) else context n;
}

owned_a : owned layout chained page_e page_a ≡ page_d ∷ page_c ∷ page_b ∷ page_a ∷ []
owned_a = rw (space_pages_a 511 (omega arith)) refl

abbrev four : List ℕ
four = page_d ∷ page_c ∷ page_b ∷ page_a ∷ []

four_pages : All (IsPage layout) four
four_pages = (omega arith, (page_c-IsPage, (page_b-IsPage, (page_a-IsPage, tt))))

four-Distinct : Distinct four
four-Distinct = (refl, (refl, (refl, (refl, tt))))

pub none_free : FreeList layout chained 0 []
none_free = record { chain = refl; distinct = tt; pages = tt }

ending-Owns : Owns layout ending page_a []
ending-Owns = record {
  frees = none_free;
  root = omega arith;
  pages = rw owned_a four_pages;
  distinct = rw owned_a four-Distinct;
  rootless = rw owned_a refl;
  in_use = λ x h. refl;
}

free_user_page_table-Released_example :
    Released layout ending page_a (owned layout chained page_e page_a) []
free_user_page_table-Released_example =
    free_user_page_table-Released layout ending page_a [] ending-Owns

ending_space : task_page_table 0 ending ≡ page_a
unfolding task_page_table mmu_satp_to_pgd mmu_make_satp
ending_space = refl

task_exit-Exited_example :
    Exited layout ending
      (task_exit layout 7 ending)
      (owned layout chained page_e (task_page_table 0 ending))
      []
task_exit-Exited_example =
    task_exit-Exited layout ending 7 [] (omega arith) (rw ending_space ending-Owns)
      (λ j ne. ground (arith, ne))
