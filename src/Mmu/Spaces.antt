-- ===== src/Mmu/Spaces.antt =====
-- Releasing and copying the address space of a process: `free_user_page_table` and
-- `copy_user_page_table`.
use riscvkernel_hit.Base.{ℕ, zero, suc, ◌+◌, bit_and, Bool, ◌==◌, leb, if◌then◌else◌}
use riscvkernel_hit.Memory.Defs.{copy_bytes}
use riscvkernel_hit.Kernel.Defs.{Kernel, Layout, Cmd, pure, gets, modify, ◌>>=◌, ◌>>◌}
use riscvkernel_hit.Page.Defs.{page_size, alloc_page, free_page}
use riscvkernel_hit.Mmu.Pte.{pte_to_pa, pa_to_pte, is_valid}
use riscvkernel_hit.Mmu.Defs.{load64, store64, slot}

-- `for (int i = from; left > 0; i++, left--) body(i);`
unfoldable pub for_each : ℕ → ℕ → (ℕ → Cmd (Unit {0})) → Cmd (Unit {0})
for_each zero i body = pure tt
for_each (suc left) i body = body i >>= λ _. for_each left (i + 1) body

abbrev pub when : Bool → Cmd (Unit {0}) → Cmd (Unit {0})
when b c = if b then c else pure tt

abbrev pub entries : ℕ
entries = 512

-- The innermost body of `free_user_page_table`: the page behind a leaf, unless it is the kernel's.
unfoldable pub free_leaf : Layout → ℕ → ℕ → Cmd (Unit {0})
free_leaf l pte_table k = do
  pte ← load64 (slot pte_table k)
  when (is_valid pte)
      (let leaf_pa = pte_to_pa pte in when (leb l.kernel_end leaf_pa) (free_page leaf_pa))

-- One entry of a second-level table: the leaves of its table, then the table.
unfoldable pub free_pte_table : Layout → ℕ → ℕ → Cmd (Unit {0})
free_pte_table l pmd j = do
  pte ← load64 (slot pmd j)
  when (is_valid pte)
      (for_each entries 0 (free_leaf l (pte_to_pa pte)) >> free_page (pte_to_pa pte))

-- One entry of the root table: nothing if it is the kernel's own.
unfoldable pub free_pmd : Layout → ℕ → ℕ → Cmd (Unit {0})
free_pmd l pgd i = do
  root_pgd ← gets (λ s. s.root_page_table)
  pte ← load64 (slot pgd i)
  root_pte ← load64 (slot root_pgd i)
  if pte == root_pte
      then pure tt
      else when (is_valid pte)
          (for_each entries 0 (free_pte_table l (pte_to_pa pte)) >> free_page (pte_to_pa pte))

unfoldable pub free_user_page_table : Layout → ℕ → Cmd (Unit {0})
free_user_page_table l pgd = for_each entries 0 (free_pmd l pgd) >> free_page pgd

abbrev copy_page : ℕ → ℕ → Kernel → Kernel
copy_page dst src s = record s { mem = copy_bytes page_size 0 dst src s.mem }

-- The innermost body of `copy_user_page_table`: a fresh page with the same bytes and permissions.
unfoldable pub copy_leaf : ℕ → ℕ → ℕ → Cmd (Unit {0})
copy_leaf dst_pte_table src_pte_table k = do
  pte ← load64 (slot src_pte_table k)
  when (is_valid pte) (do
    dst_data_pa ← alloc_page
    modify (copy_page dst_data_pa (pte_to_pa pte))
    store64 (slot dst_pte_table k) (pa_to_pte dst_data_pa (bit_and pte 0x3FF)))

unfoldable pub copy_pte_table : ℕ → ℕ → ℕ → Cmd (Unit {0})
copy_pte_table dst_pmd src_pmd j = do
  pte ← load64 (slot src_pmd j)
  when (is_valid pte) (do
    dst_pte_table ← alloc_page
    store64 (slot dst_pmd j) (pa_to_pte dst_pte_table (bit_and pte 0x3FF))
    for_each entries 0 (copy_leaf dst_pte_table (pte_to_pa pte)))

unfoldable pub copy_pmd : ℕ → ℕ → ℕ → ℕ → Cmd (Unit {0})
copy_pmd root_pgd dst_pgd src_pgd i = do
  pte ← load64 (slot src_pgd i)
  root_pte ← load64 (slot root_pgd i)
  if pte == root_pte
      then store64 (slot dst_pgd i) pte
      else when (is_valid pte) (do
        dst_pmd ← alloc_page
        store64 (slot dst_pgd i) (pa_to_pte dst_pmd (bit_and pte 0x3FF))
        for_each entries 0 (copy_pte_table dst_pmd (pte_to_pa pte)))

unfoldable pub copy_user_page_table : ℕ → Cmd ℕ
copy_user_page_table src_pgd = do
  dst_pgd ← alloc_page
  root_pgd ← gets (λ s. s.root_page_table)
  for_each entries 0 (copy_pmd root_pgd dst_pgd src_pgd)
  pure dst_pgd
