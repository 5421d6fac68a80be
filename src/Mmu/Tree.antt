-- ===== src/Mmu/Tree.antt =====
-- Page tables as trees: every page has one role, so tables share no entry with one another nor
-- with the free list.
use riscvkernel_hit.Base.{ℕ, suc, ◌+◌, ◌*◌, ◌<◌, ◌≡◌, List, true, has}
use riscvkernel_hit.Memory.Defs.{Mem, read64}
use riscvkernel_hit.Kernel.Defs.{Layout}
use riscvkernel_hit.Page.FreeList.{IsPage, FreeList}
use riscvkernel_hit.Mmu.Pte.{pte_to_pa, is_valid}
use riscvkernel_hit.Mmu.Defs.{slot}

-- What a page is used for: free, the table number `n` of a level below the root table `root`, or
-- anything else.
pub data Role : Type 0 where
  free : Role
  table : (root level n : ℕ) → Role
  other : Role

-- The free pages are the list, and a valid entry of a table above the last level leads to the
-- table that belongs there.
pub record Spaces (l : Layout) (m : Mem) (head : ℕ) (role : ℕ → Role) (xs : List ℕ) : Type 0 where
  pub frees : FreeList l m head xs
  pub spare : (x : ℕ) → has x xs ≡ true → role x ≡ free
  pub pages : (t r k n : ℕ) → role t ≡ table r k n → IsPage l t
  pub child :
      (t r k n i : ℕ)
      → role t ≡ table r (suc k) n
      → i < 512
      → is_valid (read64 m (slot t i)) ≡ true
      → role (pte_to_pa (read64 m (slot t i))) ≡ table r k (n * 512 + i)
