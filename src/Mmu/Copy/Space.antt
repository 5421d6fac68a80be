-- ===== src/Mmu/Copy/Space.antt =====
-- What a program finds in the copy of its parent's address space.
use riscvkernel_hit.Base.{
  ℕ, ◌+◌, ◌%◌, ◌≤◌, ◌<◌, ◌≡◌, List, true, false, has, length, bit_and, Option, none, some,
}
use riscvkernel_hit.Memory.Defs.{Mem, read64}
use riscvkernel_hit.Memory.Laws.{IsBytes}
use riscvkernel_hit.Kernel.Defs.{Kernel, Layout, ok}
use riscvkernel_hit.Page.Defs.{page_size}
use riscvkernel_hit.Page.FreeList.{FreeList}
use riscvkernel_hit.Mmu.Pte.{get_vpn, pte_to_pa, is_valid}
use riscvkernel_hit.Mmu.Defs.{slot}
use riscvkernel_hit.Mmu.Lookup.{lookup, Reaches}
use riscvkernel_hit.Mmu.Access.{Access, user_byte}
use riscvkernel_hit.Mmu.Spaces.{copy_user_page_table}
use riscvkernel_hit.Mmu.Copy.Twin.{Off, Taken, OnPage, Source, Twin, total}
use riscvkernel_hit.Mmu.Copy.Root.{is_shared, root_cost}

-- A translation and its copy: the permissions are the same, the page is one of the pages `P`, and
-- it holds the same bytes.
abbrev pub Alike : Mem → Mem → (ℕ → Type 0) → Option ℕ → Option ℕ → Type 0
Alike m₀ m P none none = Unit
Alike m₀ m P none (some b) = ⊥
Alike m₀ m P (some a) none = ⊥
Alike m₀ m P (some a) (some b) =
    (bit_and b 0x3FF ≡ bit_and a 0x3FF)
    × P (pte_to_pa b)
    × ((o : ℕ) → o < page_size → m (pte_to_pa b + o) ≡ m₀ (pte_to_pa a + o))

-- What has to hold of an address space so that it can be copied: the free list holds neither its
-- root table nor the kernel's, nor any page of the part that the two do not share; and it is long
-- enough.
pub record Copiable (l : Layout) (s : Kernel) (src : ℕ) (xs : List ℕ) : Type 0 where
  pub frees : FreeList l s.mem s.free_list xs
  pub bytes : IsBytes s.mem
  pub aligned : src % page_size ≡ 0
  pub out : has src xs ≡ false
  pub root_aligned : s.root_page_table % page_size ≡ 0
  pub root_out : has s.root_page_table xs ≡ false
  pub sources :
      (i : ℕ)
      → i < 512
      → is_shared s.mem s.root_page_table src i ≡ false
      → is_valid (read64 s.mem (slot src i)) ≡ true
      → Source 2 s.mem xs (pte_to_pa (read64 s.mem (slot src i)))
  pub enough : 1 + total (root_cost s.mem s.root_page_table src) 512 0 ≤ length xs

-- The pages that were taken are the same in both memories.
abbrev pub Keeps : List ℕ → List ℕ → Mem → Mem → Type 0
Keeps xs xs' m m' = (x : ℕ) → Taken xs xs' x → OnPage m m' x

-- What a copy returns and leaves: `dst` is the new root table, `xs'` the free pages.
pub record Cloned (l : Layout) (s : Kernel) (src : ℕ) (xs : List ℕ) : Type 0 where
  pub dst : ℕ
  pub mem' : Mem
  pub head' : ℕ
  pub xs' : List ℕ
  pub returns : copy_user_page_table src s ≡ ok dst (record s { mem = mem'; free_list = head' })
  pub frees : FreeList l mem' head' xs'
  pub few : length xs ≤ length xs' + (1 + total (root_cost s.mem s.root_page_table src) 512 0)
  pub fresh : Taken xs xs' dst
  pub same : (b : ℕ) → Off xs b → mem' b ≡ s.mem b
  pub bytes : IsBytes mem'
  pub shared :
      (m : Mem) (i : ℕ)
      → Keeps xs xs' mem' m
      → i < 512
      → is_shared s.mem s.root_page_table src i ≡ true
      → read64 m (slot dst i) ≡ read64 s.mem (slot src i)
  pub own :
      (m : Mem) (va : ℕ)
      → Keeps xs xs' mem' m
      → is_shared s.mem s.root_page_table src (get_vpn va 2) ≡ false
      → Alike s.mem m (Taken xs xs') (lookup s.mem src va) (lookup m dst va)
        × ((k : Access) → user_byte k m dst va ≡ user_byte k s.mem src va)
  pub tables :
      (m : Mem) (va pte : ℕ)
      → Keeps xs xs' mem' m
      → is_shared s.mem s.root_page_table src (get_vpn va 2) ≡ false
      → lookup s.mem src va ≡ some pte
      → (t : ℕ) × Taken xs xs' t × Reaches m 2 dst va t
