-- ===== src/Exec/Space.antt =====
-- The address space that `task_exec` builds for an image that passed the checks.
use riscvkernel_hit.Base.{
  ℕ, ◌+◌, ◌*◌, ◌^◌, ◌≤◌, ◌<◌, ◌≡◌, ◌≢◌, List, ◌∷◌, Option, none, some, true, false, if◌then◌else◌,
  length, All,
}
use riscvkernel_hit.Memory.Defs.{Mem}
use riscvkernel_hit.Kernel.Defs.{Kernel, Layout, ok}
use riscvkernel_hit.Mmu.Tree.{Role, table, Spaces}
use riscvkernel_hit.Mmu.Frame.{got_data, role_data}
use riscvkernel_hit.Mmu.Grows.{page_no, Grows}
use riscvkernel_hit.Mmu.Root.{role_root, root-Spaces}
use riscvkernel_hit.Mmu.Access.{Access, permits, user_byte}
use riscvkernel_hit.Task.Process.{user_stack_page_va, user_stack_top}
use riscvkernel_hit.Exec.Elf.{Image, Phdr}
use riscvkernel_hit.Exec.Validate.{is_load, phdrs}
use riscvkernel_hit.Exec.Load.{build_space}
use riscvkernel_hit.Exec.Fill.{segment_byte}
use riscvkernel_hit.Exec.Pages.{segment_permits}
use riscvkernel_hit.Exec.Segments.{needed, Clear}

-- All loadable segments end in the 2 ^ 39 bytes that Sv39 tells apart.
abbrev pub AllBelow : List Phdr → Type 0
AllBelow ps = All (λ p. is_load p ≡ true → p.p_vaddr + p.p_memsz ≤ 2 ^ 39) ps

-- What an access finds in a segment: its byte, if the program header grants the access.
abbrev pub segment_access : Access → Image → Phdr → ℕ → Option ℕ
segment_access k app p a = if segment_permits k p then some (segment_byte app p a) else none

-- What it finds on the stack when the program starts: a page of zeroes to read and to write.
abbrev pub stack_access : Access → Option ℕ
stack_access k = if permits k true true false then some 0 else none

-- What `build_space` returns and leaves.
pub record SpaceBuilt (l : Layout) (app : Image) (s : Kernel) (role : ℕ → Role) (xs : List ℕ)
    : Type 0 where
  pub pgd : ℕ
  pub mem' : Mem
  pub head' : ℕ
  pub role' : ℕ → Role
  pub xs' : List ℕ
  pub returns : build_space app s ≡ ok pgd (record s { mem = mem'; free_list = head' })
  pub spaces : Spaces l mem' head' role' xs'
  pub root : role' pgd ≡ table pgd 2 0
  pub few : length xs ≤ length xs' + (4 + 3 * needed (phdrs app))
  pub image :
      All
        (λ p.
          is_load p ≡ true
          → (k : Access) (a : ℕ) → p.p_vaddr ≤ a
          → a < p.p_vaddr + p.p_memsz
          → user_byte k mem' pgd a ≡ segment_access k app p a)
        (phdrs app)
  pub stack :
      (k : Access) (a : ℕ)
      → user_stack_page_va ≤ a
      → a < user_stack_top
      → user_byte k mem' pgd a ≡ stack_access k
  pub unmapped :
      (k : Access) (a : ℕ)
      → Clear l app pgd (phdrs app) (page_no a)
      → page_no a ≢ page_no user_stack_page_va
      → user_byte k mem' pgd a ≡ none
  pub old : Grows s.mem role mem' role' pgd (λ _. ⊥)

module _ (l : Layout) (app : Image) (s : Kernel) (role : ℕ → Role) (x y : ℕ) (xs : List ℕ)
    (sp : Spaces l s.mem s.free_list role (x ∷ y ∷ xs)) where
  -- The kernel with the root table, and with the stack's page.
  abbrev s₁ : Kernel
  s₁ = record s {
    mem = (got_data l s role x (y ∷ xs) sp).mem';
    free_list = (got_data l s role x (y ∷ xs) sp).head';
  }

  abbrev role₁ : ℕ → Role
  role₁ = role_root l s role x (y ∷ xs) sp

  abbrev sp₁ : Spaces l s₁.mem s₁.free_list role₁ (y ∷ xs)
  sp₁ = root-Spaces l s role x (y ∷ xs) sp

  abbrev s₂ : Kernel
  s₂ = record s {
    mem = (got_data l s₁ role₁ y xs sp₁).mem';
    free_list = (got_data l s₁ role₁ y xs sp₁).head';
  }

  abbrev role₂ : ℕ → Role
  role₂ = role_data l s₁ role₁ y xs sp₁
