-- ===== src/Mmu/Maps.antt =====
-- The three maps of `mmu_init`: the CLINT, the UART and the RAM, in a root table that was empty.
use riscvkernel_hit.Base.{
  ℕ, suc, ◌+◌, ◌*◌, ◌/◌, ◌≤◌, ◌≡◌, inl, inr, refl, ◌∙◌, List, ◌∷◌, none, arith, length, bit_or,
}
use riscvkernel_hit.Memory.Defs.{Mem}
use riscvkernel_hit.Kernel.Defs.{Kernel, Layout}
use riscvkernel_hit.Page.Defs.{page_size, ram_start, ram_end}
use riscvkernel_hit.Mmu.Pte.{pte_v, pte_r, pte_w, pte_x}
use riscvkernel_hit.Mmu.Defs.{map_identity, clint_base, clint_end, uart_base}
use riscvkernel_hit.Mmu.Lookup.{lookup, missing-le}
use riscvkernel_hit.Mmu.Tree.{Role, table, Spaces}
use riscvkernel_hit.Mmu.Map.{Mapped, map_page-Mapped}
use riscvkernel_hit.Mmu.Frame.{got_data}
use riscvkernel_hit.Mmu.Root.{role_root, root-Spaces, root-Grows, root-empty}
use riscvkernel_hit.Mmu.Grows.{page_no, Grows, Grows-then, Mapped-Grows}
use riscvkernel_hit.Mmu.Access.{lookup-page}
use riscvkernel_hit.Mmu.Identity.{Outside, IsIdentity, Identity, map_identity-Identity}

abbrev pub device_flags : ℕ
device_flags = bit_or (bit_or pte_r pte_w) pte_v

abbrev pub ram_flags : ℕ
ram_flags = bit_or (bit_or (bit_or pte_r pte_w) pte_x) pte_v

-- The pages that `mmu_init` may need: the root, two tables for each of its three maps, and two for
-- each further 2 MB of the RAM.
abbrev pub init_pages : ℕ
init_pages = 135

-- The page lies neither in the CLINT, nor the UART, nor the RAM.
abbrev pub IsUnmapped : ℕ → Type 0
IsUnmapped n =
    Outside clint_base clint_end n
    × Outside uart_base (uart_base + page_size) n
    × Outside ram_start ram_end n

-- From the new root table `x` on: the three maps, one after the other.
module _ (l : Layout) (s : Kernel) (role : ℕ → Role) (x : ℕ) (xs : List ℕ)
    (sp : Spaces l s.mem s.free_list role (x ∷ xs)) (many : init_pages ≤ suc (length xs)) where
  abbrev s₁ : Kernel
  s₁ = record s {
    mem = (got_data l s role x xs sp).mem';
    free_list = (got_data l s role x xs sp).head';
    root_page_table = x;
  }

  pub clint_map :
      Identity l s₁
        (role_root l s role x xs sp)
        xs
        x
        clint_base
        clint_end
        device_flags
        (map_identity 17 x clint_base clint_end device_flags s₁)
  clint_map =
      map_identity-Identity l x device_flags clint_end (omega arith) refl (omega arith) 16 17 s₁
        (role_root l s role x xs sp) xs clint_base (omega arith) refl refl
        (root-Spaces l s role x xs sp) (ground arith)
        (omega (arith, many, missing-le s₁.mem 2 x clint_base))

  abbrev s₂ : Kernel
  s₂ = record s₁ { mem = clint_map.builds.mem'; free_list = clint_map.builds.head' }

  root₂ : clint_map.builds.role' x ≡ table x 2 0
  root₂ = clint_map.builds.grows.roles x x 2 0 (ground arith)

  left₂ : length xs ≤ length clint_map.builds.xs' + 2
  left₂ = omega (arith, clint_map.builds.few, missing-le s₁.mem 2 x clint_base)

  pub uart_map :
      Mapped l s₂ clint_map.builds.role' clint_map.builds.xs' x uart_base uart_base device_flags
  uart_map =
      map_page-Mapped {l = l} s₂ clint_map.builds.role' clint_map.builds.xs' x uart_base uart_base
        device_flags clint_map.builds.spaces root₂
        (omega (arith, many, left₂, missing-le s₂.mem 2 x uart_base)) refl (omega arith)
        (omega arith) refl

  abbrev pub s₃ : Kernel
  s₃ = record s₂ { mem = uart_map.mem'; free_list = uart_map.head' }

  pub left₃ : length xs ≤ length uart_map.xs' + 4
  left₃ = omega (arith, uart_map.few, left₂, missing-le s₂.mem 2 x uart_base)

  pub ram_map :
      Identity l s₃ uart_map.role' uart_map.xs' x ram_start ram_end ram_flags
        (map_identity 32769 x ram_start ram_end ram_flags s₃)
  ram_map =
      map_identity-Identity l x ram_flags ram_end (omega arith) refl (omega arith) 32768 32769 s₃
        uart_map.role' uart_map.xs' ram_start (omega arith) refl refl uart_map.spaces
        (uart_map.roles x x 2 0 root₂) (omega (arith, many, left₃, missing-le s₃.mem 2 x ram_start))

  pub root₃ : uart_map.role' x ≡ table x 2 0
  root₃ = uart_map.roles x x 2 0 root₂

  abbrev pub m' : Mem
  m' = ram_map.builds.mem'

  pub uart_lookup : IsIdentity m' x uart_base (uart_base + page_size) device_flags
  uart_lookup va lo hi =
      let start : va / page_size * page_size ≡ uart_base = omega (arith, lo, hi) in
      ram_map.builds.grows.lookups x va root₃ (inr (inl (omega (arith, lo, hi))))
      ∙ lookup-page uart_map.mem' x va
      ∙ (rw start uart_map.here)

  pub clint_lookup : IsIdentity m' x clint_base clint_end device_flags
  clint_lookup va lo hi =
      ram_map.builds.grows.lookups x va root₃ (inr (inl (omega (arith, lo, hi))))
      ∙ uart_map.elsewhere x va root₂ (inr (omega (arith, lo, hi)))
      ∙ clint_map.mapped va lo hi

  pub no_lookup : (va : ℕ) → IsUnmapped (page_no va) → lookup m' x va ≡ none
  no_lookup va (clint, uart, ram) =
      ram_map.builds.grows.lookups x va root₃ (inr ram)
      ∙ uart_map.elsewhere x va root₂ (inr (ground (arith, uart)))
      ∙ clint_map.builds.grows.lookups x va (ground arith) (inr clint)
      ∙ root-empty l s role x xs sp va

  pub all-Grows : Grows s.mem role m' ram_map.builds.role' x (λ _. ⊥)
  all-Grows =
      Grows-then (λ _. ⊥) (root-Grows l s role x xs sp)
        (Grows-then (λ _. ⊥) clint_map.builds.grows
          (Grows-then (λ _. ⊥) (Mapped-Grows uart_map) ram_map.builds.grows (λ n h. absurd h))
          (λ n h. absurd h))
        (λ n h. absurd h)
