-- ===== src/Task/Maps.antt =====
-- The maps of `init_user_address_space`, one after the other.
use riscvkernel_hit.Base.{ℕ, ◌+◌, ◌-◌, ◌*◌, ◌/◌, ◌%◌, ◌≤◌, ◌≡◌, refl, List, arith, length, bit_or}
use riscvkernel_hit.Kernel.Defs.{Kernel, Layout}
use riscvkernel_hit.Page.Defs.{page_size, ram_start, ram_end}
use riscvkernel_hit.Page.FreeList.{IsPage}
use riscvkernel_hit.Mmu.Pte.{pte_v, pte_r, pte_w, pte_x, pte_u}
use riscvkernel_hit.Mmu.Lookup.{missing-le}
use riscvkernel_hit.Mmu.Tree.{Role, table, Spaces}
use riscvkernel_hit.Mmu.Map.{Mapped, map_page-Mapped}
use riscvkernel_hit.Mmu.Identity.{region, Identity}
use riscvkernel_hit.Task.Process.{user_rw_page_va, user_stack_page_va, user_ro_page_va, map_range}
use riscvkernel_hit.Task.Ranges.{page_down, page_up, map_range-Identity}
use riscvkernel_hit.Task.Fresh.{FreshMapped, map_page-FreshMapped}

-- What kernel/os.ld makes of the image: the code and the constants in whole pages, one behind the
-- other, in RAM.
pub record IsLinked (l : Layout) : Type 0 where
  pub text_aligned : l.text_start % page_size ≡ 0
  pub text_end_aligned : l.text_end % page_size ≡ 0
  pub rodata_aligned : l.rodata_start % page_size ≡ 0
  pub rodata_end_aligned : l.rodata_end % page_size ≡ 0
  pub in_ram : ram_start ≤ l.text_start
  pub text : l.text_start ≤ l.text_end
  pub between : l.text_end ≤ l.rodata_start
  pub rodata : l.rodata_start ≤ l.rodata_end
  pub before_end : l.rodata_end ≤ l.kernel_end
  pub end_in_ram : l.kernel_end ≤ ram_end

abbrev pub text_flags : ℕ
text_flags = bit_or (bit_or (bit_or pte_r pte_x) pte_u) pte_v

abbrev pub ro_flags : ℕ
ro_flags = bit_or (bit_or pte_r pte_u) pte_v

abbrev pub rw_flags : ℕ
rw_flags = bit_or (bit_or (bit_or pte_r pte_w) pte_u) pte_v

-- The pages that the space may need: two tables for each further 2 MB of code and of constants,
-- two for the first of each, two for each of the three pages of data, and two of these pages.
abbrev pub space_pages : Layout → ℕ
space_pages l =
    2 * (l.text_end / region - l.text_start / region)
    + 2 * (l.rodata_end / region - l.rodata_start / region)
    + 12

module _ (l : Layout) (lay : IsLinked l) (s : Kernel) (role : ℕ → Role) (xs : List ℕ) (x y : ℕ)
    (sp : Spaces l s.mem s.free_list role xs) (root : role x ≡ table x 2 0) (page : IsPage l y)
    (many : space_pages l ≤ length xs) where
  text_up : page_up l.text_end ≡ l.text_end
  text_up = omega (arith, lay.text_end_aligned)

  text_down : page_down l.text_start ≡ l.text_start
  text_down = omega (arith, lay.text_aligned)

  ro_up : page_up l.rodata_end ≡ l.rodata_end
  ro_up = omega (arith, lay.rodata_end_aligned)

  ro_down : page_down l.rodata_start ≡ l.rodata_start
  ro_down = omega (arith, lay.rodata_aligned)

  pub text_map :
      Identity l s role xs x l.text_start l.text_end text_flags
        (map_range x l.text_start l.text_end text_flags s)
  text_map =
      rw (text_down, text_up) at
        (map_range-Identity l s role xs x l.text_start l.text_end text_flags (omega arith) refl
          lay.text (omega (arith, lay)) sp root
          (rw (text_down, text_up) (omega (arith, many, missing-le s.mem 2 x l.text_start))))

  abbrev pub s₁ : Kernel
  s₁ = record s { mem = text_map.builds.mem'; free_list = text_map.builds.head' }

  pub left₁ :
      length xs ≤ length text_map.builds.xs' + 2 + 2 * (l.text_end / region - l.text_start / region)
  left₁ = omega (arith, text_map.builds.few, missing-le s.mem 2 x l.text_start)

  pub root₁ : text_map.builds.role' x ≡ table x 2 0
  root₁ = text_map.builds.grows.roles x x 2 0 root

  pub ro_map :
      Identity l s₁ text_map.builds.role' text_map.builds.xs' x l.rodata_start l.rodata_end ro_flags
        (map_range x l.rodata_start l.rodata_end ro_flags s₁)
  ro_map =
      rw (ro_down, ro_up) at
        (map_range-Identity l s₁ text_map.builds.role' text_map.builds.xs' x l.rodata_start
          l.rodata_end ro_flags (omega arith) refl lay.rodata (omega (arith, lay))
          text_map.builds.spaces root₁
          (rw (ro_down, ro_up) (omega (arith, many, left₁, missing-le s₁.mem 2 x l.rodata_start))))

  abbrev pub s₂ : Kernel
  s₂ = record s₁ { mem = ro_map.builds.mem'; free_list = ro_map.builds.head' }

  pub left₂ : 8 ≤ length ro_map.builds.xs'
  left₂ = omega (arith, many, left₁, ro_map.builds.few, missing-le s₁.mem 2 x l.rodata_start)

  pub root₂ : ro_map.builds.role' x ≡ table x 2 0
  root₂ = ro_map.builds.grows.roles x x 2 0 root₁

  pub stack_map : Mapped l s₂ ro_map.builds.role' ro_map.builds.xs' x user_stack_page_va y rw_flags
  stack_map =
      map_page-Mapped {l = l} s₂ ro_map.builds.role' ro_map.builds.xs' x user_stack_page_va y
        rw_flags ro_map.builds.spaces root₂
        (omega (arith, left₂, missing-le s₂.mem 2 x user_stack_page_va)) page.aligned
        (omega (arith, page.below)) (omega arith) refl

  abbrev pub s₃ : Kernel
  s₃ = record s₂ { mem = stack_map.mem'; free_list = stack_map.head' }

  pub root₃ : stack_map.role' x ≡ table x 2 0
  root₃ = stack_map.roles x x 2 0 root₂

  pub left₃ : 6 ≤ length stack_map.xs'
  left₃ = omega (arith, left₂, stack_map.few, missing-le s₂.mem 2 x user_stack_page_va)

  pub rw_map : FreshMapped l s₃ stack_map.role' stack_map.xs' x user_rw_page_va rw_flags
  rw_map =
      map_page-FreshMapped l s₃ stack_map.role' stack_map.xs' x user_rw_page_va rw_flags
        stack_map.spaces root₃ (omega (arith, left₃)) (omega arith) refl

  abbrev pub s₄ : Kernel
  s₄ = record s₃ { mem = rw_map.builds.mem'; free_list = rw_map.builds.head' }

  pub root₄ : rw_map.builds.role' x ≡ table x 2 0
  root₄ = rw_map.builds.grows.roles x x 2 0 root₃

  pub ro_page_map :
      FreshMapped l s₄ rw_map.builds.role' rw_map.builds.xs' x user_ro_page_va ro_flags
  ro_page_map =
      map_page-FreshMapped l s₄ rw_map.builds.role' rw_map.builds.xs' x user_ro_page_va ro_flags
        rw_map.builds.spaces root₄ (omega (arith, left₃, rw_map.builds.few)) (omega arith) refl
