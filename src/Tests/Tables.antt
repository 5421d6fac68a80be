-- ===== src/Tests/Tables.antt =====
-- An empty root table with two free pages, and the fields of entries.
use riscvkernel_hit.Base.{ℕ, ◌^◌, ◌<◌, ◌≡◌, refl, arith, bit_and, ◌==◌, ◌||◌, if◌then◌else◌}
use riscvkernel_hit.Mmu.Pte.{is_valid, pa_to_pte, pte_to_pa}
use riscvkernel_hit.Mmu.Fields.{pte_fields}
use riscvkernel_hit.Mmu.Tree.{Role}
use riscvkernel_hit.Kernel.Defs.{Kernel}
use riscvkernel_hit.Tests.States.{page_a, page_b, page_c}

abbrev role : ℕ → Role
role x =
    if x == page_c
    then Role.table page_c 2 0
    else if x == page_a || x == page_b
    then Role.free
    else Role.other

pte_fields_example :
    (pte_to_pa (pa_to_pte 0x8020_0000 0x17) ≡ 0x8020_0000)
    × (bit_and (pa_to_pte 0x8020_0000 0x17) 0x3FF ≡ 0x17)
    × (is_valid (pa_to_pte 0x8020_0000 0x17) ≡ is_valid 0x17)
    × (pa_to_pte 0x8020_0000 0x17 < 2 ^ 64)
pte_fields_example = pte_fields 0x8020_0000 0x17 refl (omega arith) (omega arith)
