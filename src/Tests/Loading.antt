-- ===== src/Tests/Loading.antt =====
-- The loader on a small executable, with ten free pages.
use riscvkernel_hit.Base.{ℕ, List, [], ◌∷◌, has, if◌then◌else◌}
use riscvkernel_hit.Kernel.Defs.{Kernel}
use riscvkernel_hit.Mmu.Tree.{Role}
use riscvkernel_hit.Mmu.Owned.{rev_onto, frees}
use riscvkernel_hit.Tests.States.{kernel, zeroes}

abbrev ten : List ℕ
ten =
    0x8020_0000 ∷ 0x8020_1000 ∷ 0x8020_2000 ∷ 0x8020_3000 ∷ 0x8020_4000 ∷ 0x8020_5000 ∷ 0x8020_6000
    ∷ 0x8020_7000 ∷ 0x8020_8000 ∷ 0x8020_9000 ∷ []

abbrev ready : Kernel
ready = frees ten (kernel zeroes 0)

abbrev free_ones : List ℕ
free_ones = rev_onto ten []

-- There are no tables yet.
abbrev role : ℕ → Role
role x = if has x free_ones then Role.free else Role.other
