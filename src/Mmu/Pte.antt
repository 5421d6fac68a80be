-- ===== src/Mmu/Pte.antt =====
-- Page table entries, virtual page numbers and the `satp` register as 64-bit words.
use riscvkernel_hit.Base.{ℕ, ◌+◌, ◌*◌, ◌/◌, ◌%◌, ◌^◌, bit_and, bit_or, Bool, not, ◌==◌}

abbrev pub pte_v : ℕ
pte_v = 2 ^ 0

abbrev pub pte_r : ℕ
pte_r = 2 ^ 1

abbrev pub pte_w : ℕ
pte_w = 2 ^ 2

abbrev pub pte_x : ℕ
pte_x = 2 ^ 3

abbrev pub pte_u : ℕ
pte_u = 2 ^ 4

abbrev pub pte_a : ℕ
pte_a = 2 ^ 6

abbrev pub pte_d : ℕ
pte_d = 2 ^ 7

-- `get_vpn`
unfoldable pub get_vpn : ℕ → ℕ → ℕ
get_vpn va level = bit_and (va / 2 ^ (12 + level * 9)) 0x1FF

-- `pte_to_pa`, and `pte_to_pa_local` of kernel/task.c
unfoldable pub pte_to_pa : ℕ → ℕ
pte_to_pa pte = pte / 2 ^ 10 * 2 ^ 12 % 2 ^ 64

-- `pa_to_pte`
unfoldable pub pa_to_pte : ℕ → ℕ → ℕ
pa_to_pte pa flags = bit_or (pa / 2 ^ 12 * 2 ^ 10) flags

-- `pte & PTE_V`, as a condition
unfoldable pub is_valid : ℕ → Bool
is_valid pte = not (bit_and pte pte_v == 0)

-- `mmu_make_satp`
unfoldable pub mmu_make_satp : ℕ → ℕ
mmu_make_satp pgd = bit_or (8 * 2 ^ 60) (pgd / 2 ^ 12)

-- `mmu_satp_to_pgd`
unfoldable pub mmu_satp_to_pgd : ℕ → ℕ
mmu_satp_to_pgd satp = bit_and satp 0xFFF_FFFF_FFFF * 2 ^ 12
