-- ===== src/Mmu/Fields.antt =====
-- The fields of page table entries, virtual addresses and `satp`, as arithmetic.
use riscvkernel_hit.Base.{
  ℕ, ◌+◌, ◌*◌, ◌/◌, ◌%◌, ◌^◌, ◌<◌, ◌≡◌, bit_and, bit_or, arith, ◌==◌, bit_or_fields, bit_and_low,
}
use riscvkernel_hit.Mmu.Pte.{
  get_vpn, pte_to_pa, pa_to_pte, is_valid, mmu_make_satp, mmu_satp_to_pgd,
}

pub get_vpn_lem : (va level : ℕ) → get_vpn va level ≡ va / 2 ^ (12 + level * 9) % 512
unfolding get_vpn
get_vpn_lem va level = bit_and_low 9 (va / 2 ^ (12 + level * 9))

pub get_vpn-lt : (va level : ℕ) → get_vpn va level < 512
get_vpn-lt va level = omega (arith, get_vpn_lem va level)

-- The three page numbers of an address, from the root down, are the digits of its page in base 512.
pub get_vpn-digits :
    (va : ℕ) → (get_vpn va 2 * 512 + get_vpn va 1) * 512 + get_vpn va 0 ≡ va / 4096 % 2 ^ 27
get_vpn-digits va = omega (arith, get_vpn_lem va 0, get_vpn_lem va 1, get_vpn_lem va 2)

pub pa_to_pte_lem : (pa flags : ℕ) → flags < 1024 → pa_to_pte pa flags ≡ pa / 4096 * 1024 + flags
unfolding pa_to_pte
pa_to_pte_lem pa flags h = bit_or_fields 10 (pa / 2 ^ 12) flags h

pub is_valid_lem : (pte : ℕ) → is_valid pte ≡ (pte % 2 == 1)
unfolding is_valid
is_valid_lem pte = ground (arith, bit_and_low 1 pte)

-- An entry packs the number of a page of the 56-bit physical space and ten bits of flags: the page
-- comes back, the flags come back, and the entry is valid exactly when PTE_V is among the flags.
pub pte_fields :
    (pa flags : ℕ)
    → pa % 4096 ≡ 0
    → pa < 2 ^ 56
    → flags < 1024
    → (pte_to_pa (pa_to_pte pa flags) ≡ pa)
      × (bit_and (pa_to_pte pa flags) 0x3FF ≡ flags)
      × (is_valid (pa_to_pte pa flags) ≡ is_valid flags)
      × (pa_to_pte pa flags < 2 ^ 64)
unfolding pte_to_pa
pte_fields pa flags al lt fl = (
  omega (arith, pa_to_pte_lem pa flags fl),
  omega (arith, pa_to_pte_lem pa flags fl, bit_and_low 10 (pa_to_pte pa flags)),
  ground (arith, pa_to_pte_lem pa flags fl, is_valid_lem (pa_to_pte pa flags), is_valid_lem flags),
  omega (arith, pa_to_pte_lem pa flags fl),
)

-- `satp` of a root table in the 56-bit physical space: Sv39 mode, and the table comes back.
pub satp_fields :
    (pgd : ℕ)
    → pgd % 4096 ≡ 0
    → pgd < 2 ^ 56
    → (mmu_satp_to_pgd (mmu_make_satp pgd) ≡ pgd) × (mmu_make_satp pgd / 2 ^ 60 ≡ 8)
unfolding mmu_satp_to_pgd mmu_make_satp
satp_fields pgd al lt =
    let packed : bit_or (8 * 2 ^ 60) (pgd / 2 ^ 12) ≡ 8 * 2 ^ 60 + pgd / 2 ^ 12 =
      bit_or_fields 60 8 (pgd / 2 ^ 12) (omega arith) in
    (
      omega (arith, packed, bit_and_low 44 (bit_or (8 * 2 ^ 60) (pgd / 2 ^ 12))),
      omega (arith, packed),
    )
