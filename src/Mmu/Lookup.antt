-- ===== src/Mmu/Lookup.antt =====
-- The translation that the Sv39 hardware makes of a page table with three levels.
use riscvkernel_hit.Base.{
  ℕ, zero, suc, ◌+◌, ◌*◌, ◌≤◌, ◌≡◌, inl, inr, refl, true, Option, none, some, arith, Bool-cases,
  if◌then◌else◌,
}
use riscvkernel_hit.Memory.Defs.{Mem, read64}
use riscvkernel_hit.Mmu.Pte.{get_vpn, pte_to_pa, is_valid}
use riscvkernel_hit.Mmu.Defs.{slot}

-- The leaf entry that is found for `va` from a table of the given level on, if all entries on the
-- way are valid.
unfoldable pub lookup_from : Mem → ℕ → ℕ → ℕ → Option ℕ
lookup_from m zero table va =
    let pte = read64 m (slot table (get_vpn va 0)) in if is_valid pte then some pte else none
lookup_from m (suc level) table va =
    let pte = read64 m (slot table (get_vpn va (suc level))) in
    let rest = lookup_from m level (pte_to_pa pte) va in if is_valid pte then rest else none

abbrev pub lookup : Mem → ℕ → ℕ → Option ℕ
lookup m pgd va = lookup_from m 2 pgd va

-- The number of the last table on the way, counted in the tree below a table with number `n`.
unfoldable pub table_no : ℕ → ℕ → ℕ → ℕ
table_no n va zero = n
table_no n va (suc level) = table_no (n * 512 + get_vpn va (suc level)) va level

-- From `table` on valid entries lead to `last`, a table of the last level.
abbrev pub Reaches : Mem → ℕ → ℕ → ℕ → ℕ → Type 0
Reaches m zero table va last = table ≡ last
Reaches m (suc level) table va last =
    let pte = read64 m (slot table (get_vpn va (suc level))) in
    (is_valid pte ≡ true) × Reaches m level (pte_to_pa pte) va last

-- The tables that a walk to the last level would have to add.
unfoldable pub missing : Mem → ℕ → ℕ → ℕ → ℕ
missing m zero table va = 0
missing m (suc level) table va =
    let pte = read64 m (slot table (get_vpn va (suc level))) in
    let deeper = missing m level (pte_to_pa pte) va in if is_valid pte then deeper else suc level

pub missing-le : (m : Mem) (level table va : ℕ) → missing m level table va ≤ level
unfolding missing
missing-le m zero table va = omega arith
missing-le m (suc level) table va =
    ground
      (arith, missing-le m level (pte_to_pa (read64 m (slot table (get_vpn va (suc level))))) va)

-- Where an address is translated, no table is missing.
pub missing-lookup :
    (m : Mem) (level table va pte : ℕ)
    → lookup_from m level table va ≡ some pte
    → missing m level table va ≡ 0
unfolding missing lookup_from
missing-lookup m zero table va pte h = refl
missing-lookup m (suc level) table va pte h =
    let entry : ℕ = read64 m (slot table (get_vpn va (suc level))) in
    elim (Bool-cases (is_valid entry)) [
      | inl valid ↦ rw valid (missing-lookup m level (pte_to_pa entry) va pte (rw valid at h))
      | inr stop ↦ let bad : none ≡ some pte = rw stop at h in cc
    ]
