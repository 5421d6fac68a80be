-- ===== src/Mmu/Access.antt =====
-- What a program finds at a virtual address, by what it does there.
use riscvkernel_hit.Base.{
  ℕ, ◌+◌, ◌*◌, ◌/◌, ◌%◌, ◌^◌, ◌<◌, ◌≡◌, refl, Option, none, some, Bool, not, arith, ap, ◌∙◌, ◌==◌,
  ◌&&◌, ◌||◌, if◌then◌else◌,
}
use riscvkernel_hit.Memory.Defs.{Mem}
use riscvkernel_hit.Page.Defs.{page_size}
use riscvkernel_hit.Mmu.Pte.{get_vpn, pte_to_pa}
use riscvkernel_hit.Mmu.Fields.{get_vpn_lem}
use riscvkernel_hit.Mmu.Lookup.{lookup, lookup_from}
use riscvkernel_hit.Mmu.Map.{leaf_entry, leaf_entry_pa, leaf_entry_low}

-- What a program in user mode does at an address.
pub data Access : Type 0 where
  load : Access
  store : Access
  fetch : Access

abbrev pub bit : ℕ → ℕ → Bool
bit k w = w / 2 ^ k % 2 == 1

-- What the permissions to read, write and execute allow: a page that is to be written has to be
-- readable, since Sv39 reserves W without R.
abbrev pub permits : Access → Bool → Bool → Bool → Bool
permits Access.load r w x = r
permits Access.store r w x = r && w
permits Access.fetch r w x = x && (r || not w)

-- The bits U, R, W and X of a leaf entry allow the access. A and D, which `map_page` always sets,
-- are left aside.
abbrev pub allows : Access → ℕ → Bool
allows a pte = bit 4 pte && permits a (bit 1 pte) (bit 2 pte) (bit 3 pte)

-- The byte in the page behind a leaf entry.
abbrev pub byte_of : Access → Mem → ℕ → Option ℕ → Option ℕ
byte_of a m va none = none
byte_of a m va (some pte) = if allows a pte then some (m (pte_to_pa pte + va % page_size)) else none

-- The byte that a program with the root table `pgd` loads or fetches at `va`, or that it replaces
-- there by a store; `none` is a page fault.
abbrev pub user_byte : Access → Mem → ℕ → ℕ → Option ℕ
user_byte a m pgd va = byte_of a m va (lookup m pgd va)

-- Five bits decide.
pub allows_low : (a : Access) (x y : ℕ) → x % 32 ≡ y % 32 → allows a x ≡ allows a y
allows_low a x y e =
    let e₁ : x / 2 ^ 1 % 2 ≡ y / 2 ^ 1 % 2 = omega arith in
    let e₂ : x / 2 ^ 2 % 2 ≡ y / 2 ^ 2 % 2 = omega arith in
    let e₃ : x / 2 ^ 3 % 2 ≡ y / 2 ^ 3 % 2 = omega arith in
    let e₄ : x / 2 ^ 4 % 2 ≡ y / 2 ^ 4 % 2 = omega arith in rw (e₁, e₂, e₃, e₄) refl

-- All addresses of a page are translated alike.
pub lookup-page :
    (m : Mem) (pgd va : ℕ) → lookup m pgd va ≡ lookup m pgd (va / page_size * page_size)
unfolding lookup_from
lookup-page m pgd va =
    let start : ℕ = va / page_size * page_size in
    let e₀ : get_vpn va 0 ≡ get_vpn start 0 =
      omega (arith, get_vpn_lem va 0, get_vpn_lem start 0) in
    let e₁ : get_vpn va 1 ≡ get_vpn start 1 =
      omega (arith, get_vpn_lem va 1, get_vpn_lem start 1) in
    let e₂ : get_vpn va 2 ≡ get_vpn start 2 =
      omega (arith, get_vpn_lem va 2, get_vpn_lem start 2) in
    rw (e₀, e₁, e₂)

-- A page that is mapped to `phys`.
pub user_byte_mapped :
    (a : Access) (m : Mem) (pgd va phys flags : ℕ)
    → phys % page_size ≡ 0
    → phys < 2 ^ 56
    → flags < 1024
    → lookup m pgd (va / page_size * page_size) ≡ some (leaf_entry phys flags)
    → user_byte a m pgd va ≡ (if allows a flags then some (m (phys + va % page_size)) else none)
user_byte_mapped a m pgd va phys flags al lt fl e =
    let same = allows_low a (leaf_entry phys flags) flags (leaf_entry_low phys flags fl) in
    ap (byte_of a m va) (lookup-page m pgd va ∙ e)
    ∙ rw (same, leaf_entry_pa phys flags al lt fl) refl
