-- ===== src/Mmu/Identity.antt =====
-- The identity maps of `mmu_init`: a range of addresses, page after page, each mapped to itself.
use riscvkernel_hit.Base.{
  ℕ, zero, suc, ◌+◌, ◌-◌, ◌*◌, ◌/◌, ◌%◌, ◌^◌, ◌≤◌, ◌<◌, ◌≡◌, ◌≢◌, ◌⊎◌, inl, inr, refl, ◌∙◌, List,
  some, true, false, arith, length, ltb, ◌==◌, Bool-cases,
}
use riscvkernel_hit.Memory.Defs.{Mem}
use riscvkernel_hit.Kernel.Defs.{Kernel, Layout, Run}
use riscvkernel_hit.Page.Defs.{page_size}
use riscvkernel_hit.Mmu.Pte.{get_vpn}
use riscvkernel_hit.Mmu.Fields.{get_vpn_lem}
use riscvkernel_hit.Mmu.Defs.{map_identity}
use riscvkernel_hit.Mmu.Lookup.{lookup, missing, missing-le, missing-lookup}
use riscvkernel_hit.Mmu.Tree.{Role, table, Spaces}
use riscvkernel_hit.Mmu.Map.{Mapped, leaf_entry, map_page-Mapped}
use riscvkernel_hit.Mmu.Grows.{Grows-self, Grows-then, Builds, Mapped-Grows}
use riscvkernel_hit.Mmu.Access.{lookup-page}

-- The page with this number lies outside the addresses from `p` to `end`.
abbrev pub Outside : ℕ → ℕ → ℕ → Type 0
Outside p end n = (n * page_size < p) ⊎ (end ≤ n * page_size)

-- The bytes that one table of the last level serves.
abbrev pub region : ℕ
region = 2 ^ 21

-- The tables that `map_identity` may have to add: those that the first address lacks, and two for
-- each further region.
abbrev pub tables : Mem → ℕ → ℕ → ℕ → ℕ
tables m pgd p end = missing m 2 pgd p + 2 * (end / region - p / region)

-- All pages from `p` to `end` are translated to themselves.
abbrev pub IsIdentity : Mem → ℕ → ℕ → ℕ → ℕ → Type 0
IsIdentity m pgd p end flags =
    (va : ℕ)
    → p ≤ va
    → va < end
    → lookup m pgd va ≡ some (leaf_entry (va / page_size * page_size) flags)

pub record Identity (l : Layout) (s : Kernel) (role : ℕ → Role) (xs : List ℕ) (pgd p end flags : ℕ)
    (r : Run (Unit {0})) : Type 0 where
  pub builds : Builds l s role xs pgd (Outside p end) (tables s.mem pgd p end) r
  pub mapped : IsIdentity builds.mem' pgd p end flags

-- Addresses of one region lack the same tables.
missing-region :
    (m : Mem) (pgd va va' : ℕ)
    → va / region ≡ va' / region
    → missing m 2 pgd va ≡ missing m 2 pgd va'
unfolding missing
missing-region m pgd va va' e =
    let e₁ : get_vpn va 1 ≡ get_vpn va' 1 = omega (arith, e, get_vpn_lem va 1, get_vpn_lem va' 1) in
    let e₂ : get_vpn va 2 ≡ get_vpn va' 2 = omega (arith, e, get_vpn_lem va 2, get_vpn_lem va' 2) in
    rw (e₁, e₂)

-- Behind a page that is mapped, at most the tables of a new region are missing.
next_missing :
    (m : Mem) (pgd p pte end : ℕ)
    → lookup m pgd p ≡ some pte
    → p + page_size ≤ end
    → tables m pgd (p + page_size) end ≤ 2 * (end / region - p / region)
next_missing m pgd p pte end here le =
    let q : ℕ = p + page_size in
    elim (Bool-cases (q / region == p / region)) [
      | inl same ↦
          let e : q / region ≡ p / region = ground (arith, same) in
          omega (arith, e, missing-region m pgd q p e, missing-lookup m 2 pgd p pte here)
      | inr more ↦
          let ne : q / region ≢ p / region = ground (arith, more) in
          omega (arith, ne, missing-le m 2 pgd q, le)
    ]

module _ (l : Layout) (pgd flags end : ℕ) (small : flags < 1024) (odd : flags % 2 ≡ 1)
    (top : end ≤ 2 ^ 39) where
  -- A page, and then the rest.
  identity_step :
      (fuel : ℕ) (s : Kernel) (role : ℕ → Role) (xs : List ℕ) (p : ℕ)
      → p % page_size ≡ 0
      → p + page_size ≤ end
      → role pgd ≡ table pgd 2 0
      → (w : Mapped l s role xs pgd p p flags)
      → Identity l
          (record s { mem = w.mem'; free_list = w.head' })
          w.role'
          w.xs'
          pgd
          (p + page_size)
          end
          flags
          (map_identity fuel pgd
            (p + page_size)
            end
            flags
            (record s { mem = w.mem'; free_list = w.head' }))
      → Identity l s role xs pgd p end flags (map_identity (suc fuel) pgd p end flags s)
  unfolding map_identity
  identity_step fuel s role xs p al le tab w rest =
      let more : ltb p end ≡ true = ground arith in
      let b = rest.builds in
      record {
        builds = record {
          mem' = b.mem';
          head' = b.head';
          role' = b.role';
          xs' = b.xs';
          returns = rw (more, map_identity) (rw w.returns b.returns);
          spaces = b.spaces;
          few =
              omega
                (arith, w.few, b.few, next_missing w.mem' pgd p (leaf_entry p flags) end w.here le);
          grows =
              Grows-then (Outside p end) (Mapped-Grows w) b.grows
                (λ n out. (ground (arith, out), ground (arith, out)));
        };
        mapped = λ va lo hi. elim (Bool-cases (ltb va (p + page_size))) [
          | inl first ↦
              let near : va < p + page_size = ground (arith, first) in
              let start : va / page_size * page_size ≡ p = omega arith in
              b.grows.lookups pgd va (w.roles pgd pgd 2 0 tab) (inr (inl (omega arith)))
              ∙ lookup-page w.mem' pgd va
              ∙ (rw start w.here)
          | inr later ↦ rest.mapped va (ground (arith, later)) hi
        ];
      }

  -- `map_identity` of whole pages returns with a round for each page and one more, and translates
  -- each page of the range to itself.
  pub map_identity-Identity :
      (n fuel : ℕ) (s : Kernel) (role : ℕ → Role) (xs : List ℕ) (p : ℕ)
      → n < fuel
      → end ≡ p + n * page_size
      → p % page_size ≡ 0
      → Spaces l s.mem s.free_list role xs
      → role pgd ≡ table pgd 2 0
      → tables s.mem pgd p end ≤ length xs
      → Identity l s role xs pgd p end flags (map_identity fuel pgd p end flags s)
  map_identity-Identity n zero s role xs p rounds e al sp tab enough = absurd (omega arith)
  map_identity-Identity zero (suc fuel) s role xs p rounds e al sp tab enough =
      let stop : ltb p end ≡ false = ground arith in
      record {
        builds = record {
          mem' = s.mem;
          head' = s.free_list;
          role' = role;
          xs' = xs;
          returns = unfold map_identity in rw (stop, map_identity) refl;
          spaces = sp;
          few = omega arith;
          grows = Grows-self s.mem role pgd (Outside p end);
        };
        mapped = λ va lo hi. absurd (omega (arith, e, lo, hi));
      }
  map_identity-Identity (suc n) (suc fuel) s role xs p rounds e al sp tab enough =
      let w =
        map_page-Mapped {l = l} s role xs pgd p p flags sp tab (omega (arith, enough)) al
          (omega (arith, e, top)) small odd in
      let cost = next_missing w.mem' pgd p (leaf_entry p flags) end w.here (omega (arith, e)) in
      identity_step fuel s role xs p al (omega (arith, e)) tab w (
        map_identity-Identity n fuel (record s { mem = w.mem'; free_list = w.head' }) w.role' w.xs'
          (p + page_size) (omega arith) (omega (arith, e)) (omega (arith, al)) w.spaces
          (w.roles pgd pgd 2 0 tab) (omega (arith, cost, w.few, enough)))
