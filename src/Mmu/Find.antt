-- ===== src/Mmu/Find.antt =====
-- `walk_pte` without `create`: it changes nothing, and finds the entry that the hardware reads.
use riscvkernel_hit.Base.{
  ℕ, zero, suc, ◌≡◌, ◌⊎◌, inl, inr, refl, false, Option, none, some, Bool, Bool-cases,
  if◌then◌else◌,
}
use riscvkernel_hit.Memory.Defs.{Mem, read64}
use riscvkernel_hit.Kernel.Defs.{Kernel, ok}
use riscvkernel_hit.Mmu.Pte.{get_vpn, pte_to_pa, is_valid}
use riscvkernel_hit.Mmu.Defs.{slot, walk_loop}
use riscvkernel_hit.Mmu.Lookup.{lookup_from, Reaches}

-- An entry of the last level as a translation.
abbrev pub leaf_of : ℕ → Option ℕ
leaf_of pte = if is_valid pte then some pte else none

-- The null pointer where a table is missing, else the entry of the last table.
abbrev pub Found : Kernel → ℕ → ℕ → ℕ → Type 0
Found s level va y =
    ((walk_loop level va false y s ≡ ok 0 s) × (lookup_from s.mem level y va ≡ none))
    ⊎ ((t : ℕ) × (walk_loop level va false y s ≡ ok (slot t (get_vpn va 0)) s)
        × (lookup_from s.mem level y va ≡ leaf_of (read64 s.mem (slot t (get_vpn va 0)))))

pub walk_loop-Found : (level va y : ℕ) (s : Kernel) → Found s level va y
unfolding walk_loop lookup_from
walk_loop-Found zero va y s = inr (y, refl, refl)
walk_loop-Found (suc level) va y s =
    let pte : ℕ = read64 s.mem (slot y (get_vpn va (suc level))) in
    elim (Bool-cases (is_valid pte)) [
      | inl valid ↦
          let step : walk_loop (suc level) va false y s
              ≡ walk_loop level va false (pte_to_pa pte) s =
            rw (valid, walk_loop) refl in
          rw (step, valid) (walk_loop-Found level va (pte_to_pa pte) s)
      | inr stop ↦ inl (rw (stop, walk_loop) refl, rw stop refl)
    ]

-- Where valid entries lead to the table `last`, the walk ends there.
pub walk_loop-Reaches :
    (level va y last : ℕ) (create : Bool) (s : Kernel)
    → Reaches s.mem level y va last
    → walk_loop level va create y s ≡ ok (slot last (get_vpn va 0)) s
unfolding walk_loop
walk_loop-Reaches zero va y last create s h = rw h refl
walk_loop-Reaches (suc level) va y last create s (valid, h) =
    rw (valid, walk_loop)
      (walk_loop-Reaches level va (pte_to_pa (read64 s.mem (slot y (get_vpn va (suc level))))) last
        create s h)

pub lookup-Reaches :
    (m : Mem) (level va y last : ℕ)
    → Reaches m level y va last
    → lookup_from m level y va ≡ leaf_of (read64 m (slot last (get_vpn va 0)))
unfolding lookup_from
lookup-Reaches m zero va y last h = rw h refl
lookup-Reaches m (suc level) va y last (valid, h) =
    rw valid
      (lookup-Reaches m level va (pte_to_pa (read64 m (slot y (get_vpn va (suc level))))) last h)
