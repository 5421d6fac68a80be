-- ===== src/Task/Fresh.antt =====
-- A fresh page that is mapped into a space: `map_page(pgd, va, alloc_page(), flags)`.
use riscvkernel_hit.Base.{ℕ, ◌%◌, ◌≤◌, ◌<◌, ◌≡◌, ◌≢◌, refl, ◌∙◌, List, [], ◌∷◌, some, arith, length}
use riscvkernel_hit.Kernel.Defs.{Kernel, Layout, ok}
use riscvkernel_hit.Page.Defs.{alloc_page}
use riscvkernel_hit.Page.FreeList.{IsPage}
use riscvkernel_hit.Page.Alloc.{IsClear}
use riscvkernel_hit.Mmu.Defs.{map_page}
use riscvkernel_hit.Mmu.Lookup.{lookup, missing-le}
use riscvkernel_hit.Mmu.Tree.{Role, free, table, other, Spaces}
use riscvkernel_hit.Mmu.Map.{leaf_entry, map_page-Mapped}
use riscvkernel_hit.Mmu.Frame.{got_data, role_data, role_data-kept}
use riscvkernel_hit.Mmu.Grows.{
  page_no, Grows-then, Builds, Mapped-Grows, filled-Spaces, filled-Grows,
}

pub record FreshMapped (l : Layout) (s : Kernel) (role : ℕ → Role) (xs : List ℕ) (pgd va flags : ℕ)
    : Type 0 where
  pub page : ℕ
  pub kernel : Kernel
  pub takes : alloc_page s ≡ ok page kernel
  pub builds : Builds l s role xs pgd (λ n. n ≢ page_no va) 3 (map_page pgd va page flags kernel)
  pub here : lookup builds.mem' pgd va ≡ some (leaf_entry page flags)
  pub fresh : role page ≡ free
  pub whole : IsPage l page
  pub is_data : builds.role' page ≡ other
  pub clear : IsClear builds.mem' page

pub map_page-FreshMapped :
    (l : Layout) (s : Kernel) (role : ℕ → Role) (xs : List ℕ) (pgd va flags : ℕ)
    → Spaces l s.mem s.free_list role xs
    → role pgd ≡ table pgd 2 0
    → 3 ≤ length xs
    → flags < 1024
    → flags % 2 ≡ 1
    → FreshMapped l s role xs pgd va flags
map_page-FreshMapped l s role [] pgd va flags sp tab many small odd = absurd (omega arith)
map_page-FreshMapped l s role (x ∷ xs) pgd va flags sp tab many small odd =
    let a = got_data l s role x xs sp in
    let page = sp.frees.pages.0 in
    let s₁ : Kernel = record s { mem = a.mem'; free_list = a.head' } in
    let role₁ = role_data l s role x xs sp in
    let w =
      map_page-Mapped {l = l} s₁ role₁ xs pgd va x flags
        (filled-Spaces l s role x xs sp a.mem' (λ b h. refl))
        (role_data-kept l s role x xs sp pgd pgd 2 0 tab)
        (omega (arith, many, missing-le a.mem' 2 pgd va)) page.aligned (omega (arith, page.below))
        small odd in
    let is_data : role₁ x ≡ other = ground arith in
    record {
      page = x;
      kernel = s₁;
      takes = a.returns;
      builds = record {
        mem' = w.mem';
        head' = w.head';
        role' = w.role';
        xs' = w.xs';
        returns = w.returns;
        spaces = w.spaces;
        few = omega (arith, w.few, missing-le a.mem' 2 pgd va);
        grows =
            Grows-then (λ n. n ≢ page_no va)
              (filled-Grows l s role x xs sp a.mem' (λ b h. refl) pgd) (Mapped-Grows w)
              (λ n ne. (tt, ne));
      };
      here = w.here;
      fresh = sp.spare x (ground arith);
      whole = page;
      is_data = w.others x is_data;
      clear = λ b lo hi. w.contents x b is_data page.aligned lo hi ∙ a.cleared b lo hi;
    }
