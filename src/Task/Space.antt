-- ===== src/Task/Space.antt =====
-- `init_user_address_space`: the space of the process that the kernel starts with.
use riscvkernel_hit.Base.{
  ℕ, ◌+◌, ◌≤◌, ◌≡◌, ◌≢◌, inl, inr, ◌∙◌, sym, List, none, some, arith, length,
}
use riscvkernel_hit.Memory.Defs.{Mem}
use riscvkernel_hit.Kernel.Defs.{Kernel, Layout, ok}
use riscvkernel_hit.Page.FreeList.{IsPage}
use riscvkernel_hit.Page.Alloc.{IsClear}
use riscvkernel_hit.Mmu.Lookup.{lookup, missing-le}
use riscvkernel_hit.Mmu.Tree.{Role, free, table, other, Spaces}
use riscvkernel_hit.Mmu.Map.{leaf_entry}
use riscvkernel_hit.Mmu.Grows.{page_no, Grows, Grows-then, Mapped-Grows}
use riscvkernel_hit.Mmu.Identity.{Outside, IsIdentity}
use riscvkernel_hit.Task.Process.{
  user_rw_page_va, user_stack_page_va, user_ro_page_va, map_user_stack, map_boot_user_text,
  map_boot_user_data, init_user_address_space,
}
use riscvkernel_hit.Task.Maps.{
  IsLinked, text_flags, ro_flags, rw_flags, space_pages, s₁, s₂, text_map, ro_map, stack_map,
  rw_map, ro_page_map, root₁, root₂, root₃, root₄, left₁,
}

-- The page lies neither in the code, nor in the constants, nor is it one of the pages of data.
abbrev pub IsOutside : Layout → ℕ → Type 0
IsOutside l n =
    Outside l.text_start l.text_end n
    × Outside l.rodata_start l.rodata_end n
    × (n ≢ page_no user_stack_page_va)
    × (n ≢ page_no user_rw_page_va)
    × (n ≢ page_no user_ro_page_va)

-- What the process finds with the root table `x` and the stack page `y`: code and constants at their
-- own addresses, the stack, a page to read and write and one to read, and nothing else.
pub record StartSpace (l : Layout) (m : Mem) (x y rw_page ro_page : ℕ) : Type 0 where
  pub text : IsIdentity m x l.text_start l.text_end text_flags
  pub rodata : IsIdentity m x l.rodata_start l.rodata_end ro_flags
  pub stack : lookup m x user_stack_page_va ≡ some (leaf_entry y rw_flags)
  pub rw_data : lookup m x user_rw_page_va ≡ some (leaf_entry rw_page rw_flags)
  pub ro_data : lookup m x user_ro_page_va ≡ some (leaf_entry ro_page ro_flags)
  pub unmapped : (va : ℕ) → IsOutside l (page_no va) → lookup m x va ≡ none
  pub rw_clear : IsClear m rw_page
  pub ro_clear : IsClear m ro_page
  pub pages : IsPage l rw_page × IsPage l ro_page × (rw_page ≢ ro_page)

-- A space that was empty, with the root table `x`, when `init_user_address_space` returns.
pub record SpaceReady (l : Layout) (s : Kernel) (role : ℕ → Role) (xs : List ℕ) (x y : ℕ)
    : Type 0 where
  pub mem' : Mem
  pub head' : ℕ
  pub role' : ℕ → Role
  pub xs' : List ℕ
  pub rw_page : ℕ
  pub ro_page : ℕ
  pub returns : init_user_address_space l x y s ≡ ok tt (record s { mem = mem'; free_list = head' })
  pub spaces : Spaces l mem' head' role' xs'
  pub few : length xs ≤ length xs' + space_pages l
  pub grows : Grows s.mem role mem' role' x (λ _. ⊥)
  pub space : StartSpace l mem' x y rw_page ro_page

-- With the free pages for it, `init_user_address_space` builds that space, and no other space nor
-- page of data changes.
pub init_user_address_space-SpaceReady :
    (l : Layout) (lay : IsLinked l) (s : Kernel) (role : ℕ → Role) (xs : List ℕ) (x y : ℕ)
    → Spaces l s.mem s.free_list role xs
    → role x ≡ table x 2 0
    → IsPage l y
    → space_pages l ≤ length xs
    → ((va : ℕ) → lookup s.mem x va ≡ none)
    → SpaceReady l s role xs x y
unfolding init_user_address_space map_boot_user_text map_user_stack map_boot_user_data
init_user_address_space-SpaceReady l lay s role xs x y sp root page many empty =
    let t = text_map l lay s role xs x y sp root page many in
    let c = ro_map l lay s role xs x y sp root page many in
    let st = stack_map l lay s role xs x y sp root page many in
    let a = rw_map l lay s role xs x y sp root page many in
    let b = ro_page_map l lay s role xs x y sp root page many in
    let r₁ = root₁ l lay s role xs x y sp root page many in
    let r₂ = root₂ l lay s role xs x y sp root page many in
    let r₃ = root₃ l lay s role xs x y sp root page many in
    let r₄ = root₄ l lay s role xs x y sp root page many in
    record {
      mem' = b.builds.mem';
      head' = b.builds.head';
      role' = b.builds.role';
      xs' = b.builds.xs';
      rw_page = a.page;
      ro_page = b.page;
      returns =
          rw (t.builds.returns, c.builds.returns, st.returns, a.takes, a.builds.returns, b.takes)
            b.builds.returns;
      spaces = b.builds.spaces;
      few = omega (
        arith,
        left₁ l lay s role xs x y sp root page many,
        c.builds.few,
        st.few,
        a.builds.few,
        b.builds.few,
        missing-le (s₁ l lay s role xs x y sp root page many).mem 2 x l.rodata_start,
        missing-le (s₂ l lay s role xs x y sp root page many).mem 2 x user_stack_page_va,
      );
      grows =
          Grows-then (λ _. ⊥) t.builds.grows
            (Grows-then (λ _. ⊥) c.builds.grows
              (Grows-then (λ _. ⊥) (Mapped-Grows st)
                (Grows-then (λ _. ⊥) a.builds.grows b.builds.grows (λ n h. absurd h))
                (λ n h. absurd h))
              (λ n h. absurd h))
            (λ n h. absurd h);
      space = record {
        text = λ va lo hi.
            b.builds.grows.lookups x va r₄ (inr (omega (arith, lay, lo, hi)))
            ∙ a.builds.grows.lookups x va r₃ (inr (omega (arith, lay, lo, hi)))
            ∙ st.elsewhere x va r₂ (inr (omega (arith, lay, lo, hi)))
            ∙ c.builds.grows.lookups x va r₁ (inr (inl (omega (arith, lay, lo, hi))))
            ∙ t.mapped va lo hi;
        rodata = λ va lo hi.
            b.builds.grows.lookups x va r₄ (inr (omega (arith, lay, lo, hi)))
            ∙ a.builds.grows.lookups x va r₃ (inr (omega (arith, lay, lo, hi)))
            ∙ st.elsewhere x va r₂ (inr (omega (arith, lay, lo, hi)))
            ∙ c.mapped va lo hi;
        stack =
            b.builds.grows.lookups x user_stack_page_va r₄ (inr (omega arith))
            ∙ a.builds.grows.lookups x user_stack_page_va r₃ (inr (omega arith))
            ∙ st.here;
        rw_data = b.builds.grows.lookups x user_rw_page_va r₄ (inr (omega arith)) ∙ a.here;
        ro_data = b.here;
        unmapped = λ va out.
            b.builds.grows.lookups x va r₄ (inr out.4)
            ∙ a.builds.grows.lookups x va r₃ (inr out.3)
            ∙ st.elsewhere x va r₂ (inr out.2)
            ∙ c.builds.grows.lookups x va r₁ (inr out.1)
            ∙ t.builds.grows.lookups x va root (inr out.0)
            ∙ empty va;
        rw_clear = λ e lo hi.
            b.builds.grows.contents a.page e a.is_data a.whole.aligned lo hi ∙ a.clear e lo hi;
        ro_clear = b.clear;
        pages = (a.whole, b.whole, λ e. apart a.builds.role' a.page b.page e a.is_data b.fresh);
      };
    }
  where
    apart : (f : ℕ → Role) (p q : ℕ) → p ≡ q → f p ≡ other → f q ≡ free → ⊥
    apart f p q e g h = let bad : other ≡ free = sym g ∙ (rw e h) in cc
