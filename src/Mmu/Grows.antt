-- ===== src/Mmu/Grows.antt =====
-- Commands that map pages into one address space: what they take and what they leave alone.
use riscvkernel_hit.Base.{
  ℕ, ◌+◌, ◌/◌, ◌%◌, ◌^◌, ◌≤◌, ◌<◌, ◌≡◌, ◌≢◌, ◌⊎◌, inl, inr, refl, ◌∙◌, sym, List, ◌∷◌, arith,
  length,
}
use riscvkernel_hit.Memory.Defs.{Mem}
use riscvkernel_hit.Kernel.Defs.{Kernel, Layout, Run, ok}
use riscvkernel_hit.Page.Defs.{page_size}
use riscvkernel_hit.Page.FreeList.{IsPage}
use riscvkernel_hit.Page.Alloc.{SameOutside}
use riscvkernel_hit.Mmu.Lookup.{lookup}
use riscvkernel_hit.Mmu.Tree.{Role, table, other, Spaces}
use riscvkernel_hit.Mmu.Map.{Mapped}
use riscvkernel_hit.Mmu.Frame.{
  got_data, role_data, role_data-kept, data_tables, got_data-Spaces, lookup-frame, data-Spaces,
  TablesAgree-data, other-not_table,
}

-- The number of an address's page in the space of 2 ^ 39 bytes.
abbrev pub page_no : ℕ → ℕ
page_no va = va / page_size % 2 ^ 27

-- From one memory and its roles to the next: tables stay tables and pages of data keep their
-- bytes; and the root table `pgd` translates all pages that `Spared` names as before, every other
-- root table all pages.
pub record Grows (m : Mem) (role : ℕ → Role) (m' : Mem) (role' : ℕ → Role) (pgd : ℕ)
    (Spared : ℕ → Type 0) : Type 0 where
  pub roles : (y r k n : ℕ) → role y ≡ table r k n → role' y ≡ table r k n
  pub others : (y : ℕ) → role y ≡ other → role' y ≡ other
  pub contents :
      (y b : ℕ) → role y ≡ other → y % page_size ≡ 0 → y ≤ b → b < y + page_size → m' b ≡ m b
  pub lookups :
      (pgd' va : ℕ)
      → role pgd' ≡ table pgd' 2 0
      → (pgd' ≢ pgd) ⊎ Spared (page_no va)
      → lookup m' pgd' va ≡ lookup m pgd' va

pub Grows-self :
    (m : Mem) (role : ℕ → Role) (pgd : ℕ) (Spared : ℕ → Type 0) → Grows m role m role pgd Spared
Grows-self m role pgd Spared = record {
  roles = λ y r k n h. h;
  others = λ y h. h;
  contents = λ y b h al lo hi. refl;
  lookups = λ pgd' va h apart. refl;
}

pub Grows-then :
    {m m₁ m₂ : Mem} {role role₁ role₂ : ℕ → Role} {pgd : ℕ} {S₁ S₂ : ℕ → Type 0} (S : ℕ → Type 0)
    → Grows m role m₁ role₁ pgd S₁
    → Grows m₁ role₁ m₂ role₂ pgd S₂
    → ((n : ℕ) → S n → S₁ n × S₂ n)
    → Grows m role m₂ role₂ pgd S
Grows-then {S₁} {S₂} S a b both = record {
  roles = λ y r k n h. b.roles y r k n (a.roles y r k n h);
  others = λ y h. b.others y (a.others y h);
  contents =
      λ y b' h al lo hi. b.contents y b' (a.others y h) al lo hi ∙ a.contents y b' h al lo hi;
  lookups = λ pgd' va h apart.
      b.lookups pgd' va (a.roles pgd' pgd' 2 0 h) (second va apart)
      ∙ a.lookups pgd' va h (first va apart);
}
  where
    first : {pgd pgd' : ℕ} (va : ℕ) → (pgd' ≢ pgd) ⊎ S (page_no va) → (pgd' ≢ pgd) ⊎ S₁ (page_no va)
    first va (inl ne) = inl ne
    first va (inr h) = inr (both (page_no va) h).0

    second :
        {pgd pgd' : ℕ} (va : ℕ) → (pgd' ≢ pgd) ⊎ S (page_no va) → (pgd' ≢ pgd) ⊎ S₂ (page_no va)
    second va (inl ne) = inl ne
    second va (inr h) = inr (both (page_no va) h).1

-- The pages of the kernel's image hold no page tables, and are not free.
abbrev pub HasImage : Layout → (ℕ → Role) → Type 0
HasImage l role = (y : ℕ) → y % page_size ≡ 0 → y < l.kernel_end → role y ≡ other

-- A run that returns from building up the space of `pgd`, with at most `cost` pages.
pub record Builds (l : Layout) (s : Kernel) (role : ℕ → Role) (xs : List ℕ) (pgd : ℕ)
    (Spared : ℕ → Type 0) (cost : ℕ) (r : Run (Unit {0})) : Type 0 where
  pub mem' : Mem
  pub head' : ℕ
  pub role' : ℕ → Role
  pub xs' : List ℕ
  pub returns : r ≡ ok tt (record s { mem = mem'; free_list = head' })
  pub spaces : Spaces l mem' head' role' xs'
  pub few : length xs ≤ length xs' + cost
  pub grows : Grows s.mem role mem' role' pgd Spared

-- The kernel that a run leaves.
abbrev pub built :
    {l : Layout} {s : Kernel} {role : ℕ → Role} {xs : List ℕ} {pgd : ℕ} {S : ℕ → Type 0} {cost : ℕ}
    {r : Run (Unit {0})}
    → Builds l s role xs pgd S cost r
    → Kernel
built {s} b = record s { mem = b.mem'; free_list = b.head' }

pub Mapped-Grows :
    {l : Layout} {s : Kernel} {role : ℕ → Role} {xs : List ℕ} {pgd va pa flags : ℕ}
    (w : Mapped l s role xs pgd va pa flags)
    → Grows s.mem role w.mem' w.role' pgd (λ n. n ≢ page_no va)
Mapped-Grows w = record {
  roles = w.roles;
  others = w.others;
  contents = w.contents;
  lookups = λ pgd' va' h apart. w.elsewhere pgd' va' h apart;
}

-- A fresh page of data, filled at will: no table and no other page of data notices.
module _ (l : Layout) (s : Kernel) (role : ℕ → Role) (x : ℕ) (xs : List ℕ)
    (sp : Spaces l s.mem s.free_list role (x ∷ xs)) (m₁ : Mem)
    (filled : SameOutside x page_size (got_data l s role x xs sp).mem' m₁) where
  x-IsPage : IsPage l x
  x-IsPage = sp.frees.pages.0

  pub filled-Spaces : Spaces l m₁ (got_data l s role x xs sp).head' (role_data l s role x xs sp) xs
  filled-Spaces = data-Spaces m₁ x (got_data-Spaces l s role x xs sp) x-IsPage (ground arith) filled

  pub filled-Grows : (pgd : ℕ) → Grows s.mem role m₁ (role_data l s role x xs sp) pgd (λ _. Unit)
  filled-Grows pgd = record {
    roles = role_data-kept l s role x xs sp;
    others = λ y h. ground (arith, h);
    contents = λ y b h al lo hi.
        let ne : y ≢ x = λ e. not_free (rw (← e) h) in
        filled b (ground (arith, x-IsPage.aligned, ne))
        ∙ (got_data l s role x xs sp).same b (ground (arith, x-IsPage.aligned, ne));
    lookups = λ pgd' va h apart.
        lookup-frame m₁ (got_data-Spaces l s role x xs sp)
          (TablesAgree-data m₁ x (got_data-Spaces l s role x xs sp) x-IsPage
            (other-not_table (role_data l s role x xs sp) x (ground arith)) filled)
          2 pgd' pgd' 0 va (role_data-kept l s role x xs sp pgd' pgd' 2 0 h)
        ∙ lookup-frame (got_data l s role x xs sp).mem' sp (data_tables l s role x xs sp) 2 pgd'
            pgd' 0 va h;
  }
    where
      not_free : role x ≡ other → ⊥
      not_free e = let bad : Role.free ≡ other = sym (sp.spare x (ground arith)) ∙ e in cc
