-- ===== src/Mmu/Init.antt =====
-- `mmu_init`: the root table of the kernel, with the devices and the RAM at their own addresses.
use mathlib.Core.List.{append_assoc}
use riscvkernel_hit.Base.{
  ℕ, suc, ◌+◌, ◌*◌, ◌/◌, ◌^◌, ◌≤◌, ◌<◌, ◌≡◌, inl, inr, refl, ap, List, [], ◌∷◌, ◌++◌, none, arith,
  has, length, All, bit_or, Bool-cases, if◌then◌else◌,
}
use riscvkernel_hit.Memory.Defs.{Mem}
use riscvkernel_hit.Printf.Defs.{word}
use riscvkernel_hit.Printf.Fits.{fits}
use riscvkernel_hit.Kernel.Defs.{Kernel, Layout, ok, Cmd, modify, ◌>>◌}
use riscvkernel_hit.Kernel.Say.{say, say-ok}
use riscvkernel_hit.Page.Defs.{page_size, ram_start, ram_end}
use riscvkernel_hit.Page.FreeList.{IsPage, FreeList, IsPage-of_has}
use riscvkernel_hit.Mmu.Pte.{mmu_satp_to_pgd, mmu_make_satp}
use riscvkernel_hit.Mmu.Fields.{satp_fields}
use riscvkernel_hit.Mmu.Defs.{mmu_init, clint_base, clint_end, uart_base, write_satp}
use riscvkernel_hit.Mmu.Lookup.{lookup, missing-le}
use riscvkernel_hit.Mmu.Tree.{Role, free, table, other, Spaces}
use riscvkernel_hit.Mmu.Frame.{got_data}
use riscvkernel_hit.Mmu.Grows.{HasImage, page_no}
use riscvkernel_hit.Mmu.Identity.{IsIdentity}
use riscvkernel_hit.Mmu.Maps.{
  device_flags, ram_flags, init_pages, IsUnmapped, s₃, clint_map, uart_map, ram_map, root₃, left₃,
  clint_lookup, uart_lookup, no_lookup, all-Grows,
}

-- At the start a page is free or holds what is no page table.
abbrev boot_role : List ℕ → ℕ → Role
boot_role xs y = if has y xs then free else other

boot-Spaces :
    {l : Layout} {m : Mem} {head : ℕ} {xs : List ℕ}
    → FreeList l m head xs
    → Spaces l m head (boot_role xs) xs
boot-Spaces {xs} f = record {
  frees = f;
  spare = λ x h. rw h refl;
  pages = λ t r k n h. absurd (no_table t r k n h);
  child = λ t r k n i h low valid. absurd (no_table t r (suc k) n h);
}
  where
    no_table : (t r k n : ℕ) → boot_role xs t ≡ table r k n → ⊥
    no_table t r k n h = elim (Bool-cases (has t xs)) [
      | inl is_in ↦ let bad : free ≡ table r k n = rw is_in at h in cc
      | inr out ↦ let bad : other ≡ table r k n = rw out at h in cc
    ]

boot_role-HasImage : (l : Layout) (xs : List ℕ) → All (IsPage l) xs → HasImage l (boot_role xs)
boot_role-HasImage l xs pages y al low = elim (Bool-cases (has y xs)) [
  | inl is_in ↦ let page = IsPage-of_has xs y pages is_in in absurd (omega (arith, page.above, low))
  | inr out ↦ rw out refl
]

-- The kernel when `mmu_init` returns: its root table, and the memory.
pub record MmuOn (l : Layout) (s : Kernel) (xs : List ℕ) : Type 0 where
  pub root : ℕ
  pub mem' : Mem
  pub head' : ℕ
  pub satp : ℕ
  pub out : List ℕ
  pub role' : ℕ → Role
  pub xs' : List ℕ
  pub returns :
      mmu_init s
      ≡ ok tt (record s {
        mem = mem';
        free_list = head';
        root_page_table = root;
        cpu = record (s.cpu) { satp = satp };
        sent = s.sent ++ out;
      })
  pub mode : (mmu_satp_to_pgd satp ≡ root) × (satp / 2 ^ 60 ≡ 8)
  pub spaces : Spaces l mem' head' role' xs'
  pub is_root : role' root ≡ table root 2 0
  pub few : length xs ≤ length xs' + init_pages
  pub clint : IsIdentity mem' root clint_base clint_end device_flags
  pub uart : IsIdentity mem' root uart_base (uart_base + page_size) device_flags
  pub ram : IsIdentity mem' root ram_start ram_end ram_flags
  pub unmapped : (va : ℕ) → IsUnmapped (page_no va) → lookup mem' root va ≡ none
  pub image : (b : ℕ) → b < l.kernel_end → mem' b ≡ s.mem b
  pub kept : HasImage l role'

-- The end of `mmu_init`.
announce : ℕ → Cmd (Unit {0})
announce root = do
  say "[SYS] Page tables built. Root PGD at physical address: 0x%x\n" (word root ∷ [])
  modify (write_satp (bit_or (8 * 2 ^ 60) (root / 2 ^ 12)))
  say "[SYS] MMU activated! System is now running in Virtual Memory space.\n" []

announce-ok :
    (root : ℕ) (s : Kernel)
    → (out : List ℕ) × (announce root s
        ≡ ok tt
            (record s { cpu = record (s.cpu) { satp = mmu_make_satp root }; sent = s.sent ++ out }))
unfolding announce fits mmu_make_satp
announce-ok root s =
    let (a, e₁) =
      say-ok "[SYS] Page tables built. Root PGD at physical address: 0x%x\n" (word root ∷ []) s
        refl in
    let t : Kernel = record s {
      cpu = record (s.cpu) { satp = mmu_make_satp root };
      sent = s.sent ++ a;
    } in
    let (b, e₂) =
      say-ok "[SYS] MMU activated! System is now running in Virtual Memory space.\n" [] t refl in
    (
      a ++ b,
      rw (e₁, e₂)
          (ap
            (λ o. ok tt (record s { cpu = record (s.cpu) { satp = mmu_make_satp root }; sent = o }))
            (append_assoc s.sent a b)),
    )

-- With 135 free pages `mmu_init` returns, with `satp` set to Sv39 and to a root table that
-- translates every address of the CLINT and the UART to itself, to be read and written, and every
-- address of the RAM to itself, to be read, written and executed; all other addresses fault; and
-- no byte of the kernel's image has changed.
pub mmu_init-MmuOn :
    (l : Layout) (s : Kernel) (xs : List ℕ)
    → FreeList l s.mem s.free_list xs
    → init_pages ≤ length xs
    → MmuOn l s xs
unfolding mmu_init announce
mmu_init-MmuOn l s [] f many = absurd (omega (arith, many))
mmu_init-MmuOn l s (x ∷ xs) f many =
    let role : ℕ → Role = boot_role (x ∷ xs) in
    let sp = boot-Spaces f in
    let a = got_data l s role x xs sp in
    let clint = clint_map l s role x xs sp many in
    let uart = uart_map l s role x xs sp many in
    let ram = ram_map l s role x xs sp many in
    let r = ram.builds in
    let all = all-Grows l s role x xs sp many in
    let page = f.pages.0 in
    let last : Kernel = record (s₃ l s role x xs sp many) { mem = r.mem'; free_list = r.head' } in
    let (out, said) = announce-ok x last in
    record {
      root = x;
      mem' = r.mem';
      head' = r.head';
      satp = mmu_make_satp x;
      out = out;
      role' = r.role';
      xs' = r.xs';
      returns = rw (a.returns, clint.builds.returns, uart.returns, r.returns) said;
      mode = satp_fields x page.aligned (omega (arith, page.below));
      spaces = r.spaces;
      is_root = r.grows.roles x x 2 0 (root₃ l s role x xs sp many);
      few = omega (arith, r.few, left₃ l s role x xs sp many, missing-le uart.mem' 2 x ram_start);
      clint = clint_lookup l s role x xs sp many;
      uart = uart_lookup l s role x xs sp many;
      ram = ram.mapped;
      unmapped = no_lookup l s role x xs sp many;
      image = λ b low.
          let y : ℕ = b / page_size * page_size in
          all.contents y b
            (boot_role-HasImage l (x ∷ xs) f.pages y (omega arith) (omega (arith, low)))
            (omega arith) (omega arith) (omega arith);
      kept = λ y al low. all.others y (boot_role-HasImage l (x ∷ xs) f.pages y al low);
    }
