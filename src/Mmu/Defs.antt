-- ===== src/Mmu/Defs.antt =====
-- The walk over a page table, and the mapping of pages into it.
use riscvkernel_hit.Base.{ℕ, zero, suc, ◌+◌, ◌*◌, ◌/◌, ◌^◌, bit_or, Bool, true, false, [], ◌∷◌, ltb}
use riscvkernel_hit.Memory.Defs.{read64, write64}
use riscvkernel_hit.Printf.Defs.{word}
use riscvkernel_hit.Kernel.Defs.{Kernel, ok, out_of_fuel, Cmd, pure, modify, ◌>>=◌, ◌>>◌}
use riscvkernel_hit.Kernel.Say.{say}
use riscvkernel_hit.Page.Defs.{page_size, ram_start, ram_size, alloc_page}
use riscvkernel_hit.Mmu.Pte.{
  pte_v, pte_r, pte_w, pte_x, pte_a, pte_d, get_vpn, pte_to_pa, pa_to_pte, is_valid,
}

-- `*p` and `*p = v` for a `uint64_t *p`
unfoldable pub load64 : ℕ → Cmd ℕ
load64 p s = ok (read64 s.mem p) s

unfoldable pub store64 : ℕ → ℕ → Cmd (Unit {0})
store64 p v s = ok tt (record s { mem = write64 s.mem p v })

-- `&table[i]`
abbrev pub slot : ℕ → ℕ → ℕ
slot table i = table + 8 * i

-- `new_page = alloc_page(); *pte = pa_to_pte(new_page, PTE_V);`
unfoldable pub add_table : ℕ → Cmd ℕ
unfolding store64
add_table pte = do new_page ← alloc_page; store64 pte (pa_to_pte new_page pte_v); pure new_page

-- The loop of `walk_pte` from `level` down to 1, and the `return` behind it. 0 is the null pointer.
unfoldable pub walk_loop : ℕ → ℕ → Bool → ℕ → Cmd ℕ
walk_loop zero va create table s = ok (slot table (get_vpn va 0)) s
walk_loop (suc level) va create table s =
    let pte = slot table (get_vpn va (suc level)) in
    elim (is_valid (read64 s.mem pte)) [
      | true ↦ walk_loop level va create (pte_to_pa (read64 s.mem pte)) s
      | false ↦ elim create [
        | false ↦ ok 0 s
        | true ↦ (add_table pte >>= λ new_page. walk_loop level va true new_page) s
      ]
    ]

unfoldable pub walk_pte : ℕ → ℕ → Bool → Cmd ℕ
walk_pte pgd va create = walk_loop 2 va create pgd

unfoldable pub map_page : ℕ → ℕ → ℕ → ℕ → Cmd (Unit {0})
map_page pgd va pa flags = do
  pte ← walk_pte pgd va true
  store64 pte (pa_to_pte pa (bit_or (bit_or flags pte_a) pte_d))

-- `for (p = start; p < end; p += PAGE_SIZE) map_page(pgd, p, p, flags);`, on fuel.
unfoldable pub map_identity : ℕ → ℕ → ℕ → ℕ → ℕ → Cmd (Unit {0})
map_identity zero pgd p end flags s = out_of_fuel
map_identity (suc fuel) pgd p end flags s = elim (ltb p end) [
  | true ↦ (map_page pgd p p flags >>= λ _. map_identity fuel pgd (p + page_size) end flags) s
  | false ↦ ok tt s
]

abbrev pub clint_base : ℕ
clint_base = 0x200_0000

abbrev pub clint_end : ℕ
clint_end = 0x201_0000

abbrev pub uart_base : ℕ
uart_base = 0x1000_0000

abbrev set_root : ℕ → Kernel → Kernel
set_root root s = record s { root_page_table = root }

abbrev pub write_satp : ℕ → Kernel → Kernel
write_satp satp s = record s { cpu = record (s.cpu) { satp = satp } }

-- `mmu_init`. `sfence.vma` has no effect in a machine without a cache of translations.
unfoldable pub mmu_init : Cmd (Unit {0})
mmu_init = do
  root ← alloc_page
  modify (set_root root)
  map_identity 17 root clint_base clint_end (bit_or (bit_or pte_r pte_w) pte_v)
  map_page root uart_base uart_base (bit_or (bit_or pte_r pte_w) pte_v)
  map_identity 32769 root ram_start (ram_start + ram_size)
      (bit_or (bit_or (bit_or pte_r pte_w) pte_x) pte_v)
  say "[SYS] Page tables built. Root PGD at physical address: 0x%x\n" (word root ∷ [])
  modify (write_satp (bit_or (8 * 2 ^ 60) (root / 2 ^ 12)))
  say "[SYS] MMU activated! System is now running in Virtual Memory space.\n" []
