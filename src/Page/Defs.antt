-- ===== src/Page/Defs.antt =====
-- The operations of the page allocator. A free page holds the address of the next in its first word.
use riscvkernel_hit.Base.{
  ℕ, zero, suc, ◌+◌, ◌-◌, ◌*◌, ◌/◌, ◌%◌, ◌^◌, bit_and, [], ◌∷◌, ◌==◌, ltb, if◌then◌else◌,
}
use riscvkernel_hit.Memory.Defs.{read64, write64, zero_bytes}
use riscvkernel_hit.Printf.Defs.{word}
use riscvkernel_hit.Kernel.Defs.{Kernel, Layout, ok, out_of_fuel, Cmd, hang, ◌>>=◌, ◌>>◌}
use riscvkernel_hit.Kernel.Say.{say}

abbrev pub page_size : ℕ
page_size = 4096

abbrev pub ram_start : ℕ
ram_start = 0x8000_0000

abbrev pub ram_size : ℕ
ram_size = 128 * 1024 * 1024

abbrev pub ram_end : ℕ
ram_end = ram_start + ram_size

-- Rounds for a walk over all pages of the RAM, and one in which the walk finds its end.
abbrev pub page_fuel : ℕ
page_fuel = ram_size / page_size + 1

-- `~(size - 1)` as a 64-bit mask
abbrev pub size_mask : ℕ → ℕ
size_mask size = 2 ^ 64 - size

-- `ALIGN_UP`
unfoldable pub align_up : ℕ → ℕ → ℕ
align_up a size = bit_and ((a + size - 1) % 2 ^ 64) (size_mask size)

-- `page->next = free_list; free_list = page;`
unfoldable pub link : ℕ → Kernel → Kernel
link page s = record s { mem = write64 s.mem page s.free_list; free_list = page }

-- The loop of `page_init`; the result is `page_count`.
unfoldable pub page_loop : ℕ → ℕ → ℕ → Cmd ℕ
unfolding link
page_loop zero p page_count s = out_of_fuel
page_loop (suc fuel) p page_count s =
    let rest = page_loop fuel (p + page_size) (page_count + 1) (link p s) in
    if ltb p ram_end then rest else ok page_count s

unfoldable pub page_init : Layout → Cmd (Unit {0})
page_init l = do
  let start = align_up l.kernel_end page_size
  page_count ← page_loop page_fuel start 0
  say "[SYS] Physical Memory Allocator initialized.\n" []
  say "[SYS] Managed RAM: 0x%x -> 0x%x\n" (word start ∷ word ram_end ∷ [])
  say "[SYS] Total free pages: %d (approx %d MB)\n"
      (word page_count ∷ word (page_count * 4096 / 1024 / 1024) ∷ [])

-- The successful branch of `alloc_page`: the head is taken off, and its page cleared.
unfoldable pub take_page : Kernel → Kernel
take_page s = record s {
  free_list = read64 s.mem s.free_list;
  mem = zero_bytes page_size 0 s.free_list s.mem;
}

unfoldable pub alloc_page : Cmd ℕ
unfolding take_page
alloc_page s =
    if s.free_list == 0
    then (say "[FATAL] Out of Memory (OOM)!\n" [] >> hang) s
    else ok s.free_list (take_page s)

unfoldable pub free_page : ℕ → Cmd (Unit {0})
unfolding link
free_page p s = if p == 0 then ok tt s else ok tt (link p s)

-- The loop of `get_free_page_count`.
unfoldable pub count_loop : ℕ → ℕ → ℕ → Cmd ℕ
count_loop zero p count s = out_of_fuel
count_loop (suc fuel) p count s =
    let rest = count_loop fuel (read64 s.mem p) (count + 1) s in if p == 0 then ok count s else rest

unfoldable pub get_free_page_count : Cmd ℕ
get_free_page_count s = count_loop page_fuel s.free_list 0 s
