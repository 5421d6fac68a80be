-- ===== src/Task/Ranges.antt =====
-- `map_range`: the pages that a range of addresses touches, each mapped to itself.
use riscvkernel_hit.Base.{
  ℕ, ◌+◌, ◌-◌, ◌*◌, ◌/◌, ◌%◌, ◌^◌, ◌≤◌, ◌<◌, ◌≡◌, List, arith, length, bit_and_high,
}
use riscvkernel_hit.Kernel.Defs.{Kernel, Layout}
use riscvkernel_hit.Page.Defs.{page_size}
use riscvkernel_hit.Mmu.Tree.{Role, table, Spaces}
use riscvkernel_hit.Mmu.Identity.{tables, Identity, map_identity-Identity}
use riscvkernel_hit.Task.Process.{page_of, map_range}

abbrev pub page_down : ℕ → ℕ
page_down a = a / page_size * page_size

abbrev pub page_up : ℕ → ℕ
page_up a = (a + 4095) / page_size * page_size

page_of_lem : (a : ℕ) → a < 2 ^ 64 → page_of a ≡ page_down a
page_of_lem a h = omega (arith, bit_and_high 12 52 a)

pub map_range-Identity :
    (l : Layout) (s : Kernel) (role : ℕ → Role) (xs : List ℕ) (pgd start end flags : ℕ)
    → flags < 1024
    → flags % 2 ≡ 1
    → start ≤ end
    → page_up end ≤ 2 ^ 39
    → Spaces l s.mem s.free_list role xs
    → role pgd ≡ table pgd 2 0
    → tables s.mem pgd (page_down start) (page_up end) ≤ length xs
    → Identity l s role xs pgd
        (page_down start)
        (page_up end)
        flags
        (map_range pgd start end flags s)
unfolding map_range
map_range-Identity l s role xs pgd start end flags small odd le top sp tab enough =
    let begin : page_of start ≡ page_down start = page_of_lem start (omega (arith, le, top)) in
    let limit : page_of ((end + page_size - 1) % 2 ^ 64) ≡ page_up end =
      omega (arith, top, page_of_lem ((end + page_size - 1) % 2 ^ 64) (omega arith)) in
    let n : ℕ = (page_up end - page_down start) / page_size in
    rw (begin, limit)
      (map_identity-Identity l pgd flags (page_up end) small odd top n (n + 1) s role xs
        (page_down start) (omega arith) (omega (arith, le)) (omega arith) sp tab enough)
