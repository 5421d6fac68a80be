-- ===== src/Tests/Pages.antt =====
-- The page allocator on two free pages.
use riscvkernel_hit.Base.{
  ℕ, ◌≡◌, ◌<◌, refl, List, [], ◌∷◌, ◌++◌, arith, has, true, ◌+◌, ◌-◌, ◌/◌, length, update,
}
use riscvkernel_hit.Memory.Defs.{Mem, read64, write64}
use riscvkernel_hit.Kernel.Defs.{Kernel, ok}
use riscvkernel_hit.Page.Defs.{
  ram_end, page_size, page_init, take_page, link, alloc_page, free_page, get_free_page_count,
}
use riscvkernel_hit.Page.FreeList.{IsPage, FreeList}
use riscvkernel_hit.Page.Alloc.{Allocated, alloc_page-Allocated}
use riscvkernel_hit.Page.Uses.{Uses, starts, allocs, frees, writes, clear, Serves, Uses-Serves}
use riscvkernel_hit.Page.Count.{get_free_page_count-length}
use riscvkernel_hit.Page.Init.{page_init-FreeList}
use riscvkernel_hit.Tests.States.{
  layout, kernel, zeroes, two_pages, page_a, page_b, two_pages-FreeList,
}

alloc_page-Allocated_example : Allocated layout two_pages page_a (page_b ∷ [])
alloc_page-Allocated_example =
    alloc_page-Allocated {l = layout} two_pages page_a (page_b ∷ []) two_pages-FreeList

get_free_page_count-length_example : get_free_page_count two_pages ≡ ok 2 two_pages
get_free_page_count-length_example =
    get_free_page_count-length layout (omega arith) two_pages (page_a ∷ page_b ∷ [])
      two_pages-FreeList

page_init-FreeList_example :
    (m : Mem) × (head : ℕ) × (xs : List ℕ) × (out : List ℕ) × (page_init layout (kernel zeroes 0)
      ≡ ok tt (record (kernel zeroes 0) { mem = m; free_list = head; sent = [] ++ out }))
    × FreeList layout m head xs
    × (length xs ≡ (ram_end - layout.kernel_end) / page_size)
    × ((x : ℕ) → IsPage layout x → has x xs ≡ true)
    × ((b : ℕ) → b < layout.kernel_end → m b ≡ zeroes b)
page_init-FreeList_example =
    page_init-FreeList layout (kernel zeroes 0) (omega arith) (omega arith) refl

-- The user takes a page, writes a byte to it, takes the other, and gives the first back.
abbrev one_taken : Kernel
one_taken = take_page two_pages

abbrev wrote : Kernel
wrote = record one_taken { mem = update one_taken.mem (page_a + 8) 7 }

abbrev both_taken : Kernel
both_taken = take_page wrote

abbrev one_back : Kernel
one_back = link page_a both_taken

abbrev view : Mem
view = clear page_b (update (clear page_a zeroes) (page_a + 8) 7)

history : Uses two_pages one_back (page_b ∷ []) view
unfolding alloc_page free_page take_page link read64 write64
history =
    frees page_a (page_b ∷ []) []
      (allocs page_b (writes page_a (page_a + 8) 7 (allocs page_a starts refl) refl (omega arith))
        refl)
      refl refl

Uses-Serves_example : Serves layout (page_a ∷ page_b ∷ []) one_back (page_b ∷ []) view
Uses-Serves_example = Uses-Serves (page_a ∷ page_b ∷ []) two_pages-FreeList history
