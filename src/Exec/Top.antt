-- ===== src/Exec/Top.antt =====
-- What the checks miss at the top of the 64-bit space: the end of a segment that is rounded up to 0.
use riscvkernel_hit.Base.{
  ℕ, ◌+◌, ◌-◌, ◌/◌, ◌^◌, ◌≤◌, ◌<◌, ◌≡◌, refl, List, [], ◌∷◌, false, arith, ltb, bit_and_high,
}
use riscvkernel_hit.Kernel.Defs.{Kernel, ok}
use riscvkernel_hit.Page.Defs.{page_size}
use riscvkernel_hit.Exec.Elf.{Image, Phdr}
use riscvkernel_hit.Exec.Validate.{
  Verdict, add64, seg_end, first_page, last_page, overlaps_later, ranges_overlap, check_segment,
}
use riscvkernel_hit.Exec.Accept.{EndsAtTop}
use riscvkernel_hit.Exec.Load.{load_pages, load_segment}

last_page-top : (p : Phdr) → EndsAtTop p → p.p_vaddr + p.p_memsz < 2 ^ 64 → last_page p ≡ 0
last_page-top p top fits =
    let small : add64 (seg_end p) 4095 < page_size = omega (arith, top, fits) in
    omega (arith, small, bit_and_high 12 52 (add64 (seg_end p) 4095))

overlaps_later-top :
    (p : Phdr) (later : List Phdr) → last_page p ≡ 0 → overlaps_later p later ≡ false
unfolding overlaps_later ranges_overlap
overlaps_later-top p [] e = refl
overlaps_later-top p (q ∷ later) e = ground (arith, e, overlaps_later-top p later e)

no_pages :
    (app : Image) (pgd : ℕ) (p : Phdr) (start : ℕ) (s : Kernel)
    → load_pages ((0 - start) / page_size + 1) app pgd p start 0 s ≡ ok tt s
unfolding load_pages
no_pages app pgd p start s =
    let one : (0 - start) / page_size + 1 ≡ 1 = omega arith in
    let stop : ltb start 0 ≡ false = ground arith in rw one (rw (stop, load_pages) refl)

-- A loadable segment that ends in the last page of the 64-bit space, lies above the reserved
-- addresses, asks for no alignment and has its bytes in an image below 4 GiB passes all the checks
-- of a segment, whatever segments stand behind it, the one for shared pages too; and the loader maps
-- no page of it and changes nothing.
pub check_segment-misses_top :
    (app : Image) (p : Phdr) (later : List Phdr) (pgd : ℕ) (s : Kernel)
    → EndsAtTop p
    → p.p_vaddr + p.p_memsz < 2 ^ 64
    → 2 ^ 39 ≤ p.p_vaddr
    → p.p_filesz ≤ p.p_memsz
    → p.p_offset + p.p_filesz ≤ app.len
    → app.len < 2 ^ 32
    → p.p_align ≡ 0
    → (check_segment app p later ≡ Verdict.fine) × (load_segment app pgd p s ≡ ok tt s)
unfolding check_segment load_segment
check_segment-misses_top app p later pgd s top fits above file image small align =
    let e = last_page-top p top fits in
    let apart = overlaps_later-top p later e in
    (passes apart, rw e (no_pages app pgd p (first_page p) s))
  where
    passes : overlaps_later p later ≡ false → check_segment app p later ≡ Verdict.fine
    passes apart = ground (arith, apart)
