-- ===== src/Exec/Validate.antt =====
-- `validate_exec_image` of kernel/exec.c.
use Prim.Native.String.{String}
use riscvkernel_hit.Base.{
  ℕ, zero, suc, ◌+◌, ◌-◌, ◌*◌, ◌%◌, ◌^◌, bit_and, List, [], ◌∷◌, Bool, false, not, ◌&&◌, ◌||◌, ◌==◌,
  ltb, leb, if◌then◌else◌,
}
use riscvkernel_hit.Page.Defs.{page_size}
use riscvkernel_hit.Task.Process.{
  page_of, user_rw_page_va, user_ro_page_va, user_stack_top, user_stack_guard_va,
}
use riscvkernel_hit.Exec.Elf.{Image, Phdr, sizeof_ehdr, sizeof_phdr, read_ehdr, phdr_at}

-- Why an image is refused, in the order of the checks; `fine` is the result 1.
pub data Verdict : Type 0 where
  fine : Verdict
  too_small : Verdict
  bad_phentsize : Verdict
  table_out_of_range : Verdict
  filesz_exceeds_memsz : Verdict
  file_range_out_of_image : Verdict
  alignment_mismatch : Verdict
  address_overflow : Verdict
  overlaps_reserved : Verdict
  segments_overlap : Verdict
  bad_entry : Verdict

-- What is printed behind "\n[KERNEL] Exec failed: ".
unfoldable pub message : Verdict → String
message Verdict.fine = ""
message Verdict.too_small = "\n[KERNEL] Exec failed: ELF image too small.\n"
message Verdict.bad_phentsize = "\n[KERNEL] Exec failed: Unexpected program header size.\n"
message Verdict.table_out_of_range = "\n[KERNEL] Exec failed: Program header table out of range.\n"
message Verdict.filesz_exceeds_memsz =
    "\n[KERNEL] Exec failed: Segment file size exceeds memory size.\n"
message Verdict.file_range_out_of_image =
    "\n[KERNEL] Exec failed: Segment file range out of image.\n"
message Verdict.alignment_mismatch = "\n[KERNEL] Exec failed: Segment alignment mismatch.\n"
message Verdict.address_overflow = "\n[KERNEL] Exec failed: Segment address overflow.\n"
message Verdict.overlaps_reserved =
    "\n[KERNEL] Exec failed: Segment overlaps reserved user space.\n"
message Verdict.segments_overlap = "\n[KERNEL] Exec failed: Loadable segments overlap.\n"
message Verdict.bad_entry =
    "\n[KERNEL] Exec failed: Entry point is not inside a loadable segment.\n"

-- The sum of two 64-bit words, and their difference.
abbrev pub add64 : ℕ → ℕ → ℕ
add64 a b = (a + b) % 2 ^ 64

abbrev pub sub64 : ℕ → ℕ → ℕ
sub64 a b = (a + 2 ^ 64 - b) % 2 ^ 64

unfoldable pub ranges_overlap : ℕ → ℕ → ℕ → ℕ → Bool
ranges_overlap start_a end_a start_b end_b = ltb start_a end_b && ltb start_b end_a

abbrev pub is_load : Phdr → Bool
is_load p = p.p_type == 1

abbrev pub seg_end : Phdr → ℕ
seg_end p = add64 p.p_vaddr p.p_memsz

-- The first page of a segment, and the page behind its last.
abbrev pub first_page : Phdr → ℕ
first_page p = page_of p.p_vaddr

abbrev pub last_page : Phdr → ℕ
last_page p = page_of (add64 (seg_end p) (page_size - 1))

-- The inner loop: does a later loadable segment share a page with `p`?
unfoldable pub overlaps_later : Phdr → List Phdr → Bool
unfolding ranges_overlap
overlaps_later p [] = false
overlaps_later p (q ∷ later) =
    (is_load q && ranges_overlap (first_page p) (last_page p) (first_page q) (last_page q))
    || overlaps_later p later

abbrev in_reserved : Phdr → Bool
unfolding ranges_overlap
in_reserved p =
    ranges_overlap p.p_vaddr (seg_end p) user_stack_guard_va user_stack_top
    || ranges_overlap p.p_vaddr (seg_end p) user_rw_page_va (user_rw_page_va + page_size)
    || ranges_overlap p.p_vaddr (seg_end p) user_ro_page_va (user_ro_page_va + page_size)

-- The checks of one loadable segment, in the order of the code.
unfoldable pub check_segment : Image → Phdr → List Phdr → Verdict
unfolding in_reserved overlaps_later
check_segment app p later =
    if ltb p.p_memsz p.p_filesz
    then Verdict.filesz_exceeds_memsz
    else if ltb app.len (add64 p.p_offset p.p_filesz)
        || ltb (add64 p.p_offset p.p_filesz) p.p_offset
    then Verdict.file_range_out_of_image
    else if not (p.p_align == 0)
        && not (bit_and (sub64 p.p_vaddr p.p_offset) (sub64 p.p_align 1) == 0)
    then Verdict.alignment_mismatch
    else if ltb (seg_end p) p.p_vaddr
    then Verdict.address_overflow
    else if in_reserved p
    then Verdict.overlaps_reserved
    else if overlaps_later p later
    then Verdict.segments_overlap
    else Verdict.fine

abbrev pub holds_entry : ℕ → Phdr → Bool
holds_entry entry p = leb p.p_vaddr entry && ltb entry (seg_end p)

-- The outer loop, with `entry_ok`.
unfoldable pub check_segments : Image → ℕ → List Phdr → Bool → Verdict
unfolding check_segment
check_segments app entry [] entry_ok = if entry_ok then Verdict.fine else Verdict.bad_entry
check_segments app entry (p ∷ later) entry_ok =
    let rest = check_segments app entry later (entry_ok || (is_load p && holds_entry entry p)) in
    if is_load p then elim (check_segment app p later) [ Verdict.fine ↦ rest | bad ↦ bad ] else rest

-- The program headers `i`, `i + 1`, …, with the number that is left.
unfoldable pub phdrs_from : Image → ℕ → ℕ → List Phdr
unfolding phdr_at
phdrs_from app zero i = []
phdrs_from app (suc left) i = phdr_at app i ∷ phdrs_from app left (i + 1)

unfoldable pub phdrs : Image → List Phdr
unfolding phdrs_from read_ehdr
phdrs app = phdrs_from app (read_ehdr app).e_phnum 0

-- `validate_exec_image`
unfoldable pub validate_exec_image : Image → Verdict
validate_exec_image app =
    let ehdr = read_ehdr app in
    let ph_end = add64 ehdr.e_phoff (ehdr.e_phnum * sizeof_phdr) in
    if ltb app.len sizeof_ehdr
    then Verdict.too_small
    else if not (ehdr.e_phentsize == sizeof_phdr)
    then Verdict.bad_phentsize
    else if ltb app.len ph_end || ltb ph_end ehdr.e_phoff
    then Verdict.table_out_of_range
    else check_segments app ehdr.e_entry (phdrs app) false
