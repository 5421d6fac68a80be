-- ===== src/Exec/Accept.antt =====
-- What an image that `validate_exec_image` accepts is known to satisfy, in exact arithmetic.
use native.Mathlib.Decide.{dec_lt}
use riscvkernel_hit.Base.{
  ℕ, zero, suc, ◌+◌, ◌*◌, ◌^◌, ◌≤◌, ◌<◌, ◌≡◌, ◌⊎◌, inl, inr, refl, List, [], ◌∷◌, Bool, true, false,
  arith, All, Bool-cases, ◌||◌, ◌&&◌, ◌-◌, ◌/◌, ltb, bit_and_high,
}
use riscvkernel_hit.Memory.Laws.{IsBytes, read64-lt}
use riscvkernel_hit.Page.Defs.{page_size}
use riscvkernel_hit.Task.Process.{
  page_of, user_rw_page_va, user_ro_page_va, user_stack_top, user_stack_guard_va,
}
use riscvkernel_hit.Exec.Elf.{Image, Phdr, sizeof_ehdr, sizeof_phdr, read_ehdr, phdr_at}
use riscvkernel_hit.Exec.Validate.{
  Verdict, add64, seg_end, is_load, holds_entry, first_page, last_page, ranges_overlap,
  overlaps_later, check_segment, check_segments, phdrs_from, phdrs, validate_exec_image,
}

-- The fields that are 64-bit words.
abbrev IsWords : Phdr → Type 0
IsWords p =
    (p.p_offset < 2 ^ 64) × (p.p_vaddr < 2 ^ 64) × (p.p_filesz < 2 ^ 64) × (p.p_memsz < 2 ^ 64)

-- The segment lies below or above a range of addresses.
abbrev pub ClearOf : Phdr → ℕ → ℕ → Type 0
ClearOf p from to = (p.p_vaddr + p.p_memsz ≤ from) ⊎ (to ≤ p.p_vaddr)

pub record SegmentFits (app : Image) (p : Phdr) : Type 0 where
  pub file_in_memory : p.p_filesz ≤ p.p_memsz
  pub file_in_image : p.p_offset + p.p_filesz ≤ app.len
  pub no_wrap : p.p_vaddr + p.p_memsz < 2 ^ 64
  pub clear_of_stack : ClearOf p user_stack_guard_va user_stack_top
  pub clear_of_rw : ClearOf p user_rw_page_va (user_rw_page_va + page_size)
  pub clear_of_ro : ClearOf p user_ro_page_va (user_ro_page_va + page_size)

-- The number of a segment's first page, and of the page behind its last.
abbrev pub first_no : Phdr → ℕ
first_no p = p.p_vaddr / page_size

abbrev pub limit_no : Phdr → ℕ
limit_no p = (p.p_vaddr + p.p_memsz + 4095) / page_size

-- No page holds bytes of both segments.
abbrev pub PagesApart : Phdr → Phdr → Type 0
PagesApart p q = (limit_no p ≤ first_no q) ⊎ (limit_no q ≤ first_no p)

-- The segment ends in the last page of the 64-bit space, or behind that space.
abbrev pub EndsAtTop : Phdr → Type 0
EndsAtTop p = 2 ^ 64 - page_size < p.p_vaddr + p.p_memsz

abbrev pub ApartBelowTop : Phdr → Phdr → Type 0
ApartBelowTop p q = EndsAtTop p ⊎ EndsAtTop q ⊎ PagesApart p q

abbrev pub AllFit : Image → List Phdr → Type 0
AllFit app ps = All (λ p. is_load p ≡ true → SegmentFits app p) ps

abbrev pub AllApart : List Phdr → Type 0
AllApart [] = Unit
AllApart (p ∷ later) =
    (is_load p ≡ true → All (λ q. is_load q ≡ true → ApartBelowTop p q) later) × AllApart later

abbrev pub EntryIn : ℕ → List Phdr → Type 0
EntryIn entry [] = ⊥
EntryIn entry (p ∷ later) =
    ((is_load p ≡ true) × (p.p_vaddr ≤ entry) × (entry < p.p_vaddr + p.p_memsz))
    ⊎ EntryIn entry later

-- `a & ~0xFFF` below 2 ^ 64.
page_of_lem : (a : ℕ) → a < 2 ^ 64 → page_of a ≡ a / page_size * page_size
page_of_lem a h = omega (arith, bit_and_high 12 52 a)

pub first_page_lem : (p : Phdr) → p.p_vaddr < 2 ^ 64 → first_page p ≡ first_no p * page_size
first_page_lem p h = page_of_lem p.p_vaddr h

-- The rounding up of the code is exact for a segment that does not end at the top.
pub last_page_lem :
    (p : Phdr) → p.p_vaddr + p.p_memsz ≤ 2 ^ 64 - page_size → last_page p ≡ limit_no p * page_size
last_page_lem p low =
    let exact : add64 (seg_end p) 4095 ≡ p.p_vaddr + p.p_memsz + 4095 = omega (arith, low) in
    rw exact (page_of_lem (p.p_vaddr + p.p_memsz + 4095) (omega (arith, low)))

clear-apart :
    (p q : Phdr)
    → ranges_overlap (first_page p) (last_page p) (first_page q) (last_page q) ≡ false
    → ApartBelowTop p q
unfolding ranges_overlap
clear-apart p q h = elim (dec_lt (2 ^ 64 - page_size) (p.p_vaddr + p.p_memsz)) [
  | yes top ↦ inl top
  | no low ↦ elim (dec_lt (2 ^ 64 - page_size) (q.p_vaddr + q.p_memsz)) [
    | yes top ↦ inr (inl top)
    | no low' ↦
        let f = first_page_lem p (omega (arith, low)) in
        let f' = first_page_lem q (omega (arith, low')) in
        let e = last_page_lem p (omega (arith, low)) in
        let e' = last_page_lem q (omega (arith, low')) in inr (inr (apart (rw (f, f', e, e') at h)))
  ]
]
  where
    apart :
        (ltb (first_no p * page_size) (limit_no q * page_size)
            && ltb (first_no q * page_size) (limit_no p * page_size))
          ≡ false
        → PagesApart p q
    apart e = ground arith

overlaps_later-false :
    (p : Phdr) (later : List Phdr)
    → overlaps_later p later ≡ false
    → All (λ q. is_load q ≡ true → ApartBelowTop p q) later
unfolding overlaps_later
overlaps_later-false p [] h = tt
overlaps_later-false p (q ∷ later) h =
    (λ load. clear-apart p q (ground arith), overlaps_later-false p later (ground arith))

check_segment-fine :
    (app : Image) (p : Phdr) (later : List Phdr)
    → IsWords p
    → check_segment app p later ≡ Verdict.fine
    → SegmentFits app p × (overlaps_later p later ≡ false)
unfolding check_segment ranges_overlap
check_segment-fine app p later w h = (
  record {
    file_in_memory = ground arith;
    file_in_image = ground arith;
    no_wrap = ground arith;
    clear_of_stack = ground arith;
    clear_of_rw = ground arith;
    clear_of_ro = ground arith;
  },
  ground arith,
)

-- A loadable segment in front of others that the loop accepted.
first-fits :
    (app : Image) (entry : ℕ) (p : Phdr) (later : List Phdr) (entry_ok : Bool)
    → IsWords p
    → is_load p ≡ true
    → check_segments app entry (p ∷ later) entry_ok ≡ Verdict.fine
    → SegmentFits app p
      × (overlaps_later p later ≡ false)
      × (check_segments app entry later (entry_ok || holds_entry entry p) ≡ Verdict.fine)
unfolding check_segments
first-fits app entry p later entry_ok w load h = go (check_segment app p later) refl
  where
    go :
        (v : Verdict)
        → check_segment app p later ≡ v
        → SegmentFits app p
          × (overlaps_later p later ≡ false)
          × (check_segments app entry later (entry_ok || holds_entry entry p) ≡ Verdict.fine)
    go Verdict.fine e =
        let (fits, apart) = check_segment-fine app p later w e in
        (fits, apart, ground (arith, h, load, e))
    go other e = absurd (ground (arith, h, load, e))

check_segments-fine :
    (app : Image) (entry : ℕ) (ps : List Phdr) (entry_ok : Bool)
    → All IsWords ps
    → check_segments app entry ps entry_ok ≡ Verdict.fine
    → AllFit app ps × AllApart ps × ((entry_ok ≡ true) ⊎ EntryIn entry ps)
unfolding check_segments
check_segments-fine app entry [] entry_ok w h = (tt, tt, inl (ground arith))
check_segments-fine app entry (p ∷ later) entry_ok w h = elim (Bool-cases (is_load p)) [
  | inl load ↦
      let (fits, apart, rest) = first-fits app entry p later entry_ok w.0 load h in
      let (fit, pairs, found) =
        check_segments-fine app entry later (entry_ok || holds_entry entry p) w.1 rest in
      (
        (λ _. fits, fit),
        (λ _. overlaps_later-false p later apart, pairs),
        ground (arith, found, load, fits.no_wrap),
      )
  | inr skip ↦
      let rest : check_segments app entry later (entry_ok || false) ≡ Verdict.fine =
        ground (arith, h, skip) in
      let (fit, pairs, found) = check_segments-fine app entry later (entry_ok || false) w.1 rest in
      (
        (λ load. absurd (ground (arith, load, skip)), fit),
        (λ load. absurd (ground (arith, load, skip)), pairs),
        ground (arith, found),
      )
]

phdrs_from-IsWords :
    (app : Image) (left i : ℕ) → IsBytes app.bytes → All IsWords (phdrs_from app left i)
unfolding phdrs_from
phdrs_from-IsWords app zero i b = tt
phdrs_from-IsWords app (suc left) i b = (words, phdrs_from-IsWords app left (i + 1) b)
  where
    at : ℕ → ℕ
    at k = (read_ehdr app).e_phoff + sizeof_phdr * i + k

    words : IsWords (phdr_at app i)
    words = (
      read64-lt app.bytes (at 8) b,
      read64-lt app.bytes (at 16) b,
      read64-lt app.bytes (at 32) b,
      read64-lt app.bytes (at 40) b,
    )

phdrs-IsWords : (app : Image) → IsBytes app.bytes → All IsWords (phdrs app)
unfolding phdrs
phdrs-IsWords app b = phdrs_from-IsWords app (read_ehdr app).e_phnum 0 b

-- An accepted image, in exact arithmetic: both header tables lie in it; each loadable segment lies
-- in the file and in the address space without a wrap, has no more bytes in the file than in
-- memory, and is clear of the stack with its guard page and of the two pages of data; no two
-- loadable segments share a page, where neither ends in the last page of the 64-bit space; and the
-- entry point is inside one of them.
pub record Accepted (app : Image) : Type 0 where
  pub header_in_image : sizeof_ehdr ≤ app.len
  pub table_in_image : (read_ehdr app).e_phoff + (read_ehdr app).e_phnum * sizeof_phdr ≤ app.len
  pub segments : AllFit app (phdrs app)
  pub apart : AllApart (phdrs app)
  pub entry : EntryIn (read_ehdr app).e_entry (phdrs app)

phnum-small : (app : Image) → IsBytes app.bytes → (read_ehdr app).e_phnum < 2 ^ 16
unfolding read_ehdr
phnum-small app b = omega (arith, b 56, b 57)

phoff-small : (app : Image) → IsBytes app.bytes → (read_ehdr app).e_phoff < 2 ^ 64
unfolding read_ehdr
phoff-small app b = read64-lt app.bytes 32 b

-- For an image of bytes for which `validate_exec_image` returns 1, in exact arithmetic: the
-- headers lie in the image; every loadable segment has its file range in the image, no more bytes
-- in the file than in memory, an end below 2 ^ 64, and lies clear of the stack page, its guard
-- page and the two reserved pages; any two loadable segments share no page, unless one of them ends
-- in the last page of the 64-bit space; and the entry point lies in a loadable segment.
pub validate_exec_image-Accepted :
    (app : Image) → IsBytes app.bytes → validate_exec_image app ≡ Verdict.fine → Accepted app
unfolding validate_exec_image
validate_exec_image-Accepted app b h =
    let entry : ℕ = (read_ehdr app).e_entry in
    let passed : check_segments app entry (phdrs app) false ≡ Verdict.fine = ground arith in
    let (fit, pairs, found) =
      check_segments-fine app entry (phdrs app) false (phdrs-IsWords app b) passed in
    record {
      header_in_image = ground arith;
      table_in_image = ground (arith, phnum-small app b, phoff-small app b);
      segments = fit;
      apart = pairs;
      entry = certain entry found;
    }
  where
    certain :
        (entry : ℕ)
        → (◌≡◌ {A = Bool} false true) ⊎ EntryIn entry (phdrs app)
        → EntryIn entry (phdrs app)
    certain entry (inl bad) = absurd (ground (arith, bad))
    certain entry (inr found) = found
