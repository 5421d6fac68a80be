-- ===== src/Exec/Fill.antt =====
-- One page of a segment in memory, byte by byte.
use riscvkernel_hit.Base.{
  ℕ, zero, suc, ◌+◌, ◌-◌, ◌%◌, ◌^◌, ◌≤◌, ◌<◌, ◌≡◌, ◌≢◌, ◌⊎◌, inl, inr, refl, ◌∙◌, sym, true, ◌&&◌,
  ◌==◌, ltb, leb, bit_and, bit_and_low, arith, ap, if◌then◌else◌, update, Bool-cases,
}
use riscvkernel_hit.Memory.Defs.{Mem, zero_bytes}
use riscvkernel_hit.Memory.Ranges.{zero_bytes-inside, zero_bytes-outside}
use riscvkernel_hit.Page.Defs.{page_size}
use riscvkernel_hit.Page.Alloc.{SameOutside}
use riscvkernel_hit.Exec.Elf.{Image, Phdr}
use riscvkernel_hit.Exec.Validate.{add64, sub64}
use riscvkernel_hit.Exec.Load.{copy_file, copy_start, copy_end, fill_page}

-- The byte that a segment has at an address: from the file, or 0 behind the file's part.
abbrev pub segment_byte : Image → Phdr → ℕ → ℕ
segment_byte app p a =
    if leb p.p_vaddr a && ltb a (p.p_vaddr + p.p_filesz)
    then app.bytes (p.p_offset + (a - p.p_vaddr))
    else 0

-- A segment whose file range and addresses are in range, in exact arithmetic.
pub record InRange (p : Phdr) : Type 0 where
  pub file_in_memory : p.p_filesz ≤ p.p_memsz
  pub in_space : p.p_vaddr + p.p_memsz ≤ 2 ^ 39
  pub in_image : p.p_offset + p.p_filesz < 2 ^ 64

copy_file-outside :
    (app : Image) (left b to from : ℕ) (m : Mem) (a : ℕ)
    → (a < to + b) ⊎ (to + b + left ≤ a)
    → copy_file app left b to from m a ≡ m a
unfolding copy_file
copy_file-outside app zero b to from m a h = refl
copy_file-outside app (suc left) b to from m a h = ground (
  arith,
  copy_file-outside app left (b + 1) to from (update m (to + b) (app.bytes ((from + b) % 2 ^ 64)))
      a,
)

copy_file-inside :
    (app : Image) (left b to from : ℕ) (m : Mem) (k : ℕ)
    → b ≤ k
    → k < b + left
    → copy_file app left b to from m (to + k) ≡ app.bytes ((from + k) % 2 ^ 64)
unfolding copy_file
copy_file-inside app zero b to from m k lo hi = absurd (omega arith)
copy_file-inside app (suc left) b to from m k lo hi =
    let m' : Mem = update m (to + b) (app.bytes ((from + b) % 2 ^ 64)) in
    elim (Bool-cases (b == k)) [
      | inl e ↦
          let here : b ≡ k = ground arith in
          rw (← here) (
            copy_file-outside app left (b + 1) to from m' (to + b) (inl (omega arith))
            ∙ ground arith)
      | inr e ↦
          let ne : b ≢ k = ground arith in
          copy_file-inside app left (b + 1) to from m' k (omega (arith, ne)) (omega arith)
    ]

module _ (app : Image) (p : Phdr) (page phys : ℕ) (m : Mem) (fits : InRange p)
    (page_al : page % page_size ≡ 0) (page_top : page < 2 ^ 39)
    (phys_al : phys % page_size ≡ 0) where
  -- The bounds of the copy, without wrap-around.
  start_lem : (copy_start p page ≡ page) ⊎ (copy_start p page ≡ p.p_vaddr)
  unfolding copy_start
  start_lem = ground arith

  bounds :
      (page ≤ copy_start p page)
      × (p.p_vaddr ≤ copy_start p page)
      × (copy_end p page ≤ page + page_size)
      × (copy_end p page ≤ p.p_vaddr + p.p_filesz)
      × ((page + page_size ≤ copy_end p page) ⊎ (p.p_vaddr + p.p_filesz ≤ copy_end p page))
  unfolding copy_start copy_end
  bounds =
      let exact : add64 p.p_vaddr p.p_filesz ≡ p.p_vaddr + p.p_filesz =
        omega (arith, fits.file_in_memory, fits.in_space) in
      let next : add64 page page_size ≡ page + page_size = omega (arith, page_top) in
      rw (exact, next) (ground arith)

  abbrev start : ℕ
  start = copy_start p page

  abbrev end : ℕ
  end = copy_end p page

  abbrev cleared : Mem
  cleared = zero_bytes page_size 0 phys m

  abbrev target : ℕ
  target = phys + bit_and start 0xFFF

  abbrev source : ℕ
  source = add64 p.p_offset (sub64 start p.p_vaddr)

  in_page : start < end → bit_and start 0xFFF ≡ start - page
  in_page h = omega (arith, h, bit_and_low 12 start, bounds, page_al)

  in_file : start < end → source ≡ p.p_offset + (start - p.p_vaddr)
  in_file h = omega (arith, h, bounds, fits.file_in_memory, fits.in_space, fits.in_image)

  cleared_lem : (o : ℕ) → o < page_size → cleared (phys + o) ≡ 0
  cleared_lem o low = zero_bytes-inside page_size 0 phys m (phys + o) (omega arith) (omega arith)

  outside_file :
      (o : ℕ)
      → o < page_size
      → (page + o < start) ⊎ (end ≤ page + o)
      → segment_byte app p (page + o) ≡ 0
  outside_file o low h = ground (arith, h, bounds, start_lem)

  copied :
      (o : ℕ)
      → o < page_size
      → start < end
      → copy_file app (end - start) 0 target source cleared (phys + o)
        ≡ segment_byte app p (page + o)
  copied o low h = elim (Bool-cases (leb start (page + o) && ltb (page + o) end)) [
    | inl inside ↦
        let k : ℕ = page + o - start in
        let lo : start ≤ page + o = ground arith in
        let hi : page + o < end = ground arith in
        let there : phys + o ≡ target + k = omega (arith, in_page h, bounds, lo) in
        let byte : (source + k) % 2 ^ 64 ≡ p.p_offset + (page + o - p.p_vaddr) =
          omega (arith, in_file h, bounds, lo, hi, fits.in_image) in
        let within : (leb p.p_vaddr (page + o) && ltb (page + o) (p.p_vaddr + p.p_filesz)) ≡ true =
          ground (arith, bounds, lo, hi) in
        rw (within, there)
          (copy_file-inside app (end - start) 0 target source cleared k (omega arith)
              (omega (arith, lo, hi))
            ∙ ap app.bytes byte)
    | inr outside ↦
        let away : (page + o < start) ⊎ (end ≤ page + o) = ground arith in
        copy_file-outside app (end - start) 0 target source cleared (phys + o)
          (ground (arith, away, in_page h, bounds))
        ∙ cleared_lem o low
        ∙ sym (outside_file o low away)
  ]

  -- The page holds the bytes that the segment has at its addresses.
  pub fill_page_lem :
      (o : ℕ)
      → o < page_size
      → fill_page app p page phys m (phys + o) ≡ segment_byte app p (page + o)
  unfolding fill_page
  fill_page_lem o low = elim (Bool-cases (ltb start end)) [
    | inl some_bytes ↦ rw some_bytes (copied o low (ground arith))
    | inr no_bytes ↦
        let away : (page + o < start) ⊎ (end ≤ page + o) = ground arith in
        rw no_bytes (cleared_lem o low ∙ sym (outside_file o low away))
  ]

  pub fill_page-SameOutside : SameOutside phys page_size m (fill_page app p page phys m)
  unfolding fill_page
  fill_page-SameOutside b h = elim (Bool-cases (ltb start end)) [
    | inl some_bytes ↦
        let lt : start < end = ground arith in
        rw some_bytes (
          copy_file-outside app (end - start) 0 target source cleared b
            (ground (arith, in_page lt, bounds, lt))
          ∙ zero_bytes-outside page_size 0 phys m b (ground arith))
    | inr no_bytes ↦ rw no_bytes (zero_bytes-outside page_size 0 phys m b (ground arith))
  ]
