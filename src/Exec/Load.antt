-- ===== src/Exec/Load.antt =====
-- `task_exec` of kernel/exec.c: building the new address space and dropping the old one.
use riscvkernel_hit.Base.{
  ℕ, zero, suc, ◌+◌, ◌-◌, ◌*◌, ◌/◌, ◌%◌, ◌^◌, bit_and, bit_or, List, [], ◌∷◌, Bool, true, false,
  ◌&&◌, ◌==◌, ltb, if◌then◌else◌, update,
}
use riscvkernel_hit.Memory.Defs.{Mem, zero_bytes}
use riscvkernel_hit.Printf.Defs.{word}
use riscvkernel_hit.Kernel.Defs.{
  Kernel, Layout, ok, out_of_fuel, Cmd, pure, gets, modify, current, set_task, ◌>>=◌, ◌>>◌,
}
use riscvkernel_hit.Kernel.Say.{say}
use riscvkernel_hit.Page.Defs.{page_size, alloc_page}
use riscvkernel_hit.Mmu.Pte.{pte_v, pte_r, pte_w, pte_x, pte_u, mmu_make_satp}
use riscvkernel_hit.Mmu.Defs.{store64, map_page}
use riscvkernel_hit.Mmu.Spaces.{free_user_page_table}
use riscvkernel_hit.Task.Frame.{tf_epc, tf_user_sp, trapframe_clear}
use riscvkernel_hit.Task.Process.{user_stack_top, map_user_stack}
use riscvkernel_hit.Exec.Elf.{Image, Ehdr, Phdr, read_ehdr}
use riscvkernel_hit.Exec.Validate.{
  Verdict, message, add64, sub64, is_load, seg_end, phdrs, validate_exec_image,
}

-- `if (phdr->p_flags & bit) flags |= pte;`
abbrev with_flag : ℕ → ℕ → ℕ → ℕ → ℕ
with_flag p_flags bit pte flags = if bit_and p_flags bit == 0 then flags else bit_or flags pte

-- `load_segment_flags`, with ELF_PF_R, ELF_PF_W and ELF_PF_X.
unfoldable pub load_segment_flags : Phdr → ℕ
load_segment_flags p =
    with_flag p.p_flags 0x1 pte_x
      (with_flag p.p_flags 0x2 pte_w (with_flag p.p_flags 0x4 pte_r (bit_or pte_u pte_v)))

-- `for (b = 0; b < n; b++) phys[to + b] = app_elf[from + b];` with the rounds left and `b`.
unfoldable pub copy_file : Image → ℕ → ℕ → ℕ → ℕ → Mem → Mem
copy_file app zero b to from m = m
copy_file app (suc left) b to from m =
    copy_file app left (b + 1) to from (update m (to + b) (app.bytes ((from + b) % 2 ^ 64)))

-- `copy_start` and `copy_end` for one page of a segment.
unfoldable pub copy_start : Phdr → ℕ → ℕ
copy_start p page = if ltb p.p_vaddr page then page else p.p_vaddr

unfoldable pub copy_end : Phdr → ℕ → ℕ
copy_end p page =
    let file_end = add64 p.p_vaddr p.p_filesz in
    if ltb (add64 page page_size) file_end then add64 page page_size else file_end

-- The bytes of one fresh page: cleared, then the part of the segment's file range that lies in it.
unfoldable pub fill_page : Image → Phdr → ℕ → ℕ → Mem → Mem
unfolding copy_file copy_start copy_end
fill_page app p page phys m =
    let cleared = zero_bytes page_size 0 phys m in
    let start = copy_start p page in
    let end = copy_end p page in
    if ltb start end
    then copy_file app (end - start) 0 (phys + bit_and start 0xFFF)
        (add64 p.p_offset (sub64 start p.p_vaddr)) cleared
    else cleared

abbrev fill : Image → Phdr → ℕ → ℕ → Kernel → Kernel
fill app p page phys s = record s { mem = fill_page app p page phys s.mem }

-- The loop over the pages of one segment, on fuel.
unfoldable pub load_pages : ℕ → Image → ℕ → Phdr → ℕ → ℕ → Cmd (Unit {0})
unfolding fill_page
load_pages zero app pgd p page end_page s = out_of_fuel
load_pages (suc fuel) app pgd p page end_page s = elim (ltb page end_page) [
  | true ↦
      (do
        phys ← alloc_page
        modify (fill app p page phys)
        map_page pgd page phys (load_segment_flags p)
        load_pages fuel app pgd p (page + page_size) end_page)
        s
  | false ↦ ok tt s
]

abbrev page_mask : ℕ → ℕ
page_mask a = bit_and a 0xFFFF_FFFF_FFFF_F000

-- One segment; the fuel is one more than its pages.
unfoldable pub load_segment : Image → ℕ → Phdr → Cmd (Unit {0})
unfolding load_pages
load_segment app pgd p =
    let start_page = page_mask p.p_vaddr in
    let end_page = page_mask (add64 (seg_end p) 0xFFF) in
    load_pages ((end_page - start_page) / page_size + 1) app pgd p start_page end_page

unfoldable pub load_segments : Image → ℕ → List Phdr → Cmd (Unit {0})
unfolding load_segment
load_segments app pgd [] = pure tt
load_segments app pgd (p ∷ later) =
    (if is_load p then load_segment app pgd p else pure tt) >> load_segments app pgd later

abbrev set_satp : ℕ → Kernel → Kernel
set_satp satp s = record s { cpu = record (s.cpu) { satp = satp } }

-- The part of `task_exec` that builds the new address space; the result is `new_pgd`.
unfoldable pub build_space : Image → Cmd ℕ
unfolding load_segments
build_space app = do
  new_pgd ← alloc_page
  new_stack_pa ← alloc_page
  map_user_stack new_pgd new_stack_pa
  load_segments app new_pgd (phdrs app)
  pure new_pgd

-- `task_exec` behind the checks: nothing can be refused any more.
unfoldable pub exec_image : Layout → Image → ℕ → ℕ → Cmd ℕ
unfolding build_space
exec_image l app tf old_pgd_pa = do
  let ehdr = read_ehdr app
  say "\n[KERNEL] Loading ELF... Entry point at 0x%x\n" (word ehdr.e_entry ∷ [])
  new_pgd ← build_space app
  modify (trapframe_clear tf)
  store64 (tf + tf_epc) ehdr.e_entry
  store64 (tf + tf_user_sp) user_stack_top
  id ← gets current
  own ← gets (λ s. s.tasks id)
  modify (set_task id (record own { satp = mmu_make_satp new_pgd }))
  modify (set_satp (mmu_make_satp new_pgd))
  free_user_page_table l old_pgd_pa
  pure ehdr.e_entry

-- `\x7fELF`
unfoldable pub is_elf : Ehdr → Bool
is_elf h = h.ident0 == 0x7f && h.ident1 == b'E' && h.ident2 == b'L' && h.ident3 == b'F'

-- A refused image: the message, and the return behind the `ecall`.
abbrev refuse : Verdict → ℕ → Cmd ℕ
refuse v epc = do say (message v) []; pure ((epc + 4) % 2 ^ 64)

unfoldable pub task_exec : Layout → Image → ℕ → ℕ → Cmd ℕ
unfolding is_elf
task_exec l app epc tf = do
  satp ← gets (λ s. (s.tasks (current s)).satp)
  let old_pgd_pa = bit_and satp 0xFFF_FFFF_FFFF * 2 ^ 12
  if is_elf (read_ehdr app)
      then elim (validate_exec_image app) [
        | Verdict.fine ↦ exec_image l app tf old_pgd_pa
        | bad ↦ refuse bad epc
      ]
      else do say "\n[KERNEL] Exec failed: Not a valid ELF file!\n" []; pure ((epc + 4) % 2 ^ 64)
