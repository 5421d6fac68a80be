-- ===== src/Tests/Images.antt =====
-- A small executable with one loadable segment, and a segment at an alias of the user stack.
use riscvkernel_hit.Base.{ℕ, ◌+◌, ◌*◌, ◌^◌, ◌≡◌, refl, [], ◌∷◌, ◌-◌, arith, ◌==◌, if◌then◌else◌}
use riscvkernel_hit.Memory.Laws.{IsBytes}
use riscvkernel_hit.Kernel.Defs.{ok}
use riscvkernel_hit.Task.Process.{user_stack_page_va}
use riscvkernel_hit.Exec.Elf.{Image, Phdr, read_ehdr}
use riscvkernel_hit.Exec.Validate.{
  Verdict, check_segment, check_segments, phdrs, validate_exec_image,
}
use riscvkernel_hit.Exec.Accept.{Accepted, validate_exec_image-Accepted}
use riscvkernel_hit.Exec.Load.{load_segment}
use riscvkernel_hit.Exec.Top.{check_segment-misses_top}
use riscvkernel_hit.Tests.States.{kernel, zeroes, page_a}

-- The bytes that are not 0: the entry point 0x10000, one program header at 64, and in it a segment
-- of 120 bytes in the file and two pages in memory from 0x10000 on.
abbrev pub hello_bytes : ℕ → ℕ
hello_bytes n =
    if n == 26
    then 1
    else if n == 32
    then 64
    else if n == 54
    then 56
    else if n == 56
    then 1
    else if n == 64
    then 1
    else if n == 68
    then 5
    else if n == 82
    then 1
    else if n == 96
    then 120
    else if n == 105
    then 0x20
    else if n == 113
    then 0x10
    else 0

abbrev pub hello : Image
hello = record { bytes = hello_bytes; len = 120 }

pub hello_bytes-IsBytes : IsBytes hello_bytes
hello_bytes-IsBytes a = ground arith

pub hello_is_fine : validate_exec_image hello ≡ Verdict.fine
unfolding validate_exec_image read_ehdr check_segments phdrs
hello_is_fine = refl

-- Cut off by one byte, the program header table is refused.
cut_off : validate_exec_image (record hello { len = 119 }) ≡ Verdict.table_out_of_range
unfolding validate_exec_image read_ehdr
cut_off = refl

validate_exec_image-Accepted_example : Accepted hello
validate_exec_image-Accepted_example =
    validate_exec_image-Accepted hello hello_bytes-IsBytes hello_is_fine

abbrev alias_phdr : Phdr
alias_phdr = record {
  p_type = 1;
  p_flags = 6;
  p_offset = 0;
  p_vaddr = user_stack_page_va + 1 * 2 ^ 39;
  p_paddr = 0;
  p_filesz = 120;
  p_memsz = 0x1000;
  p_align = 0;
}

-- The last page of the address space but its last byte, twice in the program headers.
abbrev top_phdr : Phdr
top_phdr = record {
  p_type = 1;
  p_flags = 6;
  p_offset = 0;
  p_vaddr = 2 ^ 64 - 0x1000;
  p_paddr = 0;
  p_filesz = 120;
  p_memsz = 0xFFF;
  p_align = 0;
}

check_segment-misses_top_example :
    (check_segment hello top_phdr (top_phdr ∷ []) ≡ Verdict.fine)
    × (load_segment hello page_a top_phdr (kernel zeroes 0) ≡ ok tt (kernel zeroes 0))
check_segment-misses_top_example =
    check_segment-misses_top hello top_phdr (top_phdr ∷ []) page_a (kernel zeroes 0) (omega arith)
      (omega arith) (omega arith) (omega arith) (omega arith) (omega arith) refl
