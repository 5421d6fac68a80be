-- ===== src/Exec/Elf.antt =====
-- kernel/elf.h: the headers of an ELF image, read from its bytes.
use riscvkernel_hit.Base.{ℕ, ◌+◌, ◌*◌, ◌^◌}
use riscvkernel_hit.Memory.Defs.{read64}

-- `app_elf` and `app_elf_len` of the generated file user/app_bin.h.
pub record Image : Type 0 where
  pub bytes : ℕ → ℕ
  pub len : ℕ

-- A little-endian field of two or four bytes.
unfoldable pub read16 : (ℕ → ℕ) → ℕ → ℕ
read16 m a = m a + 2 ^ 8 * m (a + 1)

unfoldable pub read32 : (ℕ → ℕ) → ℕ → ℕ
read32 m a = m a + 2 ^ 8 * m (a + 1) + 2 ^ 16 * m (a + 2) + 2 ^ 24 * m (a + 3)

-- `Elf64_Ehdr`, the fields that the kernel reads; `ident` are its first four bytes.
pub record Ehdr : Type 0 where
  pub ident0 : ℕ
  pub ident1 : ℕ
  pub ident2 : ℕ
  pub ident3 : ℕ
  pub e_entry : ℕ
  pub e_phoff : ℕ
  pub e_phentsize : ℕ
  pub e_phnum : ℕ

abbrev pub sizeof_ehdr : ℕ
sizeof_ehdr = 64

unfoldable pub read_ehdr : Image → Ehdr
unfolding read16 read64
read_ehdr app = record {
  ident0 = app.bytes 0;
  ident1 = app.bytes 1;
  ident2 = app.bytes 2;
  ident3 = app.bytes 3;
  e_entry = read64 app.bytes 24;
  e_phoff = read64 app.bytes 32;
  e_phentsize = read16 app.bytes 54;
  e_phnum = read16 app.bytes 56;
}

-- `Elf64_Phdr`
pub record Phdr : Type 0 where
  pub p_type : ℕ
  pub p_flags : ℕ
  pub p_offset : ℕ
  pub p_vaddr : ℕ
  pub p_paddr : ℕ
  pub p_filesz : ℕ
  pub p_memsz : ℕ
  pub p_align : ℕ

abbrev pub sizeof_phdr : ℕ
sizeof_phdr = 56

-- The header at an offset of the image.
unfoldable pub read_phdr : Image → ℕ → Phdr
unfolding read32 read64
read_phdr app a = record {
  p_type = read32 app.bytes a;
  p_flags = read32 app.bytes (a + 4);
  p_offset = read64 app.bytes (a + 8);
  p_vaddr = read64 app.bytes (a + 16);
  p_paddr = read64 app.bytes (a + 24);
  p_filesz = read64 app.bytes (a + 32);
  p_memsz = read64 app.bytes (a + 40);
  p_align = read64 app.bytes (a + 48);
}

-- `phdr[i]` for `phdr = (Elf64_Phdr *)(app_elf + ehdr->e_phoff)`
unfoldable pub phdr_at : Image → ℕ → Phdr
unfolding read_ehdr read_phdr
phdr_at app i = read_phdr app ((read_ehdr app).e_phoff + sizeof_phdr * i)
