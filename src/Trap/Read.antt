-- ===== src/Trap/Read.antt =====
-- `do_sys_read`: one character from the serial line, and its refusals.
use riscvkernel_hit.Base.{
  ℕ, zero, suc, ◌+◌, ◌-◌, ◌%◌, ◌^◌, ◌≤◌, ◌<◌, ◌≡◌, ◌≢◌, ◌⊎◌, refl, ◌∙◌, List, ◌∷◌, true, false,
  arith, ◌==◌, ◌||◌, not, if◌then◌else◌, update,
}
use riscvkernel_hit.Memory.Defs.{Mem, read64, write64}
use riscvkernel_hit.Memory.Laws.{read64-write64_self, write64-outside}
use riscvkernel_hit.Kernel.Defs.{Kernel, ok}
use riscvkernel_hit.Mmu.Defs.{load64, store64}
use riscvkernel_hit.Task.Frame.{tf_a0, tf_a2}
use riscvkernel_hit.Trap.Defs.{read_loop, getc, do_sys_read}

-- The character as it is handed to the program: a carriage return becomes a line feed.
abbrev pub as_line : ℕ → ℕ
as_line c = if c == b'\r' then b'\n' else c

module _ (s : Kernel) (fd buf epc tf : ℕ) where
  abbrev pub count : ℕ
  count = read64 s.mem (tf + tf_a2)

  -- With descriptor 0, a buffer apart from the saved result, a positive count and a character to
  -- come, `do_sys_read` takes exactly that character whatever the count, stores it at `buf` taken
  -- as a physical address, sets the result to 1 and returns behind the `ecall`; no other memory
  -- changes and nothing else but the line.
  pub do_sys_read-one :
      (c : ℕ) (rest : List ℕ)
      → fd % 2 ^ 32 ≡ 0
      → buf ≢ 0
      → count ≢ 0
      → s.received ≡ c ∷ rest
      → (buf < tf + tf_a0) ⊎ (tf + tf_a0 + 8 ≤ buf)
      → (m : Mem) × (do_sys_read fd buf epc tf s
          ≡ ok ((epc + 4) % 2 ^ 64) (record s { mem = m; received = rest }))
        × (m buf ≡ as_line c)
        × (read64 m (tf + tf_a0) ≡ 1)
        × ((b : ℕ) → b ≢ buf → (b < tf + tf_a0) ⊎ (tf + tf_a0 + 8 ≤ b) → m b ≡ s.mem b)
  unfolding do_sys_read load64
  do_sys_read-one c rest zero_fd live some_count line apart =
      let stored : Mem = update s.mem buf (as_line c) in
      let passes : (not (fd % 2 ^ 32 == 0) || buf == 0 || count == 0) ≡ false = ground arith in
      (
        write64 stored (tf + tf_a0) 1,
        rw passes (loop count some_count),
        write64-outside stored (tf + tf_a0) 1 buf apart ∙ ground arith,
        read64-write64_self stored (tf + tf_a0) 1 (omega arith),
        λ b ne out. write64-outside stored (tf + tf_a0) 1 b out ∙ ground (arith, ne),
      )
    where
      loop :
          (n : ℕ)
          → n ≢ 0
          → read_loop n buf epc tf s
            ≡ ok ((epc + 4) % 2 ^ 64) (record s {
              mem = write64 (update s.mem buf (as_line c)) (tf + tf_a0) 1;
              received = rest;
            })
      loop zero ne = absurd (ne refl)
      loop (suc n) ne = unfold read_loop store64 in rw (line, getc)

  -- With another descriptor, a null buffer or a zero count it returns -1 at once: it waits for no
  -- character, and changes nothing but the result.
  pub do_sys_read-refused :
      (fd % 2 ^ 32 ≢ 0) ⊎ ((buf ≡ 0) ⊎ (count ≡ 0))
      → do_sys_read fd buf epc tf s
        ≡ ok ((epc + 4) % 2 ^ 64) (record s { mem = write64 s.mem (tf + tf_a0) (2 ^ 64 - 1) })
  unfolding do_sys_read load64 store64
  do_sys_read-refused why =
      let stops : (not (fd % 2 ^ 32 == 0) || buf == 0 || count == 0) ≡ true = ground arith in
      rw stops
