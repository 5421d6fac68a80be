-- ===== src/Shell/Round.antt =====
-- One round of the shell: the line that is read is the command that runs.
use riscvkernel_hit.Base.{
  ℕ, zero, suc, ◌+◌, ◌<◌, ◌≡◌, refl, List, [], ◌∷◌, ◌++◌, some, true, false, ◌==◌, arith, length,
  All,
}
use riscvkernel_hit.Shell.Defs.{
  Reading, got, Round, input_max, string_at, run_command, shell_round, print, run_line,
}
use riscvkernel_hit.Shell.Line.{edited, is_newline, Shows, Printable}
use riscvkernel_hit.Shell.Read.{shell_read_line-edited}

-- The text in front of the NUL is the text that was stored.
string_at-Shows :
    (left : ℕ) (buf : ℕ → ℕ) (i k : ℕ) (text : List ℕ)
    → Shows buf i text
    → Printable text
    → k ≡ i + length text
    → buf k ≡ 0
    → length text < left
    → string_at left buf i ≡ text
unfolding string_at
string_at-Shows zero buf i k text h p e nul low = absurd (omega arith)
string_at-Shows (suc left) buf i k [] h p e nul low =
    let here : k ≡ i = omega (arith, e) in
    let end : (buf i == 0) ≡ true = rw (← here) (ground (arith, nul)) in rw end
string_at-Shows (suc left) buf i k (c ∷ text) h p e nul low =
    let live : (buf i == 0) ≡ false = ground (arith, h.0, p.0) in
    let rest =
      string_at-Shows left buf (i + 1) k text h.1 p.1 (omega (arith, e)) nul (omega arith) in
    rw (live, string_at) (rw (rest, h.0))

-- On reads that give a line feed in the end, a round of the shell returns from reading, and runs
-- the command that a line editor for 127 bytes makes of the bytes in front of it.
pub shell_round-runs :
    (buf : ℕ → ℕ) (before later : List Reading)
    → All (λ r. is_newline r ≡ false) before
    → (r : Round) × (shell_round buf (before ++ got b'\n' ∷ later) ≡ some r)
      × (r.outcome ≡ run_command (edited input_max before []))
      × (r.later ≡ later)
unfolding shell_round run_line
shell_round-runs buf before later plain =
    let text : List ℕ = edited input_max before [] in
    let (l, returns, len, room, shows, nul, printable, rest) =
      shell_read_line-edited input_max buf before later (omega arith) plain in
    let command : string_at input_max l.buf 0 ≡ text =
      string_at-Shows input_max l.buf 0 (length text) text shows printable (omega arith) nul room in
    (
      record {
        asked = print "geminios> " ++ l.calls;
        outcome = run_command (string_at input_max l.buf 0);
        buf = l.buf;
        later = later;
      },
      rw returns,
      rw command,
      refl,
    )
