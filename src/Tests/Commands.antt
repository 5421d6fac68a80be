-- ===== src/Tests/Commands.antt =====
-- The user types a command with a typing error, corrects it, and presses return.
use riscvkernel_hit.Base.{
  ℕ, ◌≤◌, ◌<◌, ◌≡◌, ◌↔◌, refl, List, [], ◌∷◌, ◌++◌, some, true, arith, length,
}
use riscvkernel_hit.Printf.Defs.{codes}
use riscvkernel_hit.Shell.Defs.{
  Reading, failed, got, Line, Round, input_max, str_eq, str_starts_with, skip_spaces, run_command,
  shell_read_line, shell_round,
}
use riscvkernel_hit.Shell.Strings.{str_eq_iff, str_starts_with_iff}
use riscvkernel_hit.Shell.Line.{edited, edit_key, drop_last, Shows, Printable}
use riscvkernel_hit.Shell.Read.{shell_read_line-edited}
use riscvkernel_hit.Shell.Commands.{has_ended, run_command-ends_iff}
use riscvkernel_hit.Shell.Round.{shell_round-runs}

-- "exot", two erase keys, "it", with a read that fails in between.
abbrev keys : List Reading
keys =
    got b'e' ∷ got b'x' ∷ failed ∷ got b'o' ∷ got b't' ∷ got 127 ∷ got 8 ∷ got b'i' ∷ got b't' ∷ []

abbrev blank : ℕ → ℕ
blank _ = 0

edits_to_exit : edited 128 keys [] ≡ codes "exit"
unfolding edited edit_key drop_last
edits_to_exit = refl

shell_read_line-edited_example :
    (l : Line) × (shell_read_line blank 128 (keys ++ got b'\n' ∷ []) ≡ some (l, []))
    × (l.len ≡ length (edited 128 keys []))
    × (length (edited 128 keys []) < 128)
    × Shows l.buf 0 (edited 128 keys [])
    × (l.buf (length (edited 128 keys [])) ≡ 0)
    × Printable (edited 128 keys [])
    × ((i : ℕ) → 128 ≤ i → l.buf i ≡ blank i)
shell_read_line-edited_example =
    shell_read_line-edited 128 blank keys [] (omega arith)
      (refl, (refl, (refl, (refl, (refl, (refl, (refl, (refl, (refl, tt)))))))))

shell_round-runs_example :
    (r : Round) × (shell_round blank (keys ++ got b'\n' ∷ []) ≡ some r)
    × (r.outcome ≡ run_command (edited input_max keys []))
    × (r.later ≡ [])
shell_round-runs_example =
    shell_round-runs blank keys []
      (refl, (refl, (refl, (refl, (refl, (refl, (refl, (refl, (refl, tt)))))))))

str_eq_iff_example : (str_eq (codes "help") (codes "held") ≡ true) ↔ (codes "help" ≡ codes "held")
str_eq_iff_example = str_eq_iff (codes "help") (codes "held")

str_starts_with_iff_example :
    (str_starts_with (codes "echo hi") (codes "echo") ≡ true)
    ↔ ((rest : List ℕ) × (codes "echo hi" ≡ codes "echo" ++ rest))
str_starts_with_iff_example = str_starts_with_iff (codes "echo hi") (codes "echo")

run_command-ends_iff_example :
    (has_ended (run_command (codes "  exit")) ≡ true)
    ↔ (skip_spaces (codes "  exit") ≡ codes "exit")
run_command-ends_iff_example = run_command-ends_iff (codes "  exit")
