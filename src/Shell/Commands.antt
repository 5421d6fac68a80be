-- ===== src/Shell/Commands.antt =====
-- Which lines end the shell.
use riscvkernel_hit.Base.{ℕ, ◌≡◌, ◌↔◌, refl, List, Bool, true, false, arith, if◌then◌else◌}
use riscvkernel_hit.Printf.Defs.{codes}
use riscvkernel_hit.Shell.Defs.{
  Call, Outcome, returned, ended, str_eq, str_starts_with, skip_spaces, is_end, run_trimmed,
  run_command,
}
use riscvkernel_hit.Shell.Strings.{str_eq_sound}

abbrev pub has_ended : Outcome → Bool
has_ended (returned _) = false
has_ended (ended _) = true

-- The shape of `run_trimmed`: only the seventh test leads to an end.
only_seventh :
    (b₁ b₂ b₃ b₄ b₅ b₆ b₇ : Bool) (o₁ o₂ o₃ o₄ o₅ o₆ o₇ o₈ : List Call)
    → has_ended (
        if b₁
        then returned o₁
        else if b₂
        then returned o₂
        else if b₃
        then returned o₃
        else if b₄
        then returned o₄
        else if b₅
        then returned o₅
        else if b₆
        then returned o₆
        else if b₇
        then ended o₇
        else returned o₈)
      ≡ true
    → b₇ ≡ true
only_seventh b₁ b₂ b₃ b₄ b₅ b₆ true o₁ o₂ o₃ o₄ o₅ o₆ o₇ o₈ h = refl
only_seventh b₁ b₂ b₃ b₄ b₅ b₆ false o₁ o₂ o₃ o₄ o₅ o₆ o₇ o₈ h = absurd (ground arith)

ended-exit :
    (line : List ℕ) → has_ended (run_trimmed line) ≡ true → str_eq line (codes "exit") ≡ true
unfolding run_trimmed
ended-exit line h =
    only_seventh (is_end line) (str_eq line (codes "help")) (str_starts_with line (codes "echo"))
      (str_eq line (codes "clear")) (str_eq line (codes "yield")) (str_eq line (codes "about"))
      (str_eq line (codes "exit")) _ _ _ _ _ _ _ _ h

exit-ended : has_ended (run_trimmed (codes "exit")) ≡ true
unfolding run_trimmed is_end str_eq str_starts_with
exit-ended = refl

-- A command ends the shell exactly if it is the word exit behind any number of spaces.
pub run_command-ends_iff :
    (line : List ℕ) → (has_ended (run_command line) ≡ true) ↔ (skip_spaces line ≡ codes "exit")
unfolding run_command
run_command-ends_iff line = (
  λ h. str_eq_sound (skip_spaces line) (codes "exit") (ended-exit (skip_spaces line) h),
  λ e. rw e exit-ended,
)
