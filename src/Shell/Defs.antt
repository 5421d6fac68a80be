-- ===== src/Shell/Defs.antt =====
-- The functions of user/app.c. A text is the list of the bytes in front of its NUL; what a program
-- does is the list of the system calls that it makes.
use Prim.Native.String.{String}
use riscvkernel_hit.Base.{
  ℕ, zero, suc, ◌+◌, ◌-◌, List, [], ◌∷◌, ◌++◌, Option, none, some, Bool, true, false, ◌==◌, ltb,
  ◌||◌, if◌then◌else◌, update,
}
use riscvkernel_hit.Printf.Defs.{codes}

-- The calls of the shell other than reads.
pub data Call : Type 0 where
  write : (c : ℕ) → Call
  yield : Call
  exit : (status : ℕ) → Call

abbrev pub input_max : ℕ
input_max = 128

unfoldable pub sys_putchar : ℕ → List Call
sys_putchar c = write c ∷ []

unfoldable pub sys_print : List ℕ → List Call
unfolding sys_putchar
sys_print [] = []
sys_print (c ∷ s) = sys_putchar c ++ sys_print s

unfoldable pub str_eq : List ℕ → List ℕ → Bool
str_eq [] [] = true
str_eq [] (y ∷ b) = false
str_eq (x ∷ a) [] = false
str_eq (x ∷ a) (y ∷ b) = if x == y then str_eq a b else false

unfoldable pub str_starts_with : List ℕ → List ℕ → Bool
str_starts_with s [] = true
str_starts_with [] (y ∷ prefix) = false
str_starts_with (x ∷ s) (y ∷ prefix) = if x == y then str_starts_with s prefix else false

unfoldable pub skip_spaces : List ℕ → List ℕ
skip_spaces [] = []
skip_spaces (c ∷ s) = if c == b' ' then skip_spaces s else c ∷ s

-- What a `sys_read` of one byte gives: a result of 0 or below, or 1 and the byte.
pub data Reading : Type 0 where
  failed : Reading
  got : (ch : ℕ) → Reading

-- The variables of `shell_read_line`, and the calls made so far.
pub record Line : Type 0 where
  pub len : ℕ
  pub buf : ℕ → ℕ
  pub calls : List Call

abbrev pub is_erase : ℕ → Bool
is_erase ch = ch == 8 || ch == 127

abbrev pub is_unprintable : ℕ → Bool
is_unprintable ch = ltb ch b' ' || ltb b'~' ch

-- The body of the loop of `shell_read_line` for a byte other than a line feed.
unfoldable pub type_key : ℕ → ℕ → Line → Line
unfolding sys_putchar sys_print
type_key cap ch l =
    if is_erase ch
    then (if ltb 0 l.len
        then record l { len = l.len - 1; calls = l.calls ++ sys_print (8 ∷ b' ' ∷ 8 ∷ []) }
        else l)
    else if is_unprintable ch
    then l
    else if ltb (l.len + 1) cap
    then record { len = l.len + 1; buf = update l.buf l.len ch; calls = l.calls ++ sys_putchar ch }
    else l

-- `sys_print("\n"); buf[len] = 0;`
unfoldable pub end_line : Line → Line
unfolding sys_print
end_line l = record l { buf = update l.buf l.len 0; calls = l.calls ++ sys_print (b'\n' ∷ []) }

-- The loop, on what the reads will give; `none` if they hold no line feed.
unfoldable pub read_keys : ℕ → List Reading → Line → Option (Line × List Reading)
unfolding type_key end_line
read_keys cap [] l = none
read_keys cap (failed ∷ later) l = read_keys cap later l
read_keys cap (got ch ∷ later) l =
    let rest = read_keys cap later (type_key cap ch l) in
    if ch == b'\n' then some (end_line l, later) else rest

unfoldable pub shell_read_line : (ℕ → ℕ) → ℕ → List Reading → Option (Line × List Reading)
unfolding read_keys
shell_read_line buf cap keys = read_keys cap keys (record { len = 0; buf = buf; calls = [] })

-- The text that a NUL in the array ends, of at most as many bytes as there are rounds.
unfoldable pub string_at : ℕ → (ℕ → ℕ) → ℕ → List ℕ
string_at zero buf i = []
string_at (suc left) buf i =
    let rest = string_at left buf (i + 1) in if buf i == 0 then [] else buf i ∷ rest

-- A command returns to the loop, or the program has ended.
pub data Outcome : Type 0 where
  returned : List Call → Outcome
  ended : List Call → Outcome

abbrev pub print : String → List Call
print s = sys_print (codes s)

-- `*line == 0`
unfoldable pub is_end : List ℕ → Bool
is_end [] = true
is_end (c ∷ s) = false

-- `line += n`
unfoldable pub behind : ℕ → List ℕ → List ℕ
behind zero s = s
behind (suc n) [] = []
behind (suc n) (c ∷ s) = behind n s

-- The part of `run_command` behind the leading spaces.
unfoldable pub run_trimmed : List ℕ → Outcome
unfolding sys_print str_eq str_starts_with skip_spaces is_end behind
run_trimmed line =
    if is_end line
    then returned []
    else if str_eq line (codes "help")
    then returned (print "Built-ins: help, echo, clear, yield, about, exit\n")
    else if str_starts_with line (codes "echo")
    then returned (sys_print (skip_spaces (behind 4 line)) ++ print "\n")
    else if str_eq line (codes "clear")
    then returned (print "\u{1b}[2J\u{1b}[H")
    else if str_eq line (codes "yield")
    then returned (print "yielding CPU...\n" ++ yield ∷ [])
    else if str_eq line (codes "about")
    then returned (print "GeminiOS shell running in user mode via execve().\n")
    else if str_eq line (codes "exit")
    then ended (print "bye.\n" ++ exit 0 ∷ [])
    else returned (print "unknown command: " ++ (sys_print line ++ print "\n"))

unfoldable pub run_command : List ℕ → Outcome
unfolding skip_spaces run_trimmed
run_command line = run_trimmed (skip_spaces line)

unfoldable pub shell_banner : List Call
shell_banner =
    print "\n============================================\n"
    ++ (print "  GeminiOS User Shell\n"
        ++ (print "  Type 'help' to list built-in commands.\n"
            ++ print "============================================\n\n"))

-- What a round of the loop of `_start` leaves: the calls in front of the command, what the command
-- does, the array, and the reads that are left.
pub record Round : Type 0 where
  pub asked : List Call
  pub outcome : Outcome
  pub buf : ℕ → ℕ
  pub later : List Reading

-- The round once the line is read.
unfoldable pub run_line : Option (Line × List Reading) → Option Round
unfolding string_at run_command
run_line none = none
run_line (some (l, later)) = some (record {
  asked = print "geminios> " ++ l.calls;
  outcome = run_command (string_at input_max l.buf 0);
  buf = l.buf;
  later = later;
})

unfoldable pub shell_round : (ℕ → ℕ) → List Reading → Option Round
unfolding shell_read_line run_line
shell_round buf keys = run_line (shell_read_line buf input_max keys)
