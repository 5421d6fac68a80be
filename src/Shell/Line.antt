-- ===== src/Shell/Line.antt =====
-- `shell_read_line` against line editing on lists: what the user typed, and where it is stored.
use riscvkernel_hit.Base.{
  ℕ, ◌+◌, ◌-◌, ◌≤◌, ◌<◌, ◌≡◌, refl, List, [], ◌∷◌, ◌++◌, Bool, false, ◌==◌, ltb, arith,
  if◌then◌else◌, update, length, All,
}
use riscvkernel_hit.Shell.Defs.{Reading, failed, got, Line, is_erase, is_unprintable}

unfoldable pub drop_last : List ℕ → List ℕ
drop_last [] = []
drop_last (c ∷ []) = []
drop_last (c ∷ d ∷ s) = c ∷ drop_last (d ∷ s)

-- A line editor on a text: the erase keys take the last byte away, printable bytes are appended
-- while there is room for them and a NUL, all others are ignored.
unfoldable pub edit_key : ℕ → ℕ → List ℕ → List ℕ
unfolding drop_last
edit_key cap ch text =
    if is_erase ch
    then drop_last text
    else if is_unprintable ch
    then text
    else if ltb (length text + 1) cap
    then text ++ ch ∷ []
    else text

-- The text after a series of reads.
unfoldable pub edited : ℕ → List Reading → List ℕ → List ℕ
edited cap [] text = text
edited cap (failed ∷ later) text = edited cap later text
edited cap (got ch ∷ later) text = edited cap later (edit_key cap ch text)

abbrev pub is_newline : Reading → Bool
is_newline failed = false
is_newline (got ch) = ch == b'\n'

-- The array holds the text from index `i` on.
abbrev pub Shows : (ℕ → ℕ) → ℕ → List ℕ → Type 0
Shows buf i [] = Unit
Shows buf i (c ∷ s) = (buf i ≡ c) × Shows buf (i + 1) s

abbrev pub Printable : List ℕ → Type 0
Printable text = All (λ c. is_unprintable c ≡ false) text

pub length-drop_last : (s : List ℕ) → length (drop_last s) ≡ length s - 1
unfolding drop_last
length-drop_last [] = refl
length-drop_last (c ∷ []) = refl
length-drop_last (c ∷ d ∷ s) = ground (arith, length-drop_last (d ∷ s))

pub Shows-drop_last : (buf : ℕ → ℕ) (i : ℕ) (s : List ℕ) → Shows buf i s → Shows buf i (drop_last s)
unfolding drop_last
Shows-drop_last buf i [] h = tt
Shows-drop_last buf i (c ∷ []) h = tt
Shows-drop_last buf i (c ∷ d ∷ s) h = (h.0, Shows-drop_last buf (i + 1) (d ∷ s) h.1)

pub Printable-drop_last : (s : List ℕ) → Printable s → Printable (drop_last s)
unfolding drop_last
Printable-drop_last [] h = tt
Printable-drop_last (c ∷ []) h = tt
Printable-drop_last (c ∷ d ∷ s) h = (h.0, Printable-drop_last (d ∷ s) h.1)

pub length-snoc : (s : List ℕ) (c : ℕ) → length (s ++ c ∷ []) ≡ length s + 1
length-snoc [] c = refl
length-snoc (d ∷ s) c = ground (arith, length-snoc s c)

pub Printable-snoc :
    (s : List ℕ) (c : ℕ) → Printable s → is_unprintable c ≡ false → Printable (s ++ c ∷ [])
Printable-snoc [] c h p = (p, tt)
Printable-snoc (d ∷ s) c h p = (h.0, Printable-snoc s c h.1 p)

-- A byte written behind the text.
pub Shows-snoc :
    (buf : ℕ → ℕ) (i : ℕ) (s : List ℕ) (c k : ℕ)
    → Shows buf i s
    → k ≡ i + length s
    → Shows (update buf k c) i (s ++ c ∷ [])
Shows-snoc buf i [] c k h e = (ground arith, tt)
Shows-snoc buf i (d ∷ s) c k h e =
    (ground (arith, h.0), Shows-snoc buf (i + 1) s c k h.1 (omega (arith, e)))

pub Shows-update :
    (buf : ℕ → ℕ) (i : ℕ) (s : List ℕ) (c k : ℕ)
    → Shows buf i s
    → i + length s ≤ k
    → Shows (update buf k c) i s
Shows-update buf i [] c k h low = tt
Shows-update buf i (d ∷ s) c k h low =
    (ground (arith, h.0), Shows-update buf (i + 1) s c k h.1 (omega (arith, low)))

-- The variables of the loop stand for a text, and `buf` has changed only below `cap`.
pub record Edits (cap : ℕ) (buf : ℕ → ℕ) (l : Line) (text : List ℕ) : Type 0 where
  pub len : l.len ≡ length text
  pub shows : Shows l.buf 0 text
  pub room : length text < cap
  pub printable : Printable text
  pub beyond : (i : ℕ) → cap ≤ i → l.buf i ≡ buf i
