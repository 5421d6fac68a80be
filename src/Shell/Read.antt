-- ===== src/Shell/Read.antt =====
-- `shell_read_line` returns the edited text, and stays inside its array.
use riscvkernel_hit.Base.{
  ℕ, ◌+◌, ◌-◌, ◌≤◌, ◌<◌, ◌≡◌, refl, List, [], ◌∷◌, ◌++◌, some, true, false, ltb, arith, update,
  length, All, Bool-cases, inl, inr,
}
use riscvkernel_hit.Shell.Defs.{
  Reading, failed, got, Line, is_erase, is_unprintable, type_key, end_line, read_keys,
  shell_read_line,
}
use riscvkernel_hit.Shell.Line.{
  drop_last, edit_key, edited, is_newline, Shows, Printable, Edits, length-drop_last,
  Shows-drop_last, Printable-drop_last, length-snoc, Printable-snoc, Shows-snoc, Shows-update,
}

module _ (cap : ℕ) (buf : ℕ → ℕ) where
  -- An erase key on a line that is not empty.
  erase-Edits :
      (l l' : Line) (text : List ℕ)
      → Edits cap buf l text
      → l'.len ≡ l.len - 1
      → l'.buf ≡ l.buf
      → Edits cap buf l' (drop_last text)
  erase-Edits l l' text e len same = record {
    len = omega (arith, len, e.len, length-drop_last text);
    shows = rw same (Shows-drop_last l.buf 0 text e.shows);
    room = omega (arith, length-drop_last text, e.room);
    printable = Printable-drop_last text e.printable;
    beyond = rw same e.beyond;
  }

  append-Edits :
      (l : Line) (text : List ℕ) (ch : ℕ) (l' : Line)
      → Edits cap buf l text
      → l.len + 1 < cap
      → is_unprintable ch ≡ false
      → l'.len ≡ l.len + 1
      → l'.buf ≡ update l.buf l.len ch
      → Edits cap buf l' (text ++ ch ∷ [])
  append-Edits l text ch l' e low shown len same = record {
    len = omega (arith, len, e.len, length-snoc text ch);
    shows = rw same (Shows-snoc l.buf 0 text ch l.len e.shows (omega (arith, e.len)));
    room = omega (arith, e.len, length-snoc text ch);
    printable = Printable-snoc text ch e.printable shown;
    beyond = λ i h. rw same (ground (arith, e.beyond i h));
  }

  type_key-Edits :
      (ch : ℕ) (l : Line) (text : List ℕ)
      → Edits cap buf l text
      → Edits cap buf (type_key cap ch l) (edit_key cap ch text)
  unfolding type_key edit_key
  type_key-Edits ch l text e = elim (Bool-cases (is_erase ch)) [
    | inl erase ↦ elim (Bool-cases (ltb 0 l.len)) [
      | inl some_text ↦ rw (erase, some_text) (erase-Edits l _ text e refl refl)
      | inr empty ↦ rw (erase, empty) (erase-Edits l l text e (ground arith) refl)
    ]
    | inr other ↦ elim (Bool-cases (is_unprintable ch)) [
      | inl ignored ↦ rw (other, ignored) e
      | inr shown ↦ elim (Bool-cases (ltb (l.len + 1) cap)) [
        | inl low ↦
            let low' : ltb (length text + 1) cap ≡ true = rw (← e.len) low in
            rw (other, shown, low, low') (append-Edits l text ch _ e (ground arith) shown refl refl)
        | inr full ↦
            let full' : ltb (length text + 1) cap ≡ false = rw (← e.len) full in
            rw (other, shown, full, full') e
      ]
    ]
  ]

  read_keys-Edits :
      (before later : List Reading) (l : Line) (text : List ℕ)
      → All (λ r. is_newline r ≡ false) before
      → Edits cap buf l text
      → (l' : Line) × (read_keys cap (before ++ got b'\n' ∷ later) l ≡ some (end_line l', later))
        × Edits cap buf l' (edited cap before text)
  unfolding read_keys edited
  read_keys-Edits [] later l text plain e = (l, refl, e)
  read_keys-Edits (failed ∷ before) later l text plain e =
      read_keys-Edits before later l text plain.1 e
  read_keys-Edits (got ch ∷ before) later l text plain e =
      let (l', returns, e') =
        read_keys-Edits before later (type_key cap ch l) (edit_key cap ch text) plain.1
          (type_key-Edits ch l text e) in
      (l', rw (plain.0, read_keys) returns, e')

  -- For an array of at least one byte, and reads that give a line feed in the end, with failures
  -- and any other bytes in front of it, `shell_read_line` returns. The line has room for its NUL
  -- in an array of `cap` bytes, is the text that a line editor makes of those bytes, stands in the
  -- array with the NUL behind it, and consists of printable bytes; the array is unchanged from
  -- `cap` on, and no later read is made.
  pub shell_read_line-edited :
      (before later : List Reading)
      → 0 < cap
      → All (λ r. is_newline r ≡ false) before
      → let text = edited cap before [] in
        (l : Line) × (shell_read_line buf cap (before ++ got b'\n' ∷ later) ≡ some (l, later))
        × (l.len ≡ length text)
        × (length text < cap)
        × Shows l.buf 0 text
        × (l.buf (length text) ≡ 0)
        × Printable text
        × ((i : ℕ) → cap ≤ i → l.buf i ≡ buf i)
  unfolding shell_read_line end_line
  shell_read_line-edited before later positive plain =
      let text : List ℕ = edited cap before [] in
      let fresh : Line = record { len = 0; buf = buf; calls = [] } in
      let (l, returns, e) = read_keys-Edits before later fresh [] plain (record {
        len = refl;
        shows = tt;
        room = positive;
        printable = tt;
        beyond = λ i h. refl;
      }) in
      (
        end_line l,
        returns,
        e.len,
        e.room,
        Shows-update l.buf 0 text 0 l.len e.shows (omega (arith, e.len)),
        ground (arith, e.len),
        e.printable,
        λ i h. ground (arith, e.len, e.room, e.beyond i h),
      )
