-- ===== src/WriteCheck/Lines/Splits.antt =====
-- `source_lines` cuts a text exactly at its line breaks.
use pira.Common.{
  ℕ, Bool, true, false, ◌&&◌, List, [], ◌∷◌, ◌++◌, ◌≡◌, ◌≢◌, refl, ◌==◌, Text, All, All-append,
  arith, Bool-cases, inl, inr, append-nil, append_assoc, if◌then◌else◌,
}
use pira.WriteCheck.Lines.{line_break, last_line, lines_from, source_lines}

-- A run of characters with no line break among them.
abbrev pub IsLine : Text → Type 0
IsLine = All (λ c. line_break c ≡ false)

abbrev head_is : ℕ → Text → Bool
head_is c [] = false
head_is c (d ∷ _) = d == c

-- What ends a line that the given rest follows: one line break, and the line feed behind a carriage
-- return belongs to it.
pub data IsBreak : Text → Text → Type 0 where
  single :
      {c : ℕ} {rest : Text}
      → line_break c ≡ true
      → (c == 0xD && head_is 0xA rest) ≡ false
      → IsBreak (c ∷ []) rest
  crlf : {rest : Text} → IsBreak (0xD ∷ 0xA ∷ []) rest

-- The lines of a text, by its grammar.
pub data Splits : Text → List Text → Type 0 where
  nothing : Splits [] []
  unended : {line : Text} → IsLine line → line ≢ [] → Splits line (line ∷ [])
  ended :
      {text line end rest : Text} {lines : List Text}
      → IsLine line
      → IsBreak end rest
      → text ≡ line ++ (end ++ rest)
      → Splits rest lines
      → Splits text (line ∷ lines)

last_line-Splits : (line : Text) → IsLine line → Splits line (last_line line)
last_line-Splits [] h = nothing
last_line-Splits (c ∷ line) h = unended h (λ e. cc)

abbrev skip_lf : Bool → Text → Text
skip_lf true (c ∷ text) = if c == 0xA then text else c ∷ text
skip_lf true [] = []
skip_lf false text = text

skip_lf-false :
    (c : ℕ) (text : Text) → (c == 0xD && head_is 0xA text) ≡ false → skip_lf (c == 0xD) text ≡ text
skip_lf-false c [] h = elim (Bool-cases (c == 0xD)) [ inl p ↦ rw p refl | inr p ↦ rw p refl ]
skip_lf-false c (d ∷ text) h = ground arith

skip_lf-true :
    (c d : ℕ) (text : Text) → (c == 0xD && d == 0xA) ≡ true → skip_lf (c == 0xD) (d ∷ text) ≡ text
skip_lf-true c d text h = ground arith

-- The break at `c`, with the line feed behind it if `c` is a carriage return.
cut-Splits :
    (line text : Text) (c : ℕ) (lines : List Text)
    → IsLine line
    → line_break c ≡ true
    → Splits (skip_lf (c == 0xD) text) lines
    → Splits (line ++ c ∷ text) (line ∷ lines)
cut-Splits line [] c lines h b s =
    let plain : (c == 0xD && head_is 0xA []) ≡ false = ground arith in
    ended h (single b plain) refl (rw (skip_lf-false c [] plain) at s)
cut-Splits line (d ∷ text) c lines h b s = elim (Bool-cases (c == 0xD && d == 0xA)) [
  | inl p ↦
      let cr : c ≡ 0xD = ground arith in
      let lf : d ≡ 0xA = ground arith in
      rw (cr, lf) (ended h crlf refl (rw (skip_lf-true c d text p) at s))
  | inr p ↦ ended h (single b p) refl (rw (skip_lf-false c (d ∷ text) p) at s)
]

lines_from-Splits :
    (cr : Bool) (line text : Text)
    → (cr ≡ true → line ≡ [])
    → IsLine line
    → Splits (line ++ skip_lf cr text) (lines_from cr line text)
unfolding lines_from
lines_from-Splits true line [] e h = rw append-nil (last_line-Splits line h)
lines_from-Splits false line [] e h = rw append-nil (last_line-Splits line h)
lines_from-Splits cr line (c ∷ text) e h = elim (Bool-cases (cr && c == 0xA)) [
  | inl p ↦
      let empty : line ≡ [] = e (ground arith) in
      let skipped : skip_lf cr (c ∷ text) ≡ text = ground arith in
      rw (p, skipped, empty, lines_from) (lines_from-Splits false [] text (λ _. refl) tt)
  | inr p ↦
      let kept : skip_lf cr (c ∷ text) ≡ c ∷ text = ground arith in
      elim (Bool-cases (line_break c)) [
        | inl b ↦
            rw (p, b, kept, lines_from)
              (cut-Splits line text c _ h b (lines_from-Splits (c == 0xD) [] text (λ _. refl) tt))
        | inr b ↦
            rw (p, b, kept, lines_from)
              (rw (← append_assoc line (c ∷ []) text) (
                lines_from-Splits false (line ++ c ∷ []) text (λ f. cc)
                  (All-append _ line (c ∷ []) h (b, tt))))
      ]
]

-- The lines of `source_lines` are those of the text: none holds a line break, none but the last may
-- lack one, and the breaks between them, with a carriage return and line feed as one, are all of
-- the text that the lines leave.
pub source_lines-Splits : (text : Text) → Splits text (source_lines text)
unfolding source_lines
source_lines-Splits text = lines_from-Splits false [] text (λ _. refl) tt
