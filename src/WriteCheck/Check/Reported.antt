-- ===== src/WriteCheck/Check/Reported.antt =====
-- What `check_shared` of tools/src/pira_write_check/lib.rs reports: the matches that the search of
-- each marker meets, grouped line by line.
use mathlib.Core.List.{Perm}
use pira.Common.{
  ℕ, zero, suc, ◌+◌, ◌-◌, ◌≤◌, ◌<◌, ◌≡◌, true, false, List, [], ◌∷◌, ◌++◌, none, some, All,
  All-append, Bool-cases, Option-cases, inl, inr, arith, Text, Bytes, length,
}
use pira.Common.Utf8.{utf8, encode_char}
use pira.WriteCheck.Check.Sorted.{IsHit, sort_hits-Ascending, sort_hits-perm}
use pira.WriteCheck.Check.{
  Expressions, FindsBehind, next_char, first_len, is_whole, find_hits, all_hits, sort_hits,
  check_line, check_lines, check_shared,
}
use pira.WriteCheck.Groups.Overlap.{Grouping, group_hits-Grouping}
use pira.WriteCheck.Groups.{Cue, Hit, Warning, slice}
use pira.WriteCheck.Lines.Splits.{Splits, source_lines-Splits}
use pira.WriteCheck.Lines.{source_lines}

length-encode_char : (c : ℕ) → 1 ≤ length (encode_char c)
unfolding encode_char
length-encode_char c = ground arith

first_len_pos : (s : Bytes) → 1 ≤ first_len s
unfolding first_len
first_len_pos s = elim (Option-cases (next_char s)) [
  | inl e ↦ rw (first_len, e) (omega arith)
  | inr (c, e) ↦ rw (first_len, e) (length-encode_char c)
]

module _ (re : Expressions) (line : Bytes) where
  -- The search of a marker from an offset to the end of the line: the next match each time, looked
  -- for from the second character of the one before, and kept where it is a whole word.
  pub data Searched (cue : Cue) : ℕ → List Hit → Type 0 where
    done : {offset : ℕ} → re.find_at cue line offset ≡ none → Searched cue offset []
    kept :
        {offset : ℕ} {hits : List Hit} (a b : ℕ)
        → re.find_at cue line offset ≡ some (a, b)
        → is_whole re line a b ≡ true
        → Searched cue (a + first_len (slice line a (length line))) hits
        → Searched cue offset (record { start = a; end = b; cue = cue } ∷ hits)
    passed :
        {offset : ℕ} {hits : List Hit} (a b : ℕ)
        → re.find_at cue line offset ≡ some (a, b)
        → is_whole re line a b ≡ false
        → Searched cue (a + first_len (slice line a (length line))) hits
        → Searched cue offset hits

  -- The searches of all markers, from the start of the line.
  pub data SearchedAll : List Cue → List Hit → Type 0 where
    no_cue : SearchedAll [] []
    next_cue :
        {cue : Cue} {cues : List Cue} {hits rest : List Hit}
        → Searched cue 0 hits
        → SearchedAll cues rest
        → SearchedAll (cue ∷ cues) (hits ++ rest)

  module _ (behind : FindsBehind re) where
    find_hits-Searched :
        (fuel : ℕ) (cue : Cue) (offset : ℕ)
        → length line - offset < fuel
        → Searched cue offset (find_hits re fuel cue line offset)
    unfolding find_hits
    find_hits-Searched zero cue offset p = elim p [ ]
    find_hits-Searched (suc fuel) cue offset p = elim (Option-cases (re.find_at cue line offset)) [
      | inl e ↦ rw (find_hits, e) (done e)
      | inr ((a, b), e) ↦
          let s = behind.sound cue line offset a b e in
          let one = first_len_pos (slice line a (length line)) in
          let rest =
            find_hits-Searched fuel cue (a + first_len (slice line a (length line)))
              (omega arith) in
          elim (Bool-cases (is_whole re line a b)) [
            | inl t ↦ rw (find_hits, e, t) (kept a b e t rest)
            | inr t ↦ rw (find_hits, e, t) (passed a b e t rest)
          ]
    ]

    all_hits-SearchedAll : (cues : List Cue) → SearchedAll cues (all_hits re cues line)
    unfolding all_hits
    all_hits-SearchedAll [] = no_cue
    all_hits-SearchedAll (cue ∷ cues) =
        next_cue (find_hits-Searched (length line + 1) cue 0 (omega arith))
          (all_hits-SearchedAll cues)

    Searched-hits :
        {cue : Cue} {offset : ℕ} {hits : List Hit} → Searched cue offset hits → All IsHit hits
    Searched-hits (done e) = tt
    Searched-hits {cue} {offset} (kept a b e w s) =
        ((behind.sound cue line offset a b e).1, Searched-hits s)
    Searched-hits (passed a b e w s) = Searched-hits s

    SearchedAll-hits : {cues : List Cue} {hits : List Hit} → SearchedAll cues hits → All IsHit hits
    SearchedAll-hits no_cue = tt
    SearchedAll-hits (next_cue {hits} {rest} s r) =
        All-append IsHit hits rest (Searched-hits s) (SearchedAll-hits r)

module _ (re : Expressions) (cues : List Cue) (path : Text) where
  -- The warnings of a line: its matches, whatever the order the searches met them in, grouped.
  pub data LineReported (index : ℕ) (line : Bytes) : List Warning → Type 0 where
    of_hits :
        {e : ℕ} {found hits : List Hit} {warnings : List Warning}
        → SearchedAll re line cues found
        → Perm hits found
        → Grouping path index line e warnings hits
        → LineReported index line warnings

  -- The warnings of the lines, the first of which has the number `index`.
  pub data LinesReported : ℕ → List Text → List Warning → Type 0 where
    no_line : {index : ℕ} → LinesReported index [] []
    next_line :
        {index : ℕ} {line : Text} {lines : List Text} {warnings rest : List Warning}
        → LineReported index (utf8 line) warnings
        → LinesReported (index + 1) lines rest
        → LinesReported index (line ∷ lines) (warnings ++ rest)

  module _ (behind : FindsBehind re) where
    check_line-LineReported :
        (index : ℕ) (line : Bytes) → LineReported index line (check_line re cues path index line)
    unfolding check_line
    check_line-LineReported index line =
        let found = all_hits re cues line in
        let searched = all_hits-SearchedAll re line behind cues in
        let ascending = sort_hits-Ascending found (SearchedAll-hits re line behind searched) in
        of_hits searched (sort_hits-perm found)
          (group_hits-Grouping path index line (sort_hits found) ascending).1

    check_lines-LinesReported :
        (index : ℕ) (lines : List Text)
        → LinesReported index lines (check_lines re cues path index lines)
    unfolding check_lines
    check_lines-LinesReported index [] = no_line
    check_lines-LinesReported index (line ∷ lines) =
        next_line (check_line-LineReported index (utf8 line))
          (check_lines-LinesReported (index + 1) lines)

    -- For expressions whose matches are not empty and lie in the line at the offset or behind it:
    -- a text splits into lines at its line breaks such that the warnings are, line by line, the
    -- groups of overlapping matches of the markers, and no match that is a whole word is lost.
    pub check_shared-LinesReported :
        (text : Text)
        → (lines : List Text) × Splits text lines
          × LinesReported 0 lines (check_shared re cues path text)
    unfolding check_shared
    check_shared-LinesReported text = (
      source_lines text,
      source_lines-Splits text,
      check_lines-LinesReported 0 (source_lines text),
    )
