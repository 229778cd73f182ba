-- ===== src/WriteCheck/Check.antt =====
-- `check_shared` of tools/src/pira_write_check/lib.rs: the hits of each marker in a line, sorted and
-- grouped, over the lines of a text. The regular expressions are the `regex` crate's: a parameter
-- gives the leftmost match of a marker that starts at an offset or behind it, and another the class
-- of Unicode word characters.
pub mod Sorted
pub mod Reported
use pira.Common.{
  ℕ, zero, suc, ◌+◌, ◌-◌, ◌<◌, ◌≤◌, ◌≡◌, Bool, true, false, ◌&&◌, ◌||◌, not, List, [], ◌∷◌, ◌++◌,
  Option, none, some, ltb, leb, ◌==◌, within, if◌then◌else◌, Text, Bytes, length,
  is_ascii_alphanumeric,
}
use pira.Common.Utf8.{utf8, from_utf8, encode_char}
use pira.WriteCheck.Groups.{Cue, Hit, Warning, slice, group_hits}
use pira.WriteCheck.Lines.{source_lines}

-- What the program uses of its compiled expressions.
pub record Expressions : Type 0 where
  pub find_at : Cue → Bytes → ℕ → Option (ℕ × ℕ)
  pub is_unicode_word : ℕ → Bool

-- Documented of `Regex::find_at`: the match starts at the offset or behind it and ends in the text;
-- it is not empty, as no marker is.
pub record FindsBehind (re : Expressions) : Type 0 where
  pub sound :
      (cue : Cue) (line : Bytes) (offset a b : ℕ)
      → re.find_at cue line offset ≡ some (a, b)
      → (offset ≤ a) × (a < b) × (b ≤ length line)

abbrev last_of : Text → Option ℕ
last_of [] = none
last_of (c ∷ []) = some c
last_of (c ∷ d ∷ s) = last_of (d ∷ s)

abbrev first_of : Text → Option ℕ
first_of [] = none
first_of (c ∷ s) = some c

-- `s.chars().next_back()` and `s.chars().next()`, of a slice's bytes. The offsets of a match lie between
-- characters; for others, where the source would panic, there is no character.
unfoldable pub next_back : Bytes → Option ℕ
next_back s = elim (from_utf8 s) [ none ↦ none | some t ↦ last_of t ]

unfoldable pub next_char : Bytes → Option ℕ
next_char s = elim (from_utf8 s) [ none ↦ none | some t ↦ first_of t ]

-- `.unwrap().len_utf8()` of the first character. A match is not empty, so there is one.
unfoldable pub first_len : Bytes → ℕ
first_len s = elim (next_char s) [ none ↦ 1 | some c ↦ length (encode_char c) ]

module _ (re : Expressions) where
  unfoldable pub is_word : Option ℕ → Bool
  is_word none = false
  is_word (some c) =
      if ltb c 0x80 then is_ascii_alphanumeric c || c == b'_' else re.is_unicode_word c

  -- A match stands between characters that are no word characters.
  unfoldable pub is_whole : Bytes → ℕ → ℕ → Bool
  is_whole line a b =
      not (is_word (next_back (slice line 0 a)))
      && not (is_word (next_char (slice line b (length line))))

  -- The `while let` loop. Each round goes on behind the start of its match.
  unfoldable pub find_hits : ℕ → Cue → Bytes → ℕ → List Hit
  find_hits zero cue line offset = []
  find_hits (suc fuel) cue line offset = elim (re.find_at cue line offset) [
    | none ↦ []
    | some (a, b) ↦
        let rest = find_hits fuel cue line (a + first_len (slice line a (length line))) in
        if is_whole line a b then record { start = a; end = b; cue = cue } ∷ rest else rest
  ]

  -- `for cue in &self.cues`
  unfoldable pub all_hits : List Cue → Bytes → List Hit
  all_hits [] line = []
  all_hits (cue ∷ cues) line = find_hits (length line + 1) cue line 0 ++ all_hits cues line

-- `Ord for str`, which compares bytes; of UTF-8 this is the order of the characters.
unfoldable pub text_lt : Text → Text → Bool
text_lt [] [] = false
text_lt [] (d ∷ t) = true
text_lt (c ∷ s) [] = false
text_lt (c ∷ s) (d ∷ t) = ltb c d || c == d && text_lt s t

-- `(&a.0, &a.2.category, &a.2.marker) < (&b.0, &b.2.category, &b.2.marker)`
unfoldable pub hit_lt : Hit → Hit → Bool
hit_lt a b =
    ltb a.start b.start
    || a.start == b.start
      && (text_lt a.cue.category b.cue.category
          || not (text_lt b.cue.category a.cue.category) && text_lt a.cue.marker b.cue.marker)

-- `sort_by`, which is stable: a hit goes in front of those behind it that are not smaller.
unfoldable pub insert_hit : Hit → List Hit → List Hit
insert_hit h [] = h ∷ []
insert_hit h (k ∷ hits) = if hit_lt k h then k ∷ insert_hit h hits else h ∷ k ∷ hits

unfoldable pub sort_hits : List Hit → List Hit
sort_hits [] = []
sort_hits (h ∷ hits) = insert_hit h (sort_hits hits)

module _ (re : Expressions) (cues : List Cue) (path : Text) where
  unfoldable pub check_line : ℕ → Bytes → List Warning
  check_line index line = group_hits path index line (sort_hits (all_hits re cues line))

  -- `for (index, line) in source_lines(text).into_iter().enumerate()`
  unfoldable pub check_lines : ℕ → List Text → List Warning
  check_lines index [] = []
  check_lines index (line ∷ lines) = check_line index (utf8 line) ++ check_lines (index + 1) lines

  unfoldable pub check_shared : Text → List Warning
  check_shared text = check_lines 0 (source_lines text)
