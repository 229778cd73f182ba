-- ===== src/WriteCheck/Tests.antt =====
-- Runs of the marker check, and its theorems at small texts.
use pira.Common.{
  ℕ, zero, suc, ◌+◌, ◌≤◌, ◌<◌, ◌≡◌, refl, true, List, [], ◌∷◌, ◌++◌, Option, none, some, Text,
  Bytes, codes, length, Bool-cases, inl, inr, arith, if◌then◌else◌, ◌==◌,
}
use pira.WriteCheck.Check.Reported.{LinesReported, check_shared-LinesReported}
use pira.WriteCheck.Check.{Expressions, FindsBehind, check_shared}
use pira.WriteCheck.Groups.Overlap.{Grouping, group_hits-Grouping}
use pira.WriteCheck.Groups.{Cue, Hit, group_hits}
use pira.WriteCheck.Lines.Splits.{Splits, source_lines-Splits}
use pira.WriteCheck.Lines.{source_lines}

abbrev two_lines : Text
two_lines = codes "ab" ++ 0xD ∷ 0xA ∷ codes "c"

two_lines_split : source_lines two_lines ≡ codes "ab" ∷ codes "c" ∷ []
unfolding source_lines
two_lines_split = refl

source_lines-Splits_example : Splits two_lines (source_lines two_lines)
source_lines-Splits_example = source_lines-Splits two_lines

-- An expression matches one character, of number 97.
abbrev find_a : ℕ → Bytes → Option (ℕ × ℕ)
find_a at [] = none
find_a at (b ∷ line) = if b == 97 then some (at, at + 1) else find_a (at + 1) line

abbrev find_from : ℕ → Bytes → ℕ → Option (ℕ × ℕ)
find_from at line zero = find_a at line
find_from at [] (suc offset) = none
find_from at (b ∷ line) (suc offset) = find_from (at + 1) line offset

abbrev letter : Expressions
letter = record {
  find_at = λ cue line offset. find_from 0 line offset;
  is_unicode_word = λ c. true;
}

find_a_sound :
    (at : ℕ) (line : Bytes) (a b : ℕ)
    → find_a at line ≡ some (a, b)
    → (at ≤ a) × (a < b) × (b ≤ at + length line)
find_a_sound at [] a b e = ground arith
find_a_sound at (c ∷ line) a b e = elim (Bool-cases (c == 97)) [
  | inl t ↦
      let found : ◌≡◌ {A = Option (ℕ × ℕ)} (some (at, at + 1)) (some (a, b)) = rw t at e in
      let start : at ≡ a = cc in let end : at + 1 ≡ b = cc in omega arith
  | inr t ↦ let later = find_a_sound (at + 1) line a b (rw t at e) in omega arith
]

find_from_sound :
    (at : ℕ) (line : Bytes) (offset a b : ℕ)
    → find_from at line offset ≡ some (a, b)
    → (at + offset ≤ a) × (a < b) × (b ≤ at + length line)
find_from_sound at line zero a b e = let found = find_a_sound at line a b e in omega arith
find_from_sound at [] (suc offset) a b e = ground arith
find_from_sound at (c ∷ line) (suc offset) a b e =
    let later = find_from_sound (at + 1) line offset a b e in omega arith

letter-FindsBehind : FindsBehind letter
letter-FindsBehind = record {
  sound = λ cue line offset a b e. let found = find_from_sound 0 line offset a b e in omega arith;
}

abbrev letter_a : Cue
letter_a = record { category = codes "letters"; marker = codes "a" }

check_shared-LinesReported_example :
    (lines : List Text) × Splits two_lines lines
    × LinesReported letter
        (letter_a ∷ [])
        (codes "p.md")
        0
        lines
        (check_shared letter (letter_a ∷ []) (codes "p.md") two_lines)
check_shared-LinesReported_example =
    check_shared-LinesReported letter (letter_a ∷ []) (codes "p.md") letter-FindsBehind two_lines

-- Two hits that overlap and one behind them, as bytes 0 to 3, 2 to 5 and 6 to 7.
abbrev three_hits : List Hit
three_hits =
    record { start = 0; end = 3; cue = letter_a }
    ∷ record { start = 2; end = 5; cue = letter_a }
    ∷ record { start = 6; end = 7; cue = letter_a }
    ∷ []

group_hits-Grouping_example :
    (e : ℕ) × Grouping
      (codes "p.md")
      0
      (codes "abcde f")
      e
      (group_hits (codes "p.md") 0 (codes "abcde f") three_hits)
      three_hits
group_hits-Grouping_example =
    group_hits-Grouping (codes "p.md") 0 (codes "abcde f") three_hits (omega arith)
