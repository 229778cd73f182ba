-- ===== src/WriteCheck/Lines.antt =====
-- `source_lines` of tools/src/pira_write_check/lib.rs: a text cut at its line breaks. The slice
-- `text[start..index]` is the list of what was read since the last cut.
pub mod Splits
use pira.Common.{
  ℕ, Bool, true, false, ◌&&◌, ◌||◌, List, [], ◌∷◌, ◌++◌, ◌==◌, within, if◌then◌else◌, Text,
}

unfoldable pub line_break : ℕ → Bool
line_break c =
    c == 0xA
    || c == 0xD
    || c == 0xB
    || c == 0xC
    || within 0x1C 0x1E c
    || c == 0x85
    || c == 0x2028
    || c == 0x2029

-- The rest behind the last break, unless it is empty.
abbrev pub last_line : Text → List Text
last_line [] = []
last_line (c ∷ line) = (c ∷ line) ∷ []

-- The flag says that the last character was a carriage return, so that a line feed is skipped: the
-- source looks at the next character where it reads the carriage return.
unfoldable pub lines_from : Bool → Text → Text → List Text
lines_from cr line [] = last_line line
lines_from cr line (c ∷ text) = elim (cr && c == 0xA) [
  | true ↦ lines_from false [] text
  | false ↦ elim (line_break c) [
    | true ↦ line ∷ lines_from (c == 0xD) [] text
    | false ↦ lines_from false (line ++ c ∷ []) text
  ]
]

unfoldable pub source_lines : Text → List Text
unfolding lines_from line_break
source_lines = lines_from false []
