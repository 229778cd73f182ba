-- ===== src/Ctx/Terminal.antt =====
-- `sanitize_terminal` and `safe_prefix` of tools/src/pira_ctx/util.rs. What the source reads ahead in
-- an escape sequence is a mode of the reader.
pub mod Clean
use pira.Common.{
  ℕ, ◌-◌, Bool, true, false, not, ◌&&◌, ◌||◌, List, [], ◌∷◌, leb, ◌==◌, within, if◌then◌else◌, Text,
  length,
}
use pira.Common.Chars.{is_control, trim_end_by}
use pira.Common.Utf8.{encode_char}

pub data Mode : Type 0 where
  plain : Mode
  -- Behind an escape character.
  escape : Mode
  -- In a control sequence, up to its final character.
  control_sequence : Mode
  -- In a string sequence, up to a bell or an escaped backslash: whether an escape was last.
  string_sequence : Bool → Mode

abbrev pub is_line_end : ℕ → Bool
is_line_end c = c == 0xD || c == 0x85 || c == 0x2028 || c == 0x2029

-- Invisible and bidirectional formatting.
abbrev pub is_formatting : ℕ → Bool
is_formatting c =
    c == 0x61C
    || within 0x200B 0x200F c
    || within 0x202A 0x202E c
    || within 0x2066 0x2069 c
    || c == 0xFEFF

abbrev pub is_suppressed : ℕ → Bool
is_suppressed c = is_formatting c || is_control c && not (c == 0xA || c == 0x9)

abbrev starts_string : ℕ → Bool
starts_string c = c == b']' || c == b'P' || c == b'X' || c == b'^' || c == b'_'

-- What a character of an escape sequence leads to.
unfoldable pub next_mode : Mode → ℕ → Mode
next_mode plain c = plain
next_mode escape c =
    if c == b'[' then control_sequence else if starts_string c then string_sequence false else plain
next_mode control_sequence c = if within b'@' b'~' c then plain else control_sequence
next_mode (string_sequence escaped) c =
    if c == 0x7 || escaped && c == b'\\' then plain else string_sequence (c == 0x1B)

-- A character outside an escape sequence, in front of the output of the rest.
unfoldable pub put : ℕ → Text → Text
put c output =
    if is_line_end c then b' ' ∷ output else if is_suppressed c then output else c ∷ output

unfoldable pub sanitize_from : Mode → Text → Text
unfolding next_mode put
sanitize_from mode [] = []
sanitize_from plain (c ∷ s) = elim (c == 0x1B) [
  | true ↦ sanitize_from escape s
  | false ↦ put c (sanitize_from plain s)
]
sanitize_from escape (c ∷ s) = sanitize_from (next_mode escape c) s
sanitize_from control_sequence (c ∷ s) = sanitize_from (next_mode control_sequence c) s
sanitize_from (string_sequence escaped) (c ∷ s) =
    sanitize_from (next_mode (string_sequence escaped) c) s

abbrev pub is_newline : ℕ → Bool
is_newline c = c == 0xA || c == 0xD

unfoldable pub sanitize_terminal : Text → Text
unfolding sanitize_from trim_end_by
sanitize_terminal value = trim_end_by is_newline (sanitize_from plain value)

-- The characters that end within so many bytes.
unfoldable pub safe_prefix : Text → ℕ → Text
unfolding encode_char
safe_prefix [] bytes = []
safe_prefix (c ∷ s) bytes =
    let n = length (encode_char c) in
    let rest = safe_prefix s (bytes - n) in if leb n bytes then c ∷ rest else []
