-- ===== src/Ctx/Clip.antt =====
-- `single_line_clip` and `xml_field` of tools/src/pira_ctx/util.rs.
pub mod Inline
use pira.Common.{
  ℕ, ◌-◌, Bool, true, false, ◌||◌, List, [], ◌∷◌, ◌++◌, leb, ◌==◌, if◌then◌else◌, Text, codes,
  length, map,
}
use pira.Common.Chars.{is_whitespace}
use pira.Common.Utf8.{utf8}
use pira.Ctx.Terminal.{sanitize_terminal, safe_prefix}

abbrev pub flattened : ℕ → ℕ
flattened c = if c == 0xA || c == 0xD || c == 0x9 then b' ' else c

abbrev pub word_end : Text → List Text → List Text
word_end [] words = words
word_end (c ∷ word) words = (c ∷ word) ∷ words

-- `split_whitespace`, behind what has been read of a word.
unfoldable pub words_from : Text → Text → List Text
words_from word [] = word_end word []
words_from word (c ∷ s) = elim (is_whitespace c) [
  | true ↦ word_end word (words_from [] s)
  | false ↦ words_from (word ++ c ∷ []) s
]

-- `join(" ")`
unfoldable pub join : List Text → Text
join [] = []
join (w ∷ []) = w
join (w ∷ v ∷ words) = w ++ (b' ' ∷ join (v ∷ words))

unfoldable pub clip : Text → ℕ → Text
unfolding safe_prefix utf8
clip clean maximum_bytes =
    if leb (length (utf8 clean)) maximum_bytes
    then clean
    else safe_prefix clean (maximum_bytes - 3) ++ 0x2026 ∷ []

unfoldable pub single_line_clip : Text → ℕ → Text
unfolding words_from join clip sanitize_terminal
single_line_clip value maximum_bytes =
    clip (join (words_from [] (map flattened (sanitize_terminal value)))) maximum_bytes

-- `replace` of a character.
unfoldable pub replace : ℕ → Text → Text → Text
replace c by [] = []
replace c by (d ∷ s) = let rest = replace c by s in if d == c then by ++ rest else d ∷ rest

unfoldable pub xml_field : Text → ℕ → Text
unfolding single_line_clip replace
xml_field value maximum_bytes = replace b'>' (codes "&gt;") (
    replace b'<' (codes "&lt;")
      (replace b'&' (codes "&amp;") (single_line_clip value maximum_bytes)))
