-- ===== src/Ctx/Tests.antt =====
-- Runs of the terminal output, and its theorems at small texts.
use pira.Common.{◌≤◌, ◌≡◌, refl, List, [], ◌∷◌, ◌++◌, false, none, All, Text, codes}
use pira.Common.Chars.{is_whitespace, is_control}
use pira.Common.Utf8.{utf8, encode_char}
use pira.Ctx.Clip.Inline.{IsInline, IsContent, single_line_clip-IsInline, xml_field-IsContent}
use pira.Ctx.Clip.{single_line_clip, xml_field}
use pira.Ctx.Stdout.Budget.{sent, lines-budget}
use pira.Common.{length, arith, true}
use pira.Ctx.Stdout.Cut.{accepts, EndsMarked, lines-EndsMarked}
use pira.Ctx.Stdout.{lines, report}
use pira.Ctx.Terminal.Clean.{IsPrinted, sanitize_terminal-IsPrinted, sanitize_terminal-twice}
use pira.Ctx.Terminal.{sanitize_terminal}

-- A colour, a title, a carriage return and a line feed at the end.
abbrev coloured : Text
coloured =
    0x1B ∷ codes "[31mred"
    ++ (0x1B ∷ codes "]0;title" ++ (0x7 ∷ codes "plain" ++ (0xD ∷ codes "x" ++ 0xA ∷ [])))

coloured_sanitized : sanitize_terminal coloured ≡ codes "redplain x"
unfolding sanitize_terminal is_control
coloured_sanitized = refl

sanitize_terminal-IsPrinted_example : All IsPrinted (sanitize_terminal coloured)
sanitize_terminal-IsPrinted_example = sanitize_terminal-IsPrinted coloured

sanitize_terminal-twice_example :
    sanitize_terminal (sanitize_terminal coloured) ≡ sanitize_terminal coloured
sanitize_terminal-twice_example = sanitize_terminal-twice coloured

abbrev two_words : List Text
two_words = codes "one" ∷ codes "a line that does not fit" ∷ []

-- The line that fits, what fits of the other in front of the marker, and the marker.
two_words_written :
    (lines (λ log to_stderr bytes. none) (report 50 none) two_words []).log
    ≡ (false, codes "one" ++ 0xA ∷ [])
      ∷ (false, codes "a l" ++ 0xA ∷ [])
      ∷ (false, codes "[pira_ctx output truncated by byte limit]" ++ 0xA ∷ [])
      ∷ []
unfolding lines report is_control encode_char
two_words_written = refl

lines-budget_example :
    sent (lines (λ log to_stderr bytes. none) (report 50 none) two_words []).log ≤ 50
lines-budget_example = lines-budget (λ log to_stderr bytes. none) 50 none two_words

two_words_cut : (lines accepts (report 50 none) two_words []).out.truncated ≡ true
unfolding lines report is_control encode_char
two_words_cut = refl

lines-EndsMarked_example : EndsMarked (lines accepts (report 50 none) two_words []).log
lines-EndsMarked_example = lines-EndsMarked 50 none two_words (omega arith) two_words_cut

clipped : single_line_clip (codes "two  words") 6 ≡ codes "two" ++ 0x2026 ∷ []
unfolding single_line_clip is_control encode_char is_whitespace
clipped = refl

single_line_clip-IsInline_example :
    All IsInline (single_line_clip coloured 8) × (length (utf8 (single_line_clip coloured 8)) ≤ 8)
single_line_clip-IsInline_example = single_line_clip-IsInline coloured 8 (omega arith)

xml_field-IsContent_example : All IsContent (xml_field (codes "<a & b>") 20)
xml_field-IsContent_example = xml_field-IsContent (codes "<a & b>") 20 (omega arith)
