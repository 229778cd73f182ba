-- ===== src/Ctx/Clip/Inline.antt =====
-- The fields that tools/src/pira_ctx/util.rs clips stay in their line, their markup and their length.
use pira.Common.{
  ℕ, ◌-◌, ◌≤◌, ◌≡◌, refl, sym, append_assoc, Bool, true, false, ◌||◌, List, [], ◌∷◌, ◌++◌, leb,
  ◌==◌, Text, codes, length, length-append, map, all, within, All, All-append, Bool-cases, inl, inr,
  arith,
}
use pira.Common.Chars.{is_whitespace, is_control}
use pira.Common.Utf8.{utf8, encode_char}
use pira.Ctx.Clip.{
  flattened, word_end, words_from, join, clip, single_line_clip, replace, xml_field,
}
use pira.Ctx.Terminal.Clean.{
  IsPrinted, unprinted, sanitize_terminal-IsPrinted, safe_prefix-All, length-safe_prefix,
}
use pira.Ctx.Terminal.{sanitize_terminal, safe_prefix}

-- A character that is printed, and no tab or line feed.
abbrev pub IsInline : ℕ → Type 0
IsInline c = IsPrinted c × ((c == 0xA || c == 0x9) ≡ false)

space-IsInline : IsInline b' '
unfolding is_control
space-IsInline = (unprinted b' ' (λ h. cc) refl, refl)

flattened-IsInline : (s : Text) → All IsPrinted s → All IsInline (map flattened s)
flattened-IsInline [] a = tt
flattened-IsInline (c ∷ s) a =
    let rest = flattened-IsInline s a.1 in
    elim (Bool-cases (c == 0xA || c == 0xD || c == 0x9)) [
      | inl t ↦ rw t (space-IsInline, rest)
      | inr t ↦ rw t ((a.0, ground arith), rest)
    ]

word_end-IsInline :
    (word : Text) (words : List Text)
    → All IsInline word
    → All (All IsInline) words
    → All (All IsInline) (word_end word words)
word_end-IsInline [] words h a = a
word_end-IsInline (c ∷ word) words h a = (h, a)

words_from-IsInline :
    (word s : Text) → All IsInline word → All IsInline s → All (All IsInline) (words_from word s)
unfolding words_from
words_from-IsInline word [] h a = word_end-IsInline word [] h tt
words_from-IsInline word (c ∷ s) h a = elim (Bool-cases (is_whitespace c)) [
  | inl t ↦
      rw (words_from, t)
        (word_end-IsInline word (words_from [] s) h (words_from-IsInline [] s tt a.1))
  | inr t ↦
      rw (words_from, t)
        (words_from-IsInline (word ++ c ∷ []) s (All-append IsInline word (c ∷ []) h (a.0, tt)) a.1)
]

join-IsInline : (words : List Text) → All (All IsInline) words → All IsInline (join words)
unfolding join
join-IsInline [] a = tt
join-IsInline (w ∷ []) a = a.0
join-IsInline (w ∷ v ∷ words) a =
    All-append IsInline w (b' ' ∷ join (v ∷ words)) a.0
      (space-IsInline, join-IsInline (v ∷ words) a.1)

ellipsis-IsInline : IsInline 0x2026
unfolding is_control
ellipsis-IsInline = (unprinted 0x2026 (λ h. cc) refl, refl)

clip-IsInline :
    (s : Text) (maximum_bytes : ℕ) → All IsInline s → All IsInline (clip s maximum_bytes)
unfolding clip
clip-IsInline s n a = elim (Bool-cases (leb (length (utf8 s)) n)) [
  | inl t ↦ rw t a
  | inr t ↦ rw t (
      All-append IsInline (safe_prefix s (n - 3)) (0x2026 ∷ [])
        (safe_prefix-All IsInline s (n - 3) a) (ellipsis-IsInline, tt))
]

utf8-append : (s t : Text) → utf8 (s ++ t) ≡ utf8 s ++ utf8 t
unfolding utf8
utf8-append [] t = refl
utf8-append (c ∷ s) t = rw (utf8-append s t) (sym (append_assoc (encode_char c) (utf8 s) (utf8 t)))

length-ellipsis : length (utf8 (0x2026 ∷ [])) ≡ 3
unfolding utf8 encode_char
length-ellipsis = refl

length-clip :
    (s : Text) (maximum_bytes : ℕ)
    → 3 ≤ maximum_bytes
    → length (utf8 (clip s maximum_bytes)) ≤ maximum_bytes
unfolding clip
length-clip s n h = elim (Bool-cases (leb (length (utf8 s)) n)) [
  | inl t ↦ let fits : length (utf8 s) ≤ n = ground arith in rw t fits
  | inr t ↦
      rw (t, utf8-append (safe_prefix s (n - 3)) (0x2026 ∷ []))
        (omega (
          arith,
          h,
          length-safe_prefix s (n - 3),
          length-ellipsis,
          length-append (utf8 (safe_prefix s (n - 3))) (utf8 (0x2026 ∷ [])),
        ))
]

-- A clipped line is one line that controls no terminal, of no more bytes than it may have, if these
-- are enough for the ellipsis.
pub single_line_clip-IsInline :
    (value : Text) (maximum_bytes : ℕ)
    → 3 ≤ maximum_bytes
    → All IsInline (single_line_clip value maximum_bytes)
      × (length (utf8 (single_line_clip value maximum_bytes)) ≤ maximum_bytes)
unfolding single_line_clip
single_line_clip-IsInline value n h =
    let flat = flattened-IsInline (sanitize_terminal value) (sanitize_terminal-IsPrinted value) in
    let line = join (words_from [] (map flattened (sanitize_terminal value))) in
    (
      clip-IsInline line n (join-IsInline _ (words_from-IsInline [] _ tt flat)),
      length-clip line n h,
    )

replace-All :
    (P Q : ℕ → Type 0) (c : ℕ) (by s : Text)
    → All Q by
    → ((d : ℕ) → (d == c) ≡ false → P d → Q d)
    → All P s
    → All Q (replace c by s)
unfolding replace
replace-All P Q c by [] b f a = tt
replace-All P Q c by (d ∷ s) b f a =
    let rest = replace-All P Q c by s b f a.1 in
    elim (Bool-cases (d == c)) [
      | inl t ↦ rw (replace, t) (All-append Q by (replace c by s) b rest)
      | inr t ↦ rw (replace, t) (f d t a.0, rest)
    ]

-- No character that opens or closes a tag, on one line that controls no terminal.
abbrev pub IsContent : ℕ → Type 0
IsContent c = IsInline c × ((c == b'<' || c == b'>') ≡ false)

abbrev is_entity_char : ℕ → Bool
is_entity_char c = c == b'&' || c == b';' || within b'a' b'z' c

entity_char-IsContent : (c : ℕ) → is_entity_char c ≡ true → IsContent c
unfolding is_control
entity_char-IsContent c h =
    let printed : IsPrinted c = unprinted c (λ k. ground arith) (ground arith) in
    ((printed, ground arith), ground arith)

entity-IsContent : (s : Text) → all is_entity_char s ≡ true → All IsContent s
entity-IsContent [] h = tt
entity-IsContent (c ∷ s) h =
    let first : is_entity_char c ≡ true = ground arith in
    let rest : all is_entity_char s ≡ true = ground arith in
    (entity_char-IsContent c first, entity-IsContent s rest)

abbrev BelowTag : ℕ → Type 0
BelowTag c = IsInline c × ((c == b'<') ≡ false)

All-map : {P Q : ℕ → Type 0} (s : Text) → ((c : ℕ) → P c → Q c) → All P s → All Q s
All-map [] f a = tt
All-map (c ∷ s) f a = (f c a.0, All-map s f a.1)

-- A field of the markup holds no character that opens or closes a tag, no tab or line feed, and
-- nothing that controls a terminal, if its bytes are enough for the ellipsis.
pub xml_field-IsContent :
    (value : Text) (maximum_bytes : ℕ)
    → 3 ≤ maximum_bytes
    → All IsContent (xml_field value maximum_bytes)
unfolding xml_field
xml_field-IsContent value n h =
    let line = single_line_clip value n in
    let inline = (single_line_clip-IsInline value n h).0 in
    let amp = replace b'&' (codes "&amp;") line in
    let amp_inline : All IsInline amp =
      replace-All IsInline IsInline b'&' (codes "&amp;") line
        (All-map {P = IsContent} {Q = IsInline} (codes "&amp;") (λ c p. p.0)
          (entity-IsContent (codes "&amp;") refl))
        (λ d e p. p) inline in
    let below : All BelowTag (replace b'<' (codes "&lt;") amp) =
      replace-All IsInline BelowTag b'<' (codes "&lt;") amp
        (All-map {P = IsContent} {Q = BelowTag} (codes "&lt;") (λ c p. (p.0, ground arith))
          (entity-IsContent (codes "&lt;") refl))
        (λ d e p. (p, e)) amp_inline in
    replace-All BelowTag IsContent b'>' (codes "&gt;") (replace b'<' (codes "&lt;") amp)
      (entity-IsContent (codes "&gt;") refl) (λ d e p. (p.0, ground arith)) below
