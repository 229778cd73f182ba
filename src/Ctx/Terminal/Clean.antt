-- ===== src/Ctx/Terminal/Clean.antt =====
-- The output of `sanitize_terminal` of tools/src/pira_ctx/util.rs cannot control a terminal.
use pira.Common.{
  ℕ, ◌-◌, ◌<◌, ◌≤◌, ◌≡◌, ◌≢◌, ◌⊎◌, refl, ap, ◌∙◌, Bool, true, false, ◌||◌, [], ◌∷◌, leb, ◌==◌, Text,
  length, length-append, All, Bool-cases, inl, inr, arith,
}
use pira.Common.Chars.{is_control, cons_kept, trim_end_by}
use pira.Common.Utf8.{encode_char, utf8}
use pira.Ctx.Terminal.{
  is_line_end, is_suppressed, Mode, plain, escape, control_sequence, string_sequence, is_formatting,
  is_newline, put, sanitize_from, sanitize_terminal, safe_prefix,
}

-- A tab, a line feed, or a character that is neither a control character nor one of those that are
-- listed here.
pub record IsPrinted (c : ℕ) : Type 0 where
  pub control : is_control c ≡ true → (c == 0x9 || c == 0xA) ≡ true
  pub arabic_letter_mark : c ≢ 0x61C
  -- The zero-width characters and the marks of a direction.
  pub zero_width : (c < 0x200B) ⊎ (0x200F < c)
  pub line_separator : (c == 0x2028 || c == 0x2029) ≡ false
  -- Embeddings, overrides and isolates.
  pub embedding : (c < 0x202A) ⊎ (0x202E < c)
  pub isolate : (c < 0x2066) ⊎ (0x2069 < c)
  pub byte_order_mark : c ≢ 0xFEFF

-- The character can be printed, or it is one of those listed.
pub unprinted :
    (c : ℕ)
    → (is_control c ≡ true → (c == 0x9 || c == 0xA) ≡ true)
    → (is_formatting c || c == 0x2028 || c == 0x2029) ≡ false
    → IsPrinted c
unprinted c h k = record {
  control = h;
  arabic_letter_mark = ground arith;
  zero_width = ground arith;
  line_separator = ground arith;
  embedding = ground arith;
  isolate = ground arith;
  byte_order_mark = ground arith;
}

put-IsPrinted : (c : ℕ) (s : Text) → All IsPrinted s → All IsPrinted (put c s)
unfolding put is_control
put-IsPrinted c s a = elim (Bool-cases (is_line_end c)) [
  | inl t ↦ rw (put, t) (unprinted b' ' (λ h. cc) refl, a)
  | inr t ↦ elim (Bool-cases (is_suppressed c)) [
    | inl k ↦ rw (put, t, k) a
    | inr k ↦ rw (put, t, k) (unprinted c (λ h. ground arith) (ground arith), a)
  ]
]

sanitize_from-IsPrinted : (mode : Mode) (s : Text) → All IsPrinted (sanitize_from mode s)
unfolding sanitize_from
sanitize_from-IsPrinted mode [] = tt
sanitize_from-IsPrinted plain (c ∷ s) = elim (Bool-cases (c == 0x1B)) [
  | inl t ↦ rw (sanitize_from, t) (sanitize_from-IsPrinted escape s)
  | inr t ↦
      rw (sanitize_from, t)
        (put-IsPrinted c (sanitize_from plain s) (sanitize_from-IsPrinted plain s))
]
sanitize_from-IsPrinted escape (c ∷ s) = sanitize_from-IsPrinted _ s
sanitize_from-IsPrinted control_sequence (c ∷ s) = sanitize_from-IsPrinted _ s
sanitize_from-IsPrinted (string_sequence escaped) (c ∷ s) = sanitize_from-IsPrinted _ s

-- What is printed stands.
put-printed : (c : ℕ) (s : Text) → IsPrinted c → put c s ≡ c ∷ s
unfolding put is_control
put-printed c s p =
    let control = p.control in
    let mark = p.arabic_letter_mark in
    let zero_width = p.zero_width in
    let separator = p.line_separator in
    let embedding = p.embedding in
    let isolate = p.isolate in
    let order = p.byte_order_mark in
    let line_end : is_line_end c ≡ false = ground arith in
    let suppressed : is_suppressed c ≡ false = ground arith in rw (put, line_end, suppressed) refl

not_escape : (c : ℕ) → IsPrinted c → (c == 0x1B) ≡ false
unfolding is_control
not_escape c p = let control = p.control in ground arith

sanitize_from-printed : (s : Text) → All IsPrinted s → sanitize_from plain s ≡ s
unfolding sanitize_from
sanitize_from-printed [] a = refl
sanitize_from-printed (c ∷ s) a =
    rw (sanitize_from, not_escape c a.0, sanitize_from-printed s a.1) (put-printed c s a.0)

cons_kept-All :
    (drops : Bool) (c : ℕ) (s : Text)
    → IsPrinted c
    → All IsPrinted s
    → All IsPrinted (cons_kept drops c s)
cons_kept-All true c [] h a = tt
cons_kept-All false c [] h a = (h, tt)
cons_kept-All drops c (d ∷ s) h a = (h, a)

trim_end_by-All : (p : ℕ → Bool) (s : Text) → All IsPrinted s → All IsPrinted (trim_end_by p s)
unfolding trim_end_by
trim_end_by-All p [] a = tt
trim_end_by-All p (c ∷ s) a = cons_kept-All (p c) c (trim_end_by p s) a.0 (trim_end_by-All p s a.1)

length-cons_kept :
    (drops : Bool) (c : ℕ) (s : Text) → length (utf8 (cons_kept drops c s)) ≤ length (utf8 (c ∷ s))
unfolding utf8
length-cons_kept true c [] = omega arith
length-cons_kept false c [] = omega arith
length-cons_kept drops c (d ∷ s) = omega arith

-- Trimming leaves no more bytes.
pub length-trim_end_by :
    (p : ℕ → Bool) (s : Text) → length (utf8 (trim_end_by p s)) ≤ length (utf8 s)
unfolding trim_end_by utf8
length-trim_end_by p [] = omega arith
length-trim_end_by p (c ∷ s) = omega (
  arith,
  length-cons_kept (p c) c (trim_end_by p s),
  length-trim_end_by p s,
  length-append (encode_char c) (utf8 (trim_end_by p s)),
  length-append (encode_char c) (utf8 s),
)

trim_end_by-cons_kept :
    (p : ℕ → Bool) (c : ℕ) (s : Text)
    → trim_end_by p s ≡ s
    → trim_end_by p (cons_kept (p c) c s) ≡ cons_kept (p c) c s
unfolding trim_end_by
trim_end_by-cons_kept p c [] e = elim (Bool-cases (p c)) [
  | inl t ↦ rw t refl
  | inr t ↦ rw (t, trim_end_by, t) refl
]
trim_end_by-cons_kept p c (d ∷ s) e = rw (trim_end_by, e) refl

trim_end_by-twice : (p : ℕ → Bool) (s : Text) → trim_end_by p (trim_end_by p s) ≡ trim_end_by p s
unfolding trim_end_by
trim_end_by-twice p [] = refl
trim_end_by-twice p (c ∷ s) = trim_end_by-cons_kept p c (trim_end_by p s) (trim_end_by-twice p s)

-- The output of `sanitize_terminal` has no control character but tabs and line feeds, and so no escape
-- character, and none of U+061C, U+200B to U+200F, U+2028 to U+202E, U+2066 to U+2069 and U+FEFF.
pub sanitize_terminal-IsPrinted : (value : Text) → All IsPrinted (sanitize_terminal value)
unfolding sanitize_terminal
sanitize_terminal-IsPrinted value =
    trim_end_by-All is_newline _ (sanitize_from-IsPrinted plain value)

-- Text that is printed loses no more than the line feeds at its end.
pub sanitize_terminal-printed :
    (s : Text) → All IsPrinted s → sanitize_terminal s ≡ trim_end_by is_newline s
unfolding sanitize_terminal
sanitize_terminal-printed s a = ap (trim_end_by is_newline) (sanitize_from-printed s a)

-- What `sanitize_terminal` gives it leaves as it is.
pub sanitize_terminal-twice :
    (value : Text) → sanitize_terminal (sanitize_terminal value) ≡ sanitize_terminal value
unfolding sanitize_terminal
sanitize_terminal-twice value =
    sanitize_terminal-printed _ (sanitize_terminal-IsPrinted value)
    ∙ trim_end_by-twice is_newline (sanitize_from plain value)

pub safe_prefix-All {κ} :
    (P : ℕ → Type κ) (s : Text) (bytes : ℕ) → All P s → All P (safe_prefix s bytes)
unfolding safe_prefix
safe_prefix-All P [] bytes a = tt
safe_prefix-All P (c ∷ s) bytes a = elim (Bool-cases (leb (length (encode_char c)) bytes)) [
  | inl t ↦ rw (safe_prefix, t) (a.0, safe_prefix-All P s _ a.1)
  | inr t ↦ rw (safe_prefix, t) tt
]

pub length-safe_prefix : (s : Text) (bytes : ℕ) → length (utf8 (safe_prefix s bytes)) ≤ bytes
unfolding safe_prefix utf8
length-safe_prefix [] bytes = omega arith
length-safe_prefix (c ∷ s) bytes =
    let n = length (encode_char c) in
    let rest = length-safe_prefix s (bytes - n) in
    elim (Bool-cases (leb n bytes)) [
      | inl t ↦
          let fits : n ≤ bytes = ground arith in
          rw (safe_prefix, t)
            (omega
              (arith, fits, rest, length-append (encode_char c) (utf8 (safe_prefix s (bytes - n)))))
      | inr t ↦ rw (safe_prefix, t) (omega arith)
    ]
