-- ===== src/SvgCheck/Css/Names.antt =====
-- How names may be written for the scanner of tools/src/pira_svg_check/css.rs: with escapes, after
-- the grammar of CSS, which hide no name from it.
use pira.Common.{
  ℕ, zero, suc, ◌+◌, ◌*◌, ◌≤◌, ◌≡◌, refl, Bool, true, false, not, ◌||◌, ◌&&◌, List, [], ◌∷◌, ◌++◌,
  Option, none, some, ◌==◌, if◌then◌else◌, Text, codes, ok, err, arith, All, length, map, list_eq,
  list_eq_iff, ◌⊎◌, inl, inr, is_ascii_hexdigit,
}
use pira.Common.Chars.{trim}
use pira.SvgCheck.Css.{
  external, is_local, url, url_call, validate_reference, import_not_allowed, lowercase,
  eq_ignore_ascii_case, is_name_char, space, newline, skip_if, to_digit, hex_digits, skip_end,
  scalar_or_replacement, escape, pushed, name_from, name, token, references_from,
  skip_space_and_comments,
}
use pira.SvgCheck.Css.Shrinks.{escape-length}

abbrev hex_value : ℕ → Text → ℕ
hex_value v [] = v
hex_value v (d ∷ digits) = hex_value (v * 16 + to_digit d) digits

abbrev head_is : (ℕ → Bool) → Text → Bool
head_is p [] = false
head_is p (c ∷ s) = p c

abbrev is_line_feed : ℕ → Bool
is_line_feed c = c == 0xA

-- What may stand between an escape and the text behind it.
pub data Gap : Text → Text → Type 0 where
  no_space : {s : Text} → head_is space s ≡ false → Gap s s
  one_space :
      {s : Text} (c : ℕ)
      → space c ≡ true
      → (c == 0xD && head_is is_line_feed s) ≡ false
      → Gap (c ∷ s) s
  line_end : {s : Text} → Gap (0xD ∷ 0xA ∷ s) s

-- What may follow a backslash, the character that it means, if any, and the text behind it.
pub data Escape : Text → Option ℕ → Text → Type 0 where
  -- One to six hexadecimal digits, of which fewer than six are not followed by another.
  code_point :
      (d : ℕ) (digits s rest : Text)
      → is_ascii_hexdigit d ≡ true
      → All (λ c. is_ascii_hexdigit c ≡ true) digits
      → length digits ≤ 5
      → (length digits ≡ 5) ⊎ (head_is is_ascii_hexdigit s ≡ false)
      → Gap s rest
      → Escape
          (d ∷ (digits ++ s))
          (some (scalar_or_replacement (hex_value (to_digit d) digits)))
          rest
  literal :
      (c : ℕ) (s : Text)
      → is_ascii_hexdigit c ≡ false
      → newline c ≡ false
      → Escape (c ∷ s) (some c) s
  broken_line :
      (c : ℕ) (s : Text)
      → newline c ≡ true
      → (c == 0xD && head_is is_line_feed s) ≡ false
      → Escape (c ∷ s) none s
  broken_line_end : (s : Text) → Escape (0xD ∷ 0xA ∷ s) none s

abbrev stops : Text → Bool
stops s = not (head_is is_name_char s) && not (head_is (λ c. c == b'\\') s)

-- A text that starts with a way to write a name, the name, and the text behind it.
pub data Spelled : Text → Text → Text → Type 0 where
  end : {s : Text} → stops s ≡ true → Spelled s [] s
  plain :
      {s n rest : Text} (c : ℕ)
      → is_name_char c ≡ true
      → Spelled s n rest
      → Spelled (c ∷ s) (c ∷ n) rest
  escaped :
      {s s' n rest : Text} {o : Option ℕ}
      → Escape s o s'
      → Spelled s' n rest
      → Spelled (b'\\' ∷ s) (pushed o n) rest

hex_digits-append :
    (n v : ℕ) (digits s : Text)
    → All (λ c. is_ascii_hexdigit c ≡ true) digits
    → length digits ≤ n
    → (length digits ≡ n) ⊎ (head_is is_ascii_hexdigit s ≡ false)
    → hex_digits n v (digits ++ s) ≡ (hex_value v digits, s)
unfolding hex_digits
hex_digits-append zero v [] s a p q = refl
hex_digits-append zero v (d ∷ digits) s a p q = absurd (omega arith)
hex_digits-append (suc n) v [] [] a p q = refl
hex_digits-append (suc n) v [] (c ∷ s) a p q = elim q [
  | inl e ↦ absurd (omega arith)
  | inr e ↦ rw (hex_digits, e) refl
]
hex_digits-append (suc n) v (d ∷ digits) s a p q =
    rw (hex_digits, a.0)
      (hex_digits-append n (v * 16 + to_digit d) digits s a.1 (omega arith)
        (elim q [ inl e ↦ inl (omega (arith, e)) | inr e ↦ inr e ]))

-- A line feed behind a carriage return is skipped, and only there.
skip_lf :
    (c : ℕ) (s : Text)
    → (c == 0xD && head_is is_line_feed s) ≡ false
    → (if c == 0xD then skip_if 0xA s else s) ≡ s
unfolding skip_if
skip_lf c [] h = ground arith
skip_lf c (d ∷ s) h = ground arith

skip_end-Gap : {s rest : Text} → Gap s rest → skip_end s ≡ rest
unfolding skip_end skip_if
skip_end-Gap (no_space {s = []} h) = refl
skip_end-Gap (no_space {s = c ∷ s} h) = rw (skip_end, h) refl
skip_end-Gap (one_space {s} c h q) = rw (skip_end, h) (skip_lf c s q)
skip_end-Gap line_end = refl

skip_if-line_feed : (s : Text) → escape (0xD ∷ 0xA ∷ s) ≡ ok (none, s)
unfolding escape skip_if
skip_if-line_feed s = refl

escape-Escape : {s rest : Text} {o : Option ℕ} → Escape s o rest → escape s ≡ ok (o, rest)
unfolding escape
escape-Escape (code_point d digits s rest h a p q g) =
    rw (escape, h, hex_digits-append 5 (to_digit d) digits s a p q, skip_end-Gap g) refl
escape-Escape (literal c s h k) = rw (escape, h, k) refl
escape-Escape (broken_line c s h q) =
    let other : is_ascii_hexdigit c ≡ false = ground arith in
    rw (escape, other, h, skip_lf c s q) refl
escape-Escape (broken_line_end s) = skip_if-line_feed s

name_from-Spelled :
    (fuel : ℕ) {s n rest : Text}
    → Spelled s n rest
    → length s ≤ fuel
    → name_from fuel s ≡ ok (n, rest)
unfolding name_from
name_from-Spelled fuel (end {s = []} h) p = refl
name_from-Spelled zero (end {s = c ∷ s} h) p = absurd (omega arith)
name_from-Spelled (suc fuel) (end {s = c ∷ s} h) p =
    let slash : (c == b'\\') ≡ false = ground arith in
    let other : is_name_char c ≡ false = ground arith in rw (name_from, slash, other) refl
name_from-Spelled zero (plain c h r) p = absurd (omega arith)
name_from-Spelled (suc fuel) (plain c h r) p =
    let slash : (c == b'\\') ≡ false = ground arith in
    rw (name_from, slash, h, name_from-Spelled fuel r (omega arith)) refl
name_from-Spelled zero (escaped e r) p = absurd (omega arith)
name_from-Spelled (suc fuel) (escaped {s} e r) p =
    let read = escape-Escape e in
    let shorter = escape-length s read in
    rw (name_from, read, name_from-Spelled fuel r (omega arith)) refl

-- A name is read as what it means, however it is written.
pub name-Spelled : {s n rest : Text} → Spelled s n rest → name s ≡ ok (n, rest)
name-Spelled {s} p = name_from-Spelled (length s) p (omega arith)

token-import :
    {s n rest : Text}
    → Spelled s n rest
    → map lowercase n ≡ codes "import"
    → token b'@' s ≡ err import_not_allowed
unfolding token eq_ignore_ascii_case
token-import {s} {n} p h =
    let same : list_eq (map lowercase n) (map lowercase (codes "import")) ≡ true =
      (list_eq_iff (map lowercase n) (codes "import")).1 h in
    rw (name-Spelled p, same) refl

-- The call behind the name `url`, of a reference out of the file.
url_call-external :
    (s : Text) {u r v : Text}
    → s ≡ b'(' ∷ u
    → url u ≡ ok (r, v)
    → is_local (trim r) ≡ false
    → url_call s ≡ err (external (trim r))
unfolding url_call validate_reference
url_call-external s e k h = rw (e, k, h) refl

token-url :
    {c : ℕ} {s n rest u r v : Text}
    → Spelled (c ∷ s) n rest
    → map lowercase n ≡ codes "url"
    → skip_space_and_comments rest ≡ b'(' ∷ u
    → url u ≡ ok (r, v)
    → is_local (trim r) ≡ false
    → token c s ≡ err (external (trim r))
unfolding token eq_ignore_ascii_case
token-url (end h) m e k l = absurd cc
token-url {rest} (plain {n} c h p) m e k l =
    let same : list_eq (map lowercase (c ∷ n)) (map lowercase (codes "url")) ≡ true =
      (list_eq_iff (map lowercase (c ∷ n)) (codes "url")).1 m in
    let quote : (c == b'\'' || c == b'"') ≡ false = ground arith in
    let at : (c == b'@') ≡ false = ground arith in
    let slash : (c == b'\\') ≡ false = ground arith in
    rw (quote, at, h, slash, name-Spelled p, same)
      (url_call-external (skip_space_and_comments rest) e k l)
token-url {rest} (escaped {n} {o} x p) m e k l =
    let same : list_eq (map lowercase (pushed o n)) (map lowercase (codes "url")) ≡ true =
      (list_eq_iff (map lowercase (pushed o n)) (codes "url")).1 m in
    rw (escape-Escape x, name-Spelled p, same)
      (url_call-external (skip_space_and_comments rest) e k l)

-- The rule `@import` is refused wherever the scanner meets it, behind spaces and comments, and
-- whatever escapes and letters' case it is written with.
pub references_from-import :
    (fuel : ℕ) (found : List Text) (c : ℕ) (text s n rest : Text)
    → skip_space_and_comments (c ∷ text) ≡ b'@' ∷ s
    → Spelled s n rest
    → map lowercase n ≡ codes "import"
    → references_from (suc fuel) found (c ∷ text) ≡ err import_not_allowed
unfolding references_from
references_from-import fuel found c text s n rest e p h =
    rw (references_from, e, token-import p h) refl

-- A call of `url` is refused if its argument is out of the file, wherever the scanner meets it,
-- behind spaces and comments, and whatever escapes and letters' case the name is written with.
pub references_from-external :
    (fuel : ℕ) (found : List Text) (b c : ℕ) (text s n rest u r v : Text)
    → skip_space_and_comments (b ∷ text) ≡ c ∷ s
    → Spelled (c ∷ s) n rest
    → map lowercase n ≡ codes "url"
    → skip_space_and_comments rest ≡ b'(' ∷ u
    → url u ≡ ok (r, v)
    → is_local (trim r) ≡ false
    → references_from (suc fuel) found (b ∷ text) ≡ err (external (trim r))
unfolding references_from
references_from-external fuel found b c text s n rest u r v e p m q k l =
    rw (references_from, e, token-url p m q k l) refl
