-- ===== src/SvgCheck/Css.antt =====
-- The token scanner of tools/src/pira_svg_check/css.rs, which finds the resources that a style
-- refers to. A `Peekable<Chars>` is the list of the characters that are left: a function returns
-- what it reads together with the rest.
pub mod Shrinks
pub mod Local
pub mod Names
use pira.Common.{
  ℕ, zero, suc, ◌+◌, ◌-◌, ◌*◌, Bool, true, false, not, ◌&&◌, ◌||◌, List, [], ◌∷◌, ◌++◌, Option,
  none, some, ltb, ◌==◌, within, if◌then◌else◌, Text, Result, ok, err, reject, ◌>>=◌, ◌>>◌, codes,
  length, take, map, list_eq, is_ascii_alphanumeric, is_ascii_hexdigit,
}
use pira.Common.Chars.{trim}

-- The messages of `GuardError` in this file, and the end of the model's fuel.
pub data GuardError : Type 0 where
  external : Text → GuardError
  import_not_allowed : GuardError
  invalid_css : GuardError
  out_of_fuel : GuardError

abbrev pub lowercase : ℕ → ℕ
lowercase c = if within b'A' b'Z' c then c + 32 else c

unfoldable pub eq_ignore_ascii_case : Text → Text → Bool
unfolding list_eq
eq_ignore_ascii_case s t = list_eq (map lowercase s) (map lowercase t)

-- Of the trimmed value. The first five bytes are `data:` when the first five characters are.
unfoldable pub is_local : Text → Bool
unfolding eq_ignore_ascii_case
is_local [] = true
is_local (c ∷ s) = c == b'#' || eq_ignore_ascii_case (take 5 (c ∷ s)) (codes "data:")

unfoldable pub validate_reference : Text → Result GuardError (Unit {0})
unfolding trim is_local
validate_reference value = reject (not (is_local (trim value))) (external (trim value))

abbrev pub is_name_char : ℕ → Bool
is_name_char c = is_ascii_alphanumeric c || c == b'-' || c == b'_' || not (ltb c 0x80)

abbrev pub space : ℕ → Bool
space c = c == 0x20 || c == 0x9 || c == 0xA || c == 0xD || c == 0xC

abbrev pub newline : ℕ → Bool
newline c = c == 0xA || c == 0xD || c == 0xC

-- The flag says that a comment is open.
unfoldable pub skip_from : Bool → Text → Text
skip_from comment [] = []
skip_from false (c ∷ []) = if space c then [] else c ∷ []
skip_from false (c ∷ d ∷ s) = elim (space c) [
  | true ↦ skip_from false (d ∷ s)
  | false ↦ elim (c == b'/' && d == b'*') [ true ↦ skip_from true s | false ↦ c ∷ d ∷ s ]
]
skip_from true (c ∷ []) = []
skip_from true (c ∷ d ∷ s) = elim (c == b'*' && d == b'/') [
  | true ↦ skip_from false s
  | false ↦ skip_from true (d ∷ s)
]

abbrev pub skip_space_and_comments : Text → Text
skip_space_and_comments = skip_from false

-- `next_if_eq`, of which the answer is not used.
unfoldable pub skip_if : ℕ → Text → Text
skip_if c [] = []
skip_if c (d ∷ s) = if d == c then s else d ∷ s

-- `to_digit(16)` of a hexadecimal digit.
abbrev pub to_digit : ℕ → ℕ
to_digit c = if within b'0' b'9' c then c - b'0' else if within b'A' b'F' c then c - 55 else c - 87

-- The `for _ in 1..6` of `escape`: at most so many digits more.
unfoldable pub hex_digits : ℕ → ℕ → Text → ℕ × Text
hex_digits zero value s = (value, s)
hex_digits (suc n) value [] = (value, [])
hex_digits (suc n) value (c ∷ s) = elim (is_ascii_hexdigit c) [
  | true ↦ hex_digits n (value * 16 + to_digit c) s
  | false ↦ (value, c ∷ s)
]

-- One space ends a hexadecimal escape, with a carriage return and a line feed as one.
unfoldable pub skip_end : Text → Text
unfolding skip_if
skip_end [] = []
skip_end (c ∷ s) = if space c then (if c == 0xD then skip_if 0xA s else s) else c ∷ s

-- `char::from_u32(value).filter(|ch| *ch != '\0').unwrap_or('\u{fffd}')`
abbrev pub scalar_or_replacement : ℕ → ℕ
scalar_or_replacement value =
    if ltb value 0x110000 && not (within 0xD800 0xDFFF value) && not (value == 0)
    then value
    else 0xFFFD

-- What stands behind a backslash. A broken line is no character.
unfoldable pub escape : Text → Result GuardError (Option ℕ × Text)
unfolding hex_digits skip_end skip_if
escape [] = err invalid_css
escape (c ∷ s) =
    if is_ascii_hexdigit c
    then (let digits = hex_digits 5 (to_digit c) s in
        ok (some (scalar_or_replacement digits.0), skip_end digits.1))
    else if newline c
    then ok (none, (if c == 0xD then skip_if 0xA s else s))
    else ok (some c, s)

-- `if let Some(ch) = … { result.push(ch); }`, the result being read from here on.
abbrev pub pushed : Option ℕ → Text → Text
pushed none s = s
pushed (some c) s = c ∷ s

-- The loops of `name`, `string` and `url` on fuel: each round takes a character.
unfoldable pub name_from : ℕ → Text → Result GuardError (Text × Text)
unfolding escape
name_from fuel [] = ok ([], [])
name_from zero (c ∷ s) = err out_of_fuel
name_from (suc fuel) (c ∷ s) = elim (c == b'\\') [
  | true ↦ (do e ← escape s; n ← name_from fuel e.1; ok (pushed e.0 n.0, n.1))
  | false ↦ elim (is_name_char c) [
    | true ↦ (do n ← name_from fuel s; ok (c ∷ n.0, n.1))
    | false ↦ ok ([], c ∷ s)
  ]
]

abbrev pub name : Text → Result GuardError (Text × Text)
name s = name_from (length s) s

unfoldable pub string_from : ℕ → ℕ → Text → Result GuardError (Text × Text)
unfolding escape
string_from fuel quote [] = err invalid_css
string_from zero quote (c ∷ s) = err out_of_fuel
string_from (suc fuel) quote (c ∷ s) = elim (c == quote) [
  | true ↦ ok ([], s)
  | false ↦ elim (c == b'\\') [
    | true ↦ (do e ← escape s; t ← string_from fuel quote e.1; ok (pushed e.0 t.0, t.1))
    | false ↦ elim (newline c) [
      | true ↦ err invalid_css
      | false ↦ (do t ← string_from fuel quote s; ok (c ∷ t.0, t.1))
    ]
  ]
]

abbrev pub string : ℕ → Text → Result GuardError (Text × Text)
string quote s = string_from (length s) quote s

unfoldable pub bare_from : ℕ → Text → Result GuardError (Text × Text)
unfolding escape
bare_from fuel [] = ok ([], [])
bare_from zero (c ∷ s) = err out_of_fuel
bare_from (suc fuel) (c ∷ s) = elim (c == b')' || space c) [
  | true ↦ ok ([], c ∷ s)
  | false ↦ elim (c == b'\'' || c == b'"' || c == b'(') [
    | true ↦ err invalid_css
    | false ↦ elim (c == b'\\') [
      | true ↦ (do e ← escape s; t ← bare_from fuel e.1; ok (pushed e.0 t.0, t.1))
      | false ↦ (do t ← bare_from fuel s; ok (c ∷ t.0, t.1))
    ]
  ]
]

-- The argument of `url` up to its end: quoted, or up to a parenthesis or a space.
unfoldable pub argument : Text → Result GuardError (Text × Text)
unfolding string_from bare_from
argument [] = bare_from 0 []
argument (c ∷ s) =
    if c == b'\'' || c == b'"' then string c s else bare_from (length (c ∷ s)) (c ∷ s)

-- `chars.next() != Some(')')`
unfoldable pub close : Text → Result GuardError Text
close [] = err invalid_css
close (c ∷ s) = if c == b')' then ok s else err invalid_css

unfoldable pub url : Text → Result GuardError (Text × Text)
unfolding argument skip_from close
url s = do
  t ← argument (skip_space_and_comments s)
  rest ← close (skip_space_and_comments t.1)
  ok (t.0, rest)

-- `if chars.next_if_eq(&'(').is_some() { … }`, behind the name `url`.
unfoldable pub url_call : Text → Result GuardError (Option Text × Text)
unfolding url validate_reference
url_call [] = ok (none, [])
url_call (c ∷ s) =
    if c == b'('
    then (do r ← url s; validate_reference r.0; ok (some r.0, r.1))
    else ok (none, c ∷ s)

-- The `match ch` of `references`: the reference that it adds, and the rest.
unfoldable pub token : ℕ → Text → Result GuardError (Option Text × Text)
unfolding name_from string_from escape url_call eq_ignore_ascii_case skip_from
token c s =
    if c == b'\'' || c == b'"'
    then (do t ← string c s; ok (none, t.1))
    else if c == b'@'
    then (do
      n ← name s
      reject (eq_ignore_ascii_case n.0 (codes "import")) import_not_allowed
      ok (none, n.1))
    else if is_name_char c || c == b'\\'
    then (do
      first ← (if c == b'\\' then escape s else ok (some c, s))
      n ← name first.1
      (if eq_ignore_ascii_case (pushed first.0 n.0) (codes "url")
          then url_call (skip_space_and_comments n.1)
          else ok (none, n.1)))
    else ok (none, s)

-- `references.push(reference)`
abbrev pub add : List Text → Option Text → List Text
add references none = references
add references (some r) = references ++ r ∷ []

-- The loop of `references`, each round of which takes a character.
unfoldable pub references_from : ℕ → List Text → Text → Result GuardError (List Text)
unfolding token skip_from
references_from fuel references [] = ok references
references_from zero references (c ∷ s) = err out_of_fuel
references_from (suc fuel) references (c ∷ s) = elim (skip_space_and_comments (c ∷ s)) [
  | [] ↦ ok references
  | ◌∷◌ d t ↦ (do r ← token d t; references_from fuel (add references r.0) r.1)
]

unfoldable pub references : Text → Result GuardError (List Text)
unfolding references_from
references value = references_from (length value) [] value

unfoldable pub validate_urls : Text → Result GuardError (Unit {0})
unfolding references
validate_urls value = do found ← references value; ok tt
