-- ===== src/SvgCheck/Css/Local.antt =====
-- What the scanner of tools/src/pira_svg_check/css.rs accepts refers to nothing outside the file.
use pira.Common.{
  ℕ, zero, suc, ◌≡◌, sym, ◌∙◌, Bool, true, false, ◌||◌, List, [], ◌∷◌, ◌++◌, Option, none, some,
  ◌==◌, if◌then◌else◌, Text, codes, Result, ok, err, reject, ◌>>=◌, ◌>>◌, arith, All, All-append,
  take, drop, take-append-drop, map, list_eq_iff, Bool-cases, inl, inr, subst, ok-injective,
}
use pira.Common.Chars.{trim}
use pira.SvgCheck.Css.{
  GuardError, external, lowercase, eq_ignore_ascii_case, is_local, validate_reference, url,
  url_call, escape, name, string, skip_space_and_comments, pushed, is_name_char, import_not_allowed,
  token, add, references_from, references,
}
use pira.SvgCheck.Css.Shrinks.{List-cases}

-- A reference within the file: nothing, a fragment, or data, whatever the letters' case.
pub data IsLocal : Text → Type 0 where
  nothing : {r : Text} → trim r ≡ [] → IsLocal r
  fragment : {r : Text} (rest : Text) → trim r ≡ b'#' ∷ rest → IsLocal r
  data_url :
      {r : Text} (scheme rest : Text)
      → trim r ≡ scheme ++ rest
      → map lowercase scheme ≡ codes "data:"
      → IsLocal r

headed-IsLocal :
    (r : Text) (c : ℕ) (t : Text) → trim r ≡ c ∷ t → is_local (c ∷ t) ≡ true → IsLocal r
unfolding is_local eq_ignore_ascii_case
headed-IsLocal r c t e k = elim (Bool-cases (c == b'#')) [
  | inl q ↦ let hash : c ≡ b'#' = ground arith in fragment t (rw hash at e)
  | inr q ↦
      let same = (list_eq_iff (map lowercase (take 5 (c ∷ t))) (codes "data:")).0 (rw q at k) in
      data_url (take 5 (c ∷ t)) (drop 5 (c ∷ t)) (e ∙ sym (take-append-drop 5 (c ∷ t))) same
]

is_local-IsLocal : (r : Text) → is_local (trim r) ≡ true → IsLocal r
is_local-IsLocal r h = elim (List-cases (trim r)) [
  | inl e ↦ nothing e
  | inr (c, t, e) ↦ headed-IsLocal r c t e (rw e at h)
]

-- A step that adds no reference but a local one.
data Adds : Result GuardError (Option Text × Text) → Type 0 where
  adds_none : (s : Text) → Adds (ok (none, s))
  adds_local : (r s : Text) → IsLocal r → Adds (ok (some r, s))
  refused : (e : GuardError) → Adds (err e)

bind-Adds :
    {A : Type 0} (step : Result GuardError A) {next : A → Result GuardError (Option Text × Text)}
    → ((a : A) → Adds (next a))
    → Adds (step >>= next)
bind-Adds (ok a) k = k a
bind-Adds (err e) k = refused e

if-Adds :
    (b : Bool) {x y : Result GuardError (Option Text × Text)}
    → Adds x
    → Adds y
    → Adds (if b then x else y)
if-Adds true p q = p
if-Adds false p q = q

reference-Adds : (r s : Text) → Adds (validate_reference r >> ok (some r, s))
unfolding validate_reference
reference-Adds r s = elim (Bool-cases (is_local (trim r))) [
  | inl t ↦ rw t (adds_local r s (is_local-IsLocal r t))
  | inr t ↦ rw t (refused (external (trim r)))
]

url_call-Adds : (s : Text) → Adds (url_call s)
unfolding url_call
url_call-Adds [] = adds_none []
url_call-Adds (c ∷ s) =
    if-Adds (c == b'(') (bind-Adds (url s) (λ r. reference-Adds r.0 r.1)) (adds_none (c ∷ s))

token-Adds : (c : ℕ) (s : Text) → Adds (token c s)
unfolding token
token-Adds c s = if-Adds (c == b'\'' || c == b'"') (bind-Adds (string c s) (λ t. adds_none t.1)) (
    if-Adds (c == b'@')
      (bind-Adds (name s) (λ n.
        bind-Adds (reject (eq_ignore_ascii_case n.0 (codes "import")) import_not_allowed)
          (λ u. adds_none n.1)))
      (if-Adds (is_name_char c || c == b'\\')
        (bind-Adds (if c == b'\\' then escape s else ok (some c, s)) (λ first.
          bind-Adds (name first.1) (λ n.
            if-Adds (eq_ignore_ascii_case (pushed first.0 n.0) (codes "url"))
              (url_call-Adds (skip_space_and_comments n.1)) (adds_none n.1))))
        (adds_none s)))

add-IsLocal :
    (step : Result GuardError (Option Text × Text))
    (next : Option Text × Text → Result GuardError (List Text)) (found all : List Text)
    → Adds step
    → ((r : Option Text) (s : Text)
        → All IsLocal (add found r)
        → next (r, s) ≡ ok all
        → All IsLocal all)
    → All IsLocal found
    → (step >>= next) ≡ ok all
    → All IsLocal all
add-IsLocal step next found all (adds_none s) k h e = k none s h e
add-IsLocal step next found all (adds_local r s p) k h e =
    k (some r) s (All-append IsLocal found (r ∷ []) h (p, tt)) e
add-IsLocal step next found all (refused x) k h e = absurd cc

references_from-IsLocal :
    (fuel : ℕ) (found all : List Text) (s : Text)
    → All IsLocal found
    → references_from fuel found s ≡ ok all
    → All IsLocal all
unfolding references_from
references_from-IsLocal fuel found all [] h e = subst (All IsLocal) (ok-injective e) h
references_from-IsLocal zero found all (c ∷ s) h e = absurd cc
references_from-IsLocal (suc fuel) found all (c ∷ s) h e =
    elim (List-cases (skip_space_and_comments (c ∷ s))) [
      | inl q ↦ subst (All IsLocal) (ok-injective (rw (references_from, q) at e)) h
      | inr (d, t, q) ↦
          add-IsLocal (token d t) _ found all (token-Adds d t)
            (λ r rest p e'. references_from-IsLocal fuel (add found r) all rest p e') h
            (rw (references_from, q) at e)
    ]

-- If the scanner accepts a style, each reference that it finds is nothing, a fragment of the file,
-- or a data URL.
pub references-IsLocal :
    (value : Text) (found : List Text) → references value ≡ ok found → All IsLocal found
unfolding references
references-IsLocal value found e = references_from-IsLocal _ [] found value tt e
