-- ===== src/SvgCheck/Css/Shrinks.antt =====
-- The scanner of tools/src/pira_svg_check/css.rs comes to an end: no step gives back more than it
-- was given, so the rounds of each loop are no more than the characters.
use pira.Common.{
  ℕ, zero, suc, ◌≤◌, ◌≡◌, ◌≢◌, refl, Bool, true, false, ◌||◌, List, [], ◌∷◌, Option, none, some,
  ◌==◌, if◌then◌else◌, Text, codes, Result, ok, err, reject, ◌>>=◌, ◌>>◌, arith, length, Bool-cases,
  ◌⊎◌, inl, inr, subst, is_ascii_hexdigit,
}
use pira.SvgCheck.Css.{
  GuardError, out_of_fuel, invalid_css, import_not_allowed, space, newline, skip_from,
  skip_space_and_comments, skip_if, hex_digits, skip_end, escape, name_from, string_from, bare_from,
  argument, close, url, validate_reference, url_call, token, references_from, references, pushed,
  is_name_char, add, eq_ignore_ascii_case,
}

abbrev is_out_of_fuel : GuardError → Bool
is_out_of_fuel out_of_fuel = true
is_out_of_fuel _ = false

-- A step that leaves at most `n` characters or refuses, but not for want of fuel.
data Leaves {A : Type 0} (n : ℕ) : Result GuardError (A × Text) → Type 0 where
  leaves : (a : A) (s : Text) → length s ≤ n → Leaves n (ok (a, s))
  refuses : (e : GuardError) → is_out_of_fuel e ≡ false → Leaves n (err e)

bind-Leaves :
    {A B : Type 0} {m n : ℕ} {step : Result GuardError (A × Text)}
    (next : A × Text → Result GuardError (B × Text))
    → Leaves m step
    → ((a : A) (s : Text) → length s ≤ m → Leaves n (next (a, s)))
    → Leaves n (step >>= next)
bind-Leaves next (leaves a s h) k = k a s h
bind-Leaves next (refuses e h) k = refuses e h

if-Leaves :
    {A : Type 0} {n : ℕ} (b : Bool) {x y : Result GuardError (A × Text)}
    → Leaves n x
    → Leaves n y
    → Leaves n (if b then x else y)
if-Leaves true p q = p
if-Leaves false p q = q

reject-Leaves :
    {A : Type 0} {n : ℕ} (b : Bool) (e : GuardError) {rest : Result GuardError (A × Text)}
    → is_out_of_fuel e ≡ false
    → Leaves n rest
    → Leaves n (reject b e >> rest)
reject-Leaves true e h p = refuses e h
reject-Leaves false e h p = p

pub length-skip_from : (comment : Bool) (s : Text) → length (skip_from comment s) ≤ length s
unfolding skip_from
length-skip_from comment [] = omega arith
length-skip_from false (c ∷ []) = ground arith
length-skip_from false (c ∷ d ∷ s) =
    let one = length-skip_from false (d ∷ s) in let two = length-skip_from true s in ground arith
length-skip_from true (c ∷ []) = omega arith
length-skip_from true (c ∷ d ∷ s) =
    let one = length-skip_from true (d ∷ s) in let two = length-skip_from false s in ground arith

length-skip_if : (c : ℕ) (s : Text) → length (skip_if c s) ≤ length s
unfolding skip_if
length-skip_if c [] = omega arith
length-skip_if c (d ∷ s) = ground arith

length-skip_end : (s : Text) → length (skip_end s) ≤ length s
unfolding skip_end
length-skip_end [] = omega arith
length-skip_end (c ∷ s) = let one = length-skip_if 0xA s in ground arith

length-hex_digits : (n value : ℕ) (s : Text) → length (hex_digits n value s).1 ≤ length s
unfolding hex_digits
length-hex_digits zero value s = omega arith
length-hex_digits (suc n) value [] = omega arith
length-hex_digits (suc n) value (c ∷ s) =
    let one = λ (v : ℕ). length-hex_digits n v s in
    elim (Bool-cases (is_ascii_hexdigit c)) [
      | inl t ↦ rw (hex_digits, t) (omega (arith, one _))
      | inr t ↦ rw (hex_digits, t) (omega arith)
    ]

weaken :
    {A : Type 0} {m n : ℕ} {step : Result GuardError (A × Text)}
    → m ≤ n
    → Leaves m step
    → Leaves n step
weaken h (leaves a s p) = leaves a s (omega arith)
weaken h (refuses e p) = refuses e p

newline_end : (c : ℕ) (s : Text) → length (if c == 0xD then skip_if 0xA s else s) ≤ length (c ∷ s)
newline_end c s = let one = length-skip_if 0xA s in ground arith

escape-Leaves : (s : Text) → Leaves (length s) (escape s)
unfolding escape
escape-Leaves [] = refuses invalid_css refl
escape-Leaves (c ∷ s) =
    if-Leaves (is_ascii_hexdigit c)
      (leaves _ _ (omega (arith, length-skip_end (hex_digits 5 _ s).1, length-hex_digits 5 _ s)))
      (if-Leaves (newline c) (leaves _ _ (newline_end c s)) (leaves _ _ (omega arith)))

Leaves-length : {A : Type 0} {n : ℕ} {a : A} {s : Text} → Leaves n (ok (a, s)) → length s ≤ n
Leaves-length (leaves a s p) = p

pub escape-length :
    (s : Text) {rest : Text} {o : Option ℕ} → escape s ≡ ok (o, rest) → length rest ≤ length s
escape-length s e = Leaves-length (subst (Leaves (length s)) e (escape-Leaves s))

-- A round that reads an escape and then goes on, and one that goes on at once.
escaped-Leaves :
    {A B : Type 0} (s : Text) (go : Text → Result GuardError (A × Text)) (f : Option ℕ → A → B)
    (n : ℕ)
    → length s ≤ n
    → ((t : Text) → length t ≤ length s → Leaves (length t) (go t))
    → Leaves n (escape s >>= λ e. go e.1 >>= λ p. ok (f e.0 p.0, p.1))
escaped-Leaves s go f n h k =
    bind-Leaves _ (escape-Leaves s)
      (λ a t p. bind-Leaves _ (k t p) (λ b r q. leaves (f a b) r (omega arith)))

read-Leaves :
    {A B : Type 0} {m : ℕ} {step : Result GuardError (A × Text)} (f : A → B) (n : ℕ)
    → m ≤ n
    → Leaves m step
    → Leaves n (step >>= λ p. ok (f p.0, p.1))
read-Leaves f n h p = bind-Leaves _ p (λ a s q. leaves (f a) s (omega arith))

name_from-Leaves : (fuel : ℕ) (s : Text) → length s ≤ fuel → Leaves (length s) (name_from fuel s)
unfolding name_from
name_from-Leaves fuel [] h = leaves _ _ (omega arith)
name_from-Leaves zero (c ∷ s) h = absurd (omega arith)
name_from-Leaves (suc fuel) (c ∷ s) h =
    let again =
      λ (t : Text) (p : length t ≤ length s). name_from-Leaves fuel t (omega (arith, p, h)) in
    elim (Bool-cases (c == b'\\')) [
      | inl t ↦ rw (name_from, t) (escaped-Leaves s (name_from fuel) pushed _ (omega arith) again)
      | inr t ↦ elim (Bool-cases (is_name_char c)) [
        | inl k ↦ rw (name_from, t, k) (read-Leaves (◌∷◌ c) _ (omega arith) (again s (omega arith)))
        | inr k ↦ rw (name_from, t, k) (leaves _ _ (omega arith))
      ]
    ]

string_from-Leaves :
    (fuel quote : ℕ) (s : Text) → length s ≤ fuel → Leaves (length s) (string_from fuel quote s)
unfolding string_from
string_from-Leaves fuel quote [] h = refuses invalid_css refl
string_from-Leaves zero quote (c ∷ s) h = absurd (omega arith)
string_from-Leaves (suc fuel) quote (c ∷ s) h =
    let again = λ (t : Text) (p : length t ≤ length s).
      string_from-Leaves fuel quote t (omega (arith, p, h)) in
    elim (Bool-cases (c == quote)) [
      | inl q ↦ rw (string_from, q) (leaves _ _ (omega arith))
      | inr q ↦ elim (Bool-cases (c == b'\\')) [
        | inl t ↦
            rw (string_from, q, t)
              (escaped-Leaves s (string_from fuel quote) pushed _ (omega arith) again)
        | inr t ↦ elim (Bool-cases (newline c)) [
          | inl k ↦ rw (string_from, q, t, k) (refuses invalid_css refl)
          | inr k ↦
              rw (string_from, q, t, k)
                (read-Leaves (◌∷◌ c) _ (omega arith) (again s (omega arith)))
        ]
      ]
    ]

bare_from-Leaves : (fuel : ℕ) (s : Text) → length s ≤ fuel → Leaves (length s) (bare_from fuel s)
unfolding bare_from
bare_from-Leaves fuel [] h = leaves _ _ (omega arith)
bare_from-Leaves zero (c ∷ s) h = absurd (omega arith)
bare_from-Leaves (suc fuel) (c ∷ s) h =
    let again =
      λ (t : Text) (p : length t ≤ length s). bare_from-Leaves fuel t (omega (arith, p, h)) in
    elim (Bool-cases (c == b')' || space c)) [
      | inl q ↦ rw (bare_from, q) (leaves _ _ (omega arith))
      | inr q ↦ elim (Bool-cases (c == b'\'' || c == b'"' || c == b'(')) [
        | inl t ↦ rw (bare_from, q, t) (refuses invalid_css refl)
        | inr t ↦ elim (Bool-cases (c == b'\\')) [
          | inl k ↦
              rw (bare_from, q, t, k)
                (escaped-Leaves s (bare_from fuel) pushed _ (omega arith) again)
          | inr k ↦
              rw (bare_from, q, t, k) (read-Leaves (◌∷◌ c) _ (omega arith) (again s (omega arith)))
        ]
      ]
    ]

argument-Leaves : (s : Text) → Leaves (length s) (argument s)
unfolding argument bare_from
argument-Leaves [] = leaves _ _ (omega arith)
argument-Leaves (c ∷ s) =
    if-Leaves (c == b'\'' || c == b'"')
      (weaken (omega arith) (string_from-Leaves (length s) c s (omega arith)))
      (bare_from-Leaves (length (c ∷ s)) (c ∷ s) (omega arith))

closed-Leaves :
    (a : Text) (s : Text) (n : ℕ) → length s ≤ n → Leaves n (close s >>= λ rest. ok (a, rest))
unfolding close
closed-Leaves a [] n h = refuses invalid_css refl
closed-Leaves a (c ∷ s) n h = elim (Bool-cases (c == b')')) [
  | inl t ↦ rw (close, t) (leaves a s (omega arith))
  | inr t ↦ rw (close, t) (refuses invalid_css refl)
]

url-Leaves : (s : Text) → Leaves (length s) (url s)
unfolding url
url-Leaves s = bind-Leaves _ (argument-Leaves (skip_space_and_comments s)) (λ a t p.
    closed-Leaves a (skip_space_and_comments t) _
      (omega (arith, p, length-skip_from false s, length-skip_from false t)))

url_call-Leaves : (s : Text) → Leaves (length s) (url_call s)
unfolding url_call validate_reference
url_call-Leaves [] = leaves _ _ (omega arith)
url_call-Leaves (c ∷ s) =
    if-Leaves (c == b'(')
      (bind-Leaves _ (url-Leaves s) (λ a t p. reject-Leaves _ _ refl (leaves _ _ (omega arith))))
      (leaves _ _ (omega arith))

token-Leaves : (c : ℕ) (s : Text) → Leaves (length s) (token c s)
unfolding token
token-Leaves c s =
    if-Leaves (c == b'\'' || c == b'"')
      (read-Leaves (λ _. none) _ (omega arith) (string_from-Leaves (length s) c s (omega arith)))
      (if-Leaves (c == b'@')
        (bind-Leaves _ (name_from-Leaves (length s) s (omega arith)) (λ a t p.
          reject-Leaves (eq_ignore_ascii_case a (codes "import")) import_not_allowed refl
            (leaves none t p)))
        (if-Leaves (is_name_char c || c == b'\\')
          (bind-Leaves _
            (if-Leaves (c == b'\\') (escape-Leaves s) (leaves (some c) s (omega arith)))
            (λ a t p. bind-Leaves _ (name_from-Leaves (length t) t (omega arith)) (λ b r q.
              if-Leaves (eq_ignore_ascii_case (pushed a b) (codes "url"))
                (weaken (omega (arith, p, q, length-skip_from false r))
                  (url_call-Leaves (skip_space_and_comments r)))
                (leaves none r (omega arith)))))
          (leaves none s (omega arith))))

-- A step that leaves little, in front of what does not run out of fuel on it.
then-ne-out_of_fuel :
    {A : Type 0} {n : ℕ} {step : Result GuardError (A × Text)}
    (next : A × Text → Result GuardError (List Text))
    → Leaves n step
    → ((a : A) (s : Text) → length s ≤ n → next (a, s) ≢ err out_of_fuel)
    → (step >>= next) ≢ err out_of_fuel
then-ne-out_of_fuel next (leaves a s p) k e = k a s p e
then-ne-out_of_fuel next (refuses x p) k e = cc

pub List-cases : (s : Text) → (s ≡ []) ⊎ ((c : ℕ) × (t : Text) × (s ≡ c ∷ t))
List-cases [] = inl refl
List-cases (c ∷ t) = inr (c, t, refl)

-- The loop, given as many rounds as there are characters.
references_from-ne-out_of_fuel :
    (fuel : ℕ) (found : List Text) (s : Text)
    → length s ≤ fuel
    → references_from fuel found s ≢ err out_of_fuel
unfolding references_from
references_from-ne-out_of_fuel fuel found [] h = λ e. cc
references_from-ne-out_of_fuel zero found (c ∷ s) h = absurd (omega arith)
references_from-ne-out_of_fuel (suc fuel) found (c ∷ s) h =
    let shorter = length-skip_from false (c ∷ s) in
    elim (List-cases (skip_space_and_comments (c ∷ s))) [
      | inl q ↦ rw (references_from, q) (λ e. cc)
      | inr (d, t, q) ↦
          let small : length (d ∷ t) ≤ length (c ∷ s) = rw q at shorter in
          rw (references_from, q)
            (then-ne-out_of_fuel _ (token-Leaves d t) (λ a r p.
              references_from-ne-out_of_fuel fuel (add found a) r (omega (arith, p, small, h))))
    ]

-- The loop of `references` takes at most as many rounds as there are characters: it ends with the
-- references or with one of the program's errors, whatever it is given.
pub references-ne-out_of_fuel : (value : Text) → references value ≢ err out_of_fuel
unfolding references
references-ne-out_of_fuel value e =
    references_from-ne-out_of_fuel (length value) [] value (omega arith) e
