-- ===== src/Common/Outcome.antt =====
-- Rust's `Result<A, E>`. The errors of the program are formatted strings; the model names each
-- message by a constructor of an error type, so that a theorem can tell which check refused.
use mathlib.Core.Bool.{Bool, true, false}
use mathlib.Core.Logic.{◌⊎◌, inl, inr}
use mathlib.Core.Option.{Option, none, some}
use mathlib.Core.Path.{◌≡◌, refl}

pub data Result {ℓ} (E : Type 0) (A : Type ℓ) : Type ℓ where
  ok : A → Result E A
  err : E → Result E A

module _ {ℓ κ} {E : Type 0} {X : Type ℓ} {Y : Type κ} where
  -- `?`
  infixl 5 ◌>>=◌
  abbrev pub ◌>>=◌ : Result E X → (X → Result E Y) → Result E Y
  err why >>= next = err why
  ok x >>= next = next x

  -- A chain that succeeds has a first step that does, and a rest that does on its value.
  pub >>=-eq-ok :
      (first : Result E X) (next : X → Result E Y) {y : Y}
      → (first >>= next) ≡ ok y
      → (x : X) × (first ≡ ok x) × (next x ≡ ok y)
  >>=-eq-ok (err why) next done = cc
  >>=-eq-ok (ok x) next done = (x, refl, done)

module _ {ℓ} {E : Type 0} {Y : Type ℓ} where
  infixl 5 ◌>>◌
  abbrev pub ◌>>◌ : Result E (Unit {0}) → Result E Y → Result E Y
  check >> rest = check >>= λ _. rest

  pub >>-eq-ok :
      (check : Result E (Unit {0})) (rest : Result E Y) {y : Y}
      → (check >> rest) ≡ ok y
      → (check ≡ ok tt) × (rest ≡ ok y)
  >>-eq-ok (err why) rest done = cc
  >>-eq-ok (ok u) rest done = (refl, done)

-- `if bad { return Err(e) }`
abbrev pub reject : {E : Type 0} → Bool → E → Result E (Unit {0})
reject true e = err e
reject false e = ok tt

-- `ok_or`
abbrev pub ok_or {ℓ} : {E : Type 0} {A : Type ℓ} → Option A → E → Result E A
ok_or (some a) e = ok a
ok_or none e = err e

pub reject-eq-ok : {E : Type 0} (b : Bool) (e : E) → reject b e ≡ ok tt → b ≡ false
reject-eq-ok true e h = cc
reject-eq-ok false e h = refl

pub ok-injective {ℓ} :
    {E : Type 0} {A : Type ℓ} {a b : A} → ◌≡◌ {A = Result E A} (ok a) (ok b) → a ≡ b
ok-injective h = cc

pub Result-cases {ℓ} :
    {E : Type 0} {A : Type ℓ} (r : Result E A)
    → ((why : E) × (r ≡ err why)) ⊎ ((a : A) × (r ≡ ok a))
Result-cases (err why) = inl (why, refl)
Result-cases (ok a) = inr (a, refl)
