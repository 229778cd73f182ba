-- ===== src/Ctx/Transform/Picks.antt =====
-- The loop of `stream_direct` (tools/src/pira_ctx/transform.rs): it keeps the candidates, in their order.
use pira.Common.{
  ℕ, suc, ◌+◌, ◌≤◌, ◌≡◌, refl, Bool, true, false, List, [], ◌∷◌, Text, Result, ok, Bool-cases, inl,
  inr, length, arith,
}
use pira.Common.Utf8.{utf8}
use pira.Dec.Model.{contains}
use pira.Ctx.Transform.{
  TransformError, TransformOptions, Pattern, retain_unique, Flow, continues, Direct, keep_into,
  keep_fresh, keep_unless_seen, pick, is_picked, line_bytes, max_unique_values,
  max_materialized_bytes,
}
use pira.Ctx.Transform.Rows.{
  candidates, candidates_passed, candidates_all, candidates_again, candidates_fresh,
}

-- The bytes of texts, each with its line feed.
abbrev pub total : List Text → ℕ
total [] = 0
total (t ∷ texts) = line_bytes t + total texts

-- There is room for so many values more among those seen.
pub record HasRoom (d : Direct) (texts : List Text) : Type 0 where
  pub values : length d.seen + length texts ≤ max_unique_values
  pub bytes : d.seen_bytes + total texts ≤ max_materialized_bytes

retain_unique-again :
    (seen : List Text) (bytes : ℕ) (t : Text)
    → contains t seen ≡ true
    → retain_unique seen bytes t ≡ ok (record { fresh = false; seen = seen; bytes = bytes })
unfolding retain_unique
retain_unique-again seen bytes t c = rw (retain_unique, c) refl

retain_unique-fresh :
    (seen : List Text) (bytes : ℕ) (t : Text)
    → contains t seen ≡ false
    → suc (length seen) ≤ max_unique_values
    → bytes + line_bytes t ≤ max_materialized_bytes
    → retain_unique seen bytes t
      ≡ ok (record { fresh = true; seen = t ∷ seen; bytes = bytes + length (utf8 t) })
unfolding retain_unique
retain_unique-fresh seen bytes t c n b = ground (arith, c)

module _ (unique : Bool) (options : TransformOptions) (matches excludes : List Pattern) where
  abbrev pub rest_of : List Text → List Text → List Text
  rest_of = candidates unique matches excludes

  -- What a round makes of a text: it passes over it, or it keeps it as a candidate.
  pub data Picks (d : Direct) (t : Text) : Result TransformError (Flow Direct) → Type 0 where
    passes :
        ((ts : List Text) → rest_of d.seen (t ∷ ts) ≡ rest_of d.seen ts)
        → Picks d t (ok (continues d))
    keeps :
        (seen : List Text) (bytes : ℕ)
        → length seen ≤ suc (length d.seen)
        → bytes ≤ d.seen_bytes + line_bytes t
        → ((ts : List Text) → rest_of d.seen (t ∷ ts) ≡ t ∷ rest_of seen ts)
        → Picks d t (keep_into options (record d { seen = seen; seen_bytes = bytes }) t)

module _ (options : TransformOptions) (matches excludes : List Pattern) (d : Direct)
    (t : Text) where
  keep_unless_seen-Picks :
      (unique : Bool)
      → is_picked matches excludes t ≡ true
      → (unique ≡ true
          → (suc (length d.seen) ≤ max_unique_values)
            × (d.seen_bytes + line_bytes t ≤ max_materialized_bytes))
      → Picks unique options matches excludes d t (keep_unless_seen unique options d t)
  unfolding keep_unless_seen
  keep_unless_seen-Picks false p room =
      keeps d.seen d.seen_bytes (omega arith) (omega arith)
        (λ ts. candidates_all matches excludes d.seen t ts p)
  keep_unless_seen-Picks true p room = elim (Bool-cases (contains t d.seen)) [
    | inl c ↦
        rw (retain_unique-again d.seen d.seen_bytes t c, keep_fresh)
          (passes λ ts. candidates_again matches excludes d.seen t ts p c)
    | inr c ↦
        let (n, b) = room refl in
        rw (retain_unique-fresh d.seen d.seen_bytes t c n b, keep_fresh)
          (keeps (t ∷ d.seen) (d.seen_bytes + length (utf8 t)) (omega arith) (omega arith)
            (λ ts. candidates_fresh matches excludes d.seen t ts p c))
  ]

  pub pick-Picks :
      (options.unique ≡ true
        → (suc (length d.seen) ≤ max_unique_values)
          × (d.seen_bytes + line_bytes t ≤ max_materialized_bytes))
      → Picks options.unique options matches excludes d t (pick options matches excludes d t)
  unfolding pick
  pick-Picks room = elim (Bool-cases (is_picked matches excludes t)) [
    | inr f ↦
        rw (pick, f) (passes λ ts. candidates_passed matches excludes d.seen t ts options.unique f)
    | inl p ↦ rw (pick, p) (keep_unless_seen-Picks options.unique p room)
  ]
