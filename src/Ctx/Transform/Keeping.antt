-- ===== src/Ctx/Transform/Keeping.antt =====
-- What `stream_direct` (tools/src/pira_ctx/transform.rs) keeps of its candidates, one after the other.
use pira.Common.{
  ℕ, suc, ◌≡◌, refl, ◌∙◌, Bool, true, false, List, [], ◌∷◌, ◌++◌, Option, none, some, ltb, Text,
  Result, ok, err, Bool-cases, inl, inr, arith,
}
use pira.Ctx.Transform.{
  TransformError, TransformOptions, Kept, keep, keep_line, keep_tail, keep_output, tail_too_large,
  Flow, continues, breaks, go_on, pop_from, max_materialized_bytes, max_return_bytes,
  saturating_add, line_bytes,
}

-- The candidates are kept until the loop ends.
unfoldable pub keep_all : Bool → Option ℕ → List Text → Kept → Result TransformError Kept
unfolding keep_line
keep_all count tail [] k = ok k
keep_all count tail (t ∷ texts) k =
    go_on (keep_all count tail texts)
      (keep_line count tail (record k { selected = suc k.selected }) t)

-- A round that goes on has selected one line more.
pub data Counted (k : Kept) : Result TransformError (Flow Kept) → Type 0 where
  counted_on : (k' : Kept) → k'.selected ≡ suc k.selected → Counted k (ok (continues k'))
  counted_last : (k' : Kept) → Counted k (ok (breaks k'))
  counted_error : (why : TransformError) → Counted k (err why)

pop_from-selected :
    (texts : List Text) (limit : ℕ) (k : Kept) → (pop_from texts limit k).selected ≡ k.selected
pop_from-selected [] limit k = refl
pop_from-selected (t ∷ texts) limit k = ground arith

keep_line-Counted :
    (count : Bool) (tail : Option ℕ) (k k' : Kept) (t : Text)
    → k'.selected ≡ suc k.selected
    → Counted k (keep_line count tail k' t)
unfolding keep_line keep_tail keep_output
keep_line-Counted true tail k k' t e = counted_on k' e
keep_line-Counted false (some limit) k k' t e =
    let pushed : Kept = record k' {
      tail = k'.tail ++ t ∷ [];
      tail_bytes = saturating_add k'.tail_bytes (line_bytes t);
    } in
    let popped = pop_from pushed.tail limit pushed in
    elim (Bool-cases (ltb max_materialized_bytes popped.tail_bytes)) [
      | inl o ↦ rw (keep_line, keep_tail, o) (counted_error tail_too_large)
      | inr f ↦
          rw (keep_line, keep_tail, f)
            (counted_on popped (pop_from-selected pushed.tail limit pushed ∙ e))
    ]
keep_line-Counted false none k k' t e =
    let bytes = saturating_add k'.output_bytes (line_bytes t) in
    elim (Bool-cases (ltb max_return_bytes bytes)) [
      | inl o ↦ rw (keep_line, keep_output, o) (counted_last _)
      | inr f ↦ rw (keep_line, keep_output, f) (counted_on _ e)
    ]

pub keep-Counted : (options : TransformOptions) (k : Kept) (t : Text) → Counted k (keep options k t)
unfolding keep
keep-Counted options k t = keep_line-Counted options.count options.tail k _ t refl
