-- ===== src/Ctx/Transform/Tail.antt =====
-- What is left of the candidates of `stream_direct` (tools/src/pira_ctx/transform.rs): their number, the
-- last of them, or the first of them up to what a report can hold.
use pira.Common.{
  ◌⊎◌, ℕ, suc, ◌+◌, ◌-◌, ◌≤◌, ◌<◌, ◌≡◌, refl, sym, ap, ◌∙◌, true, false, List, [], ◌∷◌, ◌++◌,
  append_assoc, append-nil, Option, none, some, ltb, le→ltb_false, Text, ok, Bool-cases, inl, inr,
  length, length-append, arith,
}
use pira.Ctx.Transform.{
  Kept, keep_line, keep_tail, keep_output, pop_from, max_materialized_bytes, max_return_bytes,
  saturating_add, line_bytes,
}
use pira.Ctx.Transform.Rows.{lasts}
use pira.Ctx.Transform.Keeping.{keep_all}
use pira.Ctx.Transform.Picks.{total}

pub keep_all-count :
    (tail : Option ℕ) (texts : List Text) (k : Kept)
    → (k' : Kept) × (keep_all true tail texts k ≡ ok k') × (k'.selected ≡ k.selected + length texts)
unfolding keep_all keep_line
keep_all-count tail [] k = (k, refl, omega arith)
keep_all-count tail (t ∷ texts) k =
    let (k', done, n) = keep_all-count tail texts (record k { selected = suc k.selected }) in
    (k', done, omega (arith, n))

-- The first candidates, up to more than a report can hold.
pub record FirstOf (k k' : Kept) (texts : List Text) : Type 0 where
  pub behind : List Text
  pub same : k.output ++ texts ≡ k'.output ++ behind
  pub cut : (behind ≡ []) ⊎ (max_return_bytes < total k'.output)

total-append : (xs ys : List Text) → total (xs ++ ys) ≡ total xs + total ys
total-append [] ys = omega arith
total-append (t ∷ xs) ys = omega (arith, total-append xs ys)

total_push : (xs : List Text) (t : Text) → total (xs ++ t ∷ []) ≡ total xs + line_bytes t
total_push xs t = omega (arith, total-append xs (t ∷ []))

pub keep_all-output :
    (texts : List Text) (k : Kept)
    → k.output_bytes ≡ total k.output
    → (k' : Kept) × (keep_all false none texts k ≡ ok k') × FirstOf k k' texts
unfolding keep_all keep_line keep_output
keep_all-output [] k e = (k, refl, record { behind = []; same = refl; cut = inl refl })
keep_all-output (t ∷ texts) k e =
    let bytes = saturating_add k.output_bytes (line_bytes t) in
    let kept : Kept = record k {
      selected = suc k.selected;
      output = k.output ++ t ∷ [];
      output_bytes = bytes;
    } in
    let same : k.output ++ t ∷ texts ≡ (k.output ++ t ∷ []) ++ texts =
      sym (append_assoc k.output (t ∷ []) texts) in
    elim (Bool-cases (ltb max_return_bytes bytes)) [
      | inl o ↦ (
        kept,
        rw (keep_all, keep_line, keep_output, o) refl,
        record {
          behind = texts;
          same = same;
          cut = inr (ground (arith, e, total_push k.output t));
        },
      )
      | inr f ↦
          let (k', done, first) =
            keep_all-output texts kept (ground (arith, e, total_push k.output t)) in
          (
            k',
            rw (keep_all, keep_line, keep_output, f) done,
            record { behind = first.behind; same = same ∙ first.same; cut = first.cut },
          )
    ]

-- A deque that has been pushed to, and popped if it holds too much.
record IsPopped (limit : ℕ) (pushed : List Text) (k : Kept) : Type 0 where
  bytes : k.tail_bytes ≡ total k.tail
  short : length k.tail ≤ limit
  fewer : total k.tail ≤ total pushed
  lasts_of :
      (texts : List Text)
      → lasts (some limit) (k.tail ++ texts) ≡ lasts (some limit) (pushed ++ texts)

lasts-cons :
    (limit : ℕ) (t : Text) (texts : List Text)
    → limit ≤ length texts
    → lasts (some limit) texts ≡ lasts (some limit) (t ∷ texts)
lasts-cons limit t texts h =
    let more : length (t ∷ texts) - limit ≡ suc (length texts - limit) = omega arith in rw more refl

pop_from-IsPopped :
    (limit : ℕ) (pushed : List Text) (k : Kept)
    → k.tail ≡ pushed
    → k.tail_bytes ≡ total pushed
    → length pushed ≤ suc limit
    → IsPopped limit pushed (pop_from pushed limit k)
pop_from-IsPopped limit [] k e b n = record {
  bytes = b ∙ ap total (sym e);
  short = let none_kept = ap length e in omega (arith, none_kept);
  fewer = let none_kept = ap total e in omega (arith, none_kept);
  lasts_of = λ texts. ap (λ ys. lasts (some limit) (ys ++ texts)) e;
}
pop_from-IsPopped limit (t ∷ pushed) k e b n = elim (Bool-cases (ltb limit (length (t ∷ pushed)))) [
  | inl o ↦ rw o (record {
    bytes = omega (arith, b);
    short = omega arith;
    fewer = omega arith;
    lasts_of =
        λ texts. lasts-cons limit t (pushed ++ texts) (ground (arith, length-append pushed texts));
  })
  | inr f ↦ rw f (record {
    bytes = b ∙ ap total (sym e);
    short = let kept = ap length e in ground (arith, kept);
    fewer = let kept = ap total e in omega (arith, kept);
    lasts_of = λ texts. ap (λ ys. lasts (some limit) (ys ++ texts)) e;
  })
]

lasts_all :
    (limit : ℕ) (texts : List Text) → length texts ≤ limit → texts ≡ lasts (some limit) texts
lasts_all limit texts h =
    let none_over : length texts - limit ≡ 0 = omega arith in rw none_over refl

pub keep_all-tail :
    (limit : ℕ) (texts : List Text) (k : Kept)
    → k.tail_bytes ≡ total k.tail
    → length k.tail ≤ limit
    → total k.tail + total texts ≤ max_materialized_bytes
    → (k' : Kept) × (keep_all false (some limit) texts k ≡ ok k')
      × (k'.tail ≡ lasts (some limit) (k.tail ++ texts))
unfolding keep_all keep_line keep_tail
keep_all-tail limit [] k e n b =
    (k, refl, lasts_all limit k.tail n ∙ ap (lasts (some limit)) (sym (append-nil k.tail)))
keep_all-tail limit (t ∷ texts) k e n b =
    let pushed = k.tail ++ t ∷ [] in
    let k1 : Kept = record k {
      selected = suc k.selected;
      tail = pushed;
      tail_bytes = saturating_add k.tail_bytes (line_bytes t);
    } in
    let popped = pop_from pushed limit k1 in
    let is =
      pop_from-IsPopped limit pushed k1 refl (omega (arith, e, b, total_push k.tail t))
        (omega (arith, length-append k.tail (t ∷ []))) in
    let fits : ltb max_materialized_bytes popped.tail_bytes ≡ false =
      le→ltb_false max_materialized_bytes popped.tail_bytes
        (omega (arith, is.bytes, is.fewer, total_push k.tail t)) in
    let (k', done, last) =
      keep_all-tail limit texts popped is.bytes is.short
        (omega (arith, is.fewer, total_push k.tail t)) in
    (
      k',
      rw (keep_all, keep_line, keep_tail, fits) done,
      last ∙ is.lasts_of texts ∙ ap (lasts (some limit)) (append_assoc k.tail (t ∷ []) texts),
    )
