-- ===== src/Ctx/Plan/Empty.antt =====
-- A plan without steps (tools/src/pira_ctx/transform.rs) against the description of a transform.
use pira.Common.{
  ℕ, zero, suc, ◌-◌, ◌≤◌, ◌≡◌, refl, sym, ap, ◌∙◌, Bool, true, false, ◌&&◌, List, [], ◌∷◌, Option,
  none, some, ltb, le→ltb_false, if◌then◌else◌, Text, Bytes, Result, ok, Bool-cases, inl, inr,
  length, take, drop, All, any, arith,
}
use pira.Common.Chars.{decimal}
use pira.Dec.Model.{contains}
use pira.Ctx.Stdout.{StreamKind}
use pira.Ctx.Section.{StreamReaders}
use pira.Ctx.Section.Lines.{ServesAll}
use pira.Ctx.Transform.{
  Pattern, TransformOptions, StoredResult, compile_patterns, max_materialized_rows,
  max_materialized_bytes,
}
use pira.Ctx.Transform.Rows.{picked, unseen, candidates, heads, lasts, chosen}
use pira.Ctx.Transform.Loop.{IsLine, texts_at}
use pira.Ctx.Plan.{run_plan, reduce_rows, load_rows, cut_head, cut_tail}
use pira.Ctx.Plan.Checks.{validate_steps, check_steps}
use pira.Ctx.Plan.Rows.{Row, texts_of, select, unique, unique_from}
use pira.Ctx.Plan.Steps.{Json, Floats, apply, apply_steps}
use pira.Ctx.Plan.Loaded.{
  sizes, rows_at, texts_of-rows_at, load_lines-rows_at, lets_through, filter_each-select,
}

and_false : (b : Bool) → (b && false) ≡ false
and_false true = refl
and_false false = refl

texts_of-select :
    (matches excludes : List Pattern) (rows : List Row)
    → texts_of (select (lets_through false excludes) (select (lets_through true matches) rows))
      ≡ picked matches excludes (texts_of rows)
unfolding select picked
texts_of-select matches excludes [] = refl
texts_of-select matches excludes (r ∷ rows) =
    let same = texts_of-select matches excludes rows in
    elim (Bool-cases (lets_through true matches r)) [
      | inr f ↦ rw f same
      | inl t ↦ elim (Bool-cases (any (λ (re : Pattern). re r.text) excludes)) [
        | inl u ↦ rw (t, select, u) same
        | inr u ↦ rw (t, select, u) (ap (◌∷◌ r.text) same)
      ]
    ]

texts_of-unique_from :
    (seen : List Text) (rows : List Row)
    → texts_of (unique_from seen rows) ≡ unseen seen (texts_of rows)
unfolding unique_from unseen
texts_of-unique_from seen [] = refl
texts_of-unique_from seen (r ∷ rows) = elim (Bool-cases (contains r.text seen)) [
  | inl t ↦ rw (unique_from, unseen, t) (texts_of-unique_from seen rows)
  | inr f ↦
      rw (unique_from, unseen, f) (ap (◌∷◌ r.text) (texts_of-unique_from (r.text ∷ seen) rows))
]

length-texts_of : (rows : List Row) → length (texts_of rows) ≡ length rows
length-texts_of [] = refl
length-texts_of (r ∷ rows) = ap suc (length-texts_of rows)

texts_of-take : (n : ℕ) (rows : List Row) → texts_of (take n rows) ≡ take n (texts_of rows)
texts_of-take zero rows = refl
texts_of-take (suc n) [] = refl
texts_of-take (suc n) (r ∷ rows) = ap (◌∷◌ r.text) (texts_of-take n rows)

texts_of-drop : (n : ℕ) (rows : List Row) → texts_of (drop n rows) ≡ drop n (texts_of rows)
texts_of-drop zero rows = refl
texts_of-drop (suc n) [] = refl
texts_of-drop (suc n) (r ∷ rows) = texts_of-drop n rows

texts_of-cut_head :
    (head : Option ℕ) (rows : List Row)
    → texts_of (cut_head head rows) ≡ heads head 0 (texts_of rows)
texts_of-cut_head none rows = refl
texts_of-cut_head (some n) rows = let e : n - 0 ≡ n = omega arith in rw e (texts_of-take n rows)

texts_of-cut_tail :
    (tail : Option ℕ) (rows : List Row) → texts_of (cut_tail tail rows) ≡ lasts tail (texts_of rows)
texts_of-cut_tail none rows = refl
texts_of-cut_tail (some n) rows =
    texts_of-drop (length rows - n) rows ∙ rw (length-texts_of rows) refl

texts_of_unique :
    (once : Bool) (matches excludes : List Pattern) (rows filtered : List Row)
    → texts_of filtered ≡ picked matches excludes (texts_of rows)
    → texts_of (if once then unique filtered else filtered)
      ≡ candidates once matches excludes [] (texts_of rows)
unfolding unique candidates
texts_of_unique true matches excludes rows filtered e =
    texts_of-unique_from [] filtered ∙ ap (unseen []) e
texts_of_unique false matches excludes rows filtered e = e

module _ (compile : Text → Result Text Pattern) (sha256 : Bytes → Bytes)
    (decompress : Bytes → ℕ → Result Text Bytes) (json : Json) (floats : Floats)
    (diagnostic_re : Pattern) where
  -- The number of the rows, or their texts.
  apply-texts_of :
      (count : Bool) (rows : List Row) (texts : List Text)
      → texts_of rows ≡ texts
      → (if count
          then ok (decimal (length rows) ∷ [])
          else apply compile json floats diagnostic_re rows [])
        ≡ ok (if count then decimal (length texts) ∷ [] else texts)
  unfolding apply validate_steps check_steps apply_steps
  apply-texts_of true rows texts e =
      ap (λ n. ok (decimal n ∷ [])) (sym (length-texts_of rows) ∙ ap length e)
  apply-texts_of false rows texts e = ap ok e

  reduce_rows-texts_of :
      (options : TransformOptions) (matches excludes : List Pattern) (rows filtered : List Row)
      → texts_of filtered ≡ picked matches excludes (texts_of rows)
      → reduce_rows sha256 decompress compile json floats diagnostic_re options [] filtered
        ≡ ok (chosen options matches excludes (texts_of rows))
  unfolding reduce_rows chosen
  reduce_rows-texts_of options matches excludes rows filtered e =
      let once = if options.unique then unique filtered else filtered in
      let headed = cut_head options.head once in
      let left = cut_tail options.tail headed in
      let same : texts_of left
          ≡ lasts options.tail (
              heads options.head 0
                (candidates options.unique matches excludes [] (texts_of rows))) =
        texts_of-cut_tail options.tail headed
        ∙ ap (lasts options.tail) (
            texts_of-cut_head options.head once
            ∙ ap (heads options.head 0)
                (texts_of_unique options.unique matches excludes rows filtered e)) in
      apply-texts_of options.count left _ same

  module _ (content : StreamKind → Bytes) (store : StoredResult) (options : TransformOptions)
      (matches excludes : List Pattern) (readers : StreamReaders) where
    -- Take a complete timeline of at most a million lines and 128 MiB, whose lines lie in the streams
    -- that the opened readers serve, and expressions that compile. Then a transform with an empty
    -- plan succeeds with the lines chosen from all texts at once.
    pub run_plan-chosen :
        store.timeline_truncated ≡ false
        → store.reader ≡ ok readers
        → compile_patterns compile options.matches ≡ ok matches
        → compile_patterns compile options.excludes ≡ ok excludes
        → ServesAll sha256 decompress content readers
        → All (IsLine content) store.line_timeline
        → length store.line_timeline ≤ max_materialized_rows
        → sizes store.line_timeline ≤ max_materialized_bytes
        → run_plan sha256 decompress compile json floats diagnostic_re store options []
          ≡ ok (chosen options matches excludes (texts_at content store.line_timeline))
    unfolding run_plan validate_steps check_steps load_rows
    run_plan-chosen complete opened m e serves lines count fits =
        let timeline = store.line_timeline in
        let rows = rows_at content timeline in
        let matching = select (lets_through true matches) rows in
        let filtered = select (lets_through false excludes) matching in
        let few : ltb max_materialized_rows (length timeline) ≡ false = le→ltb_false _ _ count in
        let loaded =
          load_lines-rows_at sha256 decompress content timeline readers 0 serves lines
            (omega (arith, fits)) in
        let first = filter_each-select compile options.matches true matches rows m in
        let second = filter_each-select compile options.excludes false excludes matching e in
        let texts_filtered : texts_of filtered ≡ picked matches excludes (texts_of rows) =
          texts_of-select matches excludes rows in
        rw (complete, opened, few, loaded, first, second, and_false options.count)
          (reduce_rows-texts_of options matches excludes rows filtered texts_filtered
            ∙ ap (λ texts. ok (chosen options matches excludes texts))
                (texts_of-rows_at content timeline))
