-- ===== src/Ctx/Plan/Steps.antt =====
-- The steps of a plan, `apply` of tools/src/pira_ctx/transform.rs. The expressions of the regex crate, the values of serde_json and
-- the arithmetic of `f64` are parameters.
use pira.Common.{
  ℕ, Bool, true, false, not, ◌||◌, List, [], ◌∷◌, map, Option, none, some, ltb, if◌then◌else◌, Text,
  Result, ok, err, reject, ◌>>=◌, ◌>>◌, codes, length, take, list_eq, get_elem?,
}
use pira.Common.Chars.{decimal, trim}
use pira.Dec.Browse.{text_lt}
use pira.Ctx.Stdout.{StreamKind, stdout, stderr}
use pira.Ctx.Transform.{Pattern}
use pira.Ctx.Plan.Checks.{
  PlanError, context_limit, plan_regex, invalid_jsonl, not_numeric, stream_name, max_context_rows,
  Step, step_match, step_context, step_exclude, step_head, step_tail, step_unique, step_count,
  step_group_count, step_sort, step_top, step_sum, step_min, step_max, step_mean, step_json_field,
  step_json_eq, step_column, step_stream, step_diagnostic, validate_steps,
}
use pira.Ctx.Plan.Rows.{
  Row, texts_of, select, unique, last_rows, context_rows, sort_rows, count_texts, count_line, split,
  or_empty,
}

-- `serde_json::Value`: parsing, `get`, the text of `value_text`, and `==`.
pub record Json : Type 1 where
  pub Value : Type 0
  pub parse : Text → Result Text Value
  pub get : Value → Text → Option Value
  pub value_text : Value → Text
  pub same : Value → Value → Bool

-- `f64`: parsing, NaN, the start of a sum, addition, `f64::min` and `f64::max`, division by a count,
-- `to_string`, and whether `total_cmp` puts one number behind another.
pub record Floats : Type 1 where
  pub Float : Type 0
  pub parse : Text → Option Float
  pub nan : Float
  pub sum_start : Float
  pub add : Float → Float → Float
  pub smaller : Float → Float → Float
  pub larger : Float → Float → Float
  pub divide : Float → ℕ → Float
  pub to_text : Float → Text
  pub is_behind : Float → Float → Bool

-- The rows behind a step, or the lines that end the plan.
pub data Stage : Type 0 where
  goes_on : List Row → Stage
  returns : List Text → Stage

abbrev pub compiled : Result Text Pattern → Result PlanError Pattern
compiled (ok re) = ok re
compiled (err why) = err (plan_regex why)

module _ (compile : Text → Result Text Pattern) where
  unfoldable pub filter : List Row → Text → Bool → Result PlanError (List Row)
  unfolding select
  filter rows pattern keep = do
    re ← compiled (compile pattern)
    ok (select (λ r. if re r.text then keep else not keep) rows)

  -- `for pattern in patterns { rows = filter(rows, pattern, keep)?; }`
  unfoldable pub filter_each : List Text → Bool → List Row → Result PlanError (List Row)
  unfolding filter
  filter_each [] keep rows = ok rows
  filter_each (p ∷ patterns) keep rows = do
    rows' ← filter rows p keep
    filter_each patterns keep rows'

  module _ (json : Json) (floats : Floats) (diagnostic_re : Pattern) where
    open json use {Value}
    open floats use {Float}

    abbrev pub number : Text → Float
    number s = elim (floats.parse (trim s)) [ some x ↦ x | none ↦ floats.nan ]

    unfoldable pub numbers : List Row → Result PlanError (List Float)
    unfolding trim
    numbers [] = ok []
    numbers (r ∷ rows) = elim (floats.parse (trim r.text)) [
      | none ↦ err (not_numeric r.text)
      | some x ↦ numbers rows >>= λ values. ok (x ∷ values)
    ]

    abbrev pub sum_from : Float → List Float → Float
    sum_from total [] = total
    sum_from total (x ∷ values) = sum_from (floats.add total x) values

    -- `reduce(f).unwrap_or(f64::NAN)`
    abbrev pub reduce_from : (Float → Float → Float) → Float → List Float → Float
    reduce_from f best [] = best
    reduce_from f best (x ∷ values) = reduce_from f (f best x) values

    abbrev pub reduced_by : (Float → Float → Float) → List Float → Float
    reduced_by f [] = floats.nan
    reduced_by f (x ∷ values) = reduce_from f x values

    abbrev pub mean_text : List Float → Text
    mean_text [] = codes "NaN"
    mean_text (x ∷ values) =
        floats.to_text
          (floats.divide (sum_from floats.sum_start (x ∷ values)) (length (x ∷ values)))

    abbrev pub field_text : Text → Text → Result PlanError Text
    field_text field text = elim (json.parse text) [
      | err why ↦ err (invalid_jsonl why)
      | ok value ↦ elim (json.get value field) [ none ↦ ok [] | some v ↦ ok (json.value_text v) ]
    ]

    unfoldable pub field_rows : Text → List Row → Result PlanError (List Row)
    field_rows field [] = ok []
    field_rows field (r ∷ rows) = do
      text ← field_text field r.text
      rows' ← field_rows field rows
      ok (record r { text = text } ∷ rows')

    abbrev pub has_value : Text → Value → Row → Bool
    has_value field wanted r = elim (json.parse r.text) [
      | err why ↦ false
      | ok value ↦ elim (json.get value field) [ none ↦ false | some v ↦ json.same v wanted ]
    ]

    abbrev pub column_row : ℕ → Text → Row → Row
    column_row index delimiter r = record r {
      text = or_empty (get_elem? (split delimiter r.text) index);
    }

    abbrev pub same_stream : StreamKind → StreamKind → Bool
    same_stream stdout stdout = true
    same_stream stderr stderr = true
    same_stream _ _ = false

    abbrev pub wanted_stream : Text → Result PlanError StreamKind
    wanted_stream name =
        if list_eq name (codes "stdout")
        then ok stdout
        else if list_eq name (codes "stderr")
        then ok stderr
        else err stream_name

    abbrev pub behind_text : Row → Row → Bool
    behind_text r s = text_lt s.text r.text

    abbrev pub behind_number : Row → Row → Bool
    behind_number r s = floats.is_behind (number r.text) (number s.text)

    abbrev pub one_line : Text → Stage
    one_line text = returns (text ∷ [])

    -- The body of the loop of `apply`.
    unfoldable pub apply_step : Step Value → List Row → Result PlanError Stage
    unfolding filter select unique context_rows sort_rows count_texts numbers field_rows split
        decimal text_lt trim
    apply_step (step_match regex) rows =
        filter rows regex true >>= λ (rows' : List Row). ok (goes_on rows')
    apply_step (step_context regex before after) rows = do
      reject (ltb max_context_rows before || ltb max_context_rows after) context_limit
      re ← compiled (compile regex)
      ok (goes_on (context_rows (λ r. re r.text) before after rows))
    apply_step (step_exclude regex) rows =
        filter rows regex false >>= λ (rows' : List Row). ok (goes_on rows')
    apply_step (step_head n) rows = ok (goes_on (take n rows))
    apply_step (step_tail n) rows = ok (goes_on (last_rows n rows))
    apply_step step_unique rows = ok (goes_on (unique rows))
    apply_step step_count rows = ok (one_line (decimal (length rows)))
    apply_step step_group_count rows = ok (returns (map count_line (count_texts rows [])))
    apply_step (step_sort true) rows = ok (goes_on (sort_rows behind_number rows))
    apply_step (step_sort false) rows = ok (goes_on (sort_rows behind_text rows))
    apply_step (step_top n) rows = ok (goes_on (take n rows))
    apply_step step_sum rows =
        numbers rows >>= λ values. ok (one_line (floats.to_text (sum_from floats.sum_start values)))
    apply_step step_min rows =
        numbers rows >>= λ values. ok (one_line (floats.to_text (reduced_by floats.smaller values)))
    apply_step step_max rows =
        numbers rows >>= λ values. ok (one_line (floats.to_text (reduced_by floats.larger values)))
    apply_step step_mean rows = numbers rows >>= λ values. ok (one_line (mean_text values))
    apply_step (step_json_field field) rows =
        field_rows field rows >>= λ (rows' : List Row). ok (goes_on rows')
    apply_step (step_json_eq field value) rows = ok (goes_on (select (has_value field value) rows))
    apply_step (step_column index delimiter) rows =
        ok (goes_on (map (column_row index delimiter) rows))
    apply_step (step_stream name) rows = wanted_stream name >>= λ wanted.
        ok (goes_on (select (λ r. same_stream r.stream wanted) rows))
    apply_step step_diagnostic rows = ok (goes_on (select (λ r. diagnostic_re r.text) rows))

    abbrev pub go_through :
        (List Row → Result PlanError (List Text))
        → Result PlanError Stage
        → Result PlanError (List Text)
    go_through next (err why) = err why
    go_through next (ok (returns lines)) = ok lines
    go_through next (ok (goes_on rows)) = next rows

    unfoldable pub apply_steps : List (Step Value) → List Row → Result PlanError (List Text)
    unfolding apply_step
    apply_steps [] rows = ok (texts_of rows)
    apply_steps (s ∷ steps) rows = go_through (apply_steps steps) (apply_step s rows)

    unfoldable pub apply : List Row → List (Step Value) → Result PlanError (List Text)
    unfolding validate_steps apply_steps
    apply rows steps = validate_steps steps >> apply_steps steps rows
