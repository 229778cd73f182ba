-- ===== src/Ctx/Plan/Checks.antt =====
-- The steps of a plan and their checks, `validate_steps` of tools/src/pira_ctx/transform.rs, with the
-- errors of plans.
use pira.Common.{
  ℕ, suc, ◌+◌, Bool, true, false, List, [], ◌∷◌, ltb, Text, Result, ok, reject, ◌>>◌, length,
}
use pira.Ctx.Section.{SectionError}

pub data PlanError : Type 0 where
  too_many_steps : PlanError
  terminal_reduction : ℕ → PlanError
  count_is_terminal : PlanError
  index_incomplete : PlanError
  plan_reading : SectionError → PlanError
  too_many_rows : PlanError
  input_too_large : PlanError
  context_limit : PlanError
  plan_regex : Text → PlanError
  invalid_jsonl : Text → PlanError
  not_numeric : Text → PlanError
  stream_name : PlanError

abbrev pub max_plan_steps : ℕ
max_plan_steps = 64

abbrev pub max_context_rows : ℕ
max_context_rows = 10000

pub data Step (Value : Type 0) : Type 0 where
  step_match : Text → Step Value
  step_context : Text → ℕ → ℕ → Step Value
  step_exclude : Text → Step Value
  step_head : ℕ → Step Value
  step_tail : ℕ → Step Value
  step_unique : Step Value
  step_count : Step Value
  step_group_count : Step Value
  step_sort : Bool → Step Value
  step_top : ℕ → Step Value
  step_sum : Step Value
  step_min : Step Value
  step_max : Step Value
  step_mean : Step Value
  step_json_field : Text → Step Value
  step_json_eq : Text → Value → Step Value
  step_column : ℕ → Text → Step Value
  step_stream : Text → Step Value
  step_diagnostic : Step Value

abbrev pub is_reduction : {Value : Type 0} → Step Value → Bool
is_reduction step_count = true
is_reduction step_group_count = true
is_reduction step_sum = true
is_reduction step_min = true
is_reduction step_max = true
is_reduction step_mean = true
is_reduction _ = false

-- The loop of `validate_steps` over all steps but the last, from an index on.
unfoldable pub check_steps : {Value : Type 0} → ℕ → List (Step Value) → Result PlanError (Unit {0})
check_steps index [] = ok tt
check_steps index (s ∷ []) = ok tt
check_steps index (s ∷ next ∷ steps) =
    reject (is_reduction s) (terminal_reduction (index + 1))
    >> check_steps (suc index) (next ∷ steps)

unfoldable pub validate_steps : {Value : Type 0} → List (Step Value) → Result PlanError (Unit {0})
unfolding check_steps
validate_steps steps =
    reject (ltb max_plan_steps (length steps)) too_many_steps >> check_steps 0 steps
