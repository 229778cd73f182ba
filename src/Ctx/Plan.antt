-- ===== src/Ctx/Plan.antt =====
-- The plans of transforms, tools/src/pira_ctx/transform.rs: `run` with a plan, which has been read and
-- parsed.
pub mod Rows
pub mod Checks
pub mod Steps
pub mod Loaded
pub mod Empty
pub mod Near
pub mod Groups
mod Tests
use pira.Common.{
  ℕ, zero, suc, ◌+◌, ◌-◌, min, Bool, true, false, not, ◌&&◌, ◌||◌, List, [], ◌∷◌, ◌++◌, map, Option,
  none, some, ltb, leb, ◌==◌, if◌then◌else◌, Text, Bytes, Result, ok, err, reject, ◌>>=◌, ◌>>◌,
  codes, length, take, drop, starts_with, list_eq, get_elem?,
}
use pira.Common.Chars.{decimal, trim, trim_end_by}
use pira.Common.Utf8.{from_utf8_lossy}
use pira.Dec.Browse.{text_lt}
use pira.Dec.Model.{contains}
use pira.Ctx.Stdout.{StreamKind, stdout, stderr}
use pira.Ctx.Section.{LineMeta, StreamReaders, SectionError, Read, copy_line}
use pira.Ctx.Transform.{
  TransformOptions, StoredResult, Pattern, text_of, max_materialized_rows, max_materialized_bytes,
}
use pira.Ctx.Plan.Rows.{Row, last_rows, unique}
use pira.Ctx.Plan.Checks.{
  PlanError, count_is_terminal, index_incomplete, plan_reading, too_many_rows, input_too_large,
  Step, validate_steps,
}
use pira.Ctx.Plan.Steps.{Json, Floats, filter_each, apply}

-- The lines that a plan works on.
unfoldable pub check_materialization_budget : ℕ → ℕ → Result PlanError (Unit {0})
check_materialization_budget used next =
    reject (ltb (max_materialized_bytes - used) next) input_too_large

abbrev pub as_plan_reading : {A : Type 0} → Result SectionError A → Result PlanError A
as_plan_reading (ok a) = ok a
as_plan_reading (err why) = err (plan_reading why)

abbrev pub cut_head : Option ℕ → List Row → List Row
cut_head none rows = rows
cut_head (some n) rows = take n rows

abbrev pub cut_tail : Option ℕ → List Row → List Row
cut_tail none rows = rows
cut_tail (some n) rows = last_rows n rows

abbrev pub is_filled : {A : Type 0} → List A → Bool
is_filled [] = false
is_filled (x ∷ xs) = true

module _ (sha256 : Bytes → Bytes) (decompress : Bytes → ℕ → Result Text Bytes) where
  -- The loop of `load_rows`, with the bytes read so far, whose sum is below 2 ^ 64.
  unfoldable pub load_lines : List LineMeta → StreamReaders → ℕ → Result PlanError (List Row)
  unfolding check_materialization_budget copy_line trim_end_by from_utf8_lossy
  load_lines [] readers used = ok []
  load_lines (l ∷ timeline) readers used =
      let read = copy_line sha256 decompress readers l in
      do
        check_materialization_budget used l.length
        bytes ← as_plan_reading read.result
        reject (ltb max_materialized_bytes (used + length bytes)) input_too_large
        rows ← load_lines timeline read.readers (used + length bytes)
        ok (record { text = text_of bytes; stream = l.stream } ∷ rows)

  unfoldable pub load_rows : StoredResult → Result PlanError (List Row)
  unfolding load_lines
  load_rows store = do
    readers ← as_plan_reading store.reader
    reject (ltb max_materialized_rows (length store.line_timeline)) too_many_rows
    load_lines store.line_timeline readers 0

  module _ (compile : Text → Result Text Pattern) (json : Json) (floats : Floats)
      (diagnostic_re : Pattern) where
    open json use {Value}

    -- `run` on rows, behind the filters.
    unfoldable pub reduce_rows :
        TransformOptions → List (Step Value) → List Row → Result PlanError (List Text)
    unfolding apply unique decimal
    reduce_rows options steps filtered =
        let rows =
          cut_tail options.tail
            (cut_head options.head (if options.unique then unique filtered else filtered)) in
        if options.count
        then ok (decimal (length rows) ∷ [])
        else apply compile json floats diagnostic_re rows steps

    -- `run` with a plan.
    unfoldable pub run_plan :
        StoredResult → TransformOptions → List (Step Value) → Result PlanError (List Text)
    unfolding validate_steps load_rows filter_each reduce_rows
    run_plan store options steps = do
      reject store.timeline_truncated index_incomplete
      validate_steps steps
      reject (options.count && is_filled steps) count_is_terminal
      rows ← load_rows store
      matching ← filter_each compile options.matches true rows
      filtered ← filter_each compile options.excludes false matching
      reduce_rows options steps filtered
