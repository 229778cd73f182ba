-- ===== src/Ctx/Plan/Tests.antt =====
-- Runs of the transforms and of plans, and the theorems at a capture of four lines. The stand-in for an expression
-- matches the texts that it begins, and that for a number is a decimal digit.
use pira.Common.{
  ℕ, ◌≡◌, refl, Bool, true, false, List, [], ◌∷◌, Option, none, some, Text, Bytes, Result, ok, err,
  codes, list_eq, starts_with, ltb, within, if◌then◌else◌, ◌+◌, ◌-◌, ◌/◌, min, max, map, take, drop,
  arith,
}
use pira.Common.Chars.{decimal, trim_end_by}
use pira.Common.Utf8.{utf8, encode_char, from_utf8_lossy}
use pira.Dec.Model.{contains}
use pira.Ctx.Stdout.{StreamKind, stdout, stderr, Log, WriteError}
use pira.Ctx.Section.{LineMeta, File, raw, StreamReaders, add64}
use pira.Ctx.Section.Slice.{serves_raw}
use pira.Ctx.Section.Lines.{ServesAll}
use pira.Ctx.Transform.{
  TransformOptions, Pattern, StoredResult, run_direct, print_lines, compile_patterns,
}
use pira.Ctx.Transform.Rows.{chosen}
use pira.Ctx.Transform.Loop.{texts_at}
use pira.Ctx.Transform.Printed.{run_direct-chosen}
use pira.Ctx.Plan.{run_plan}
use pira.Ctx.Plan.Checks.{
  Step, step_context, step_group_count, step_sort, step_count, PlanError, terminal_reduction,
}
use pira.Ctx.Plan.Rows.{Row, texts_of, count_texts, context_rows, split}
use pira.Ctx.Plan.Steps.{Json, Floats}
use pira.Ctx.Plan.Empty.{run_plan-chosen}
use pira.Ctx.Plan.Groups.{Ascending, count_of, occurrences, count_texts-Ascending}
use pira.Ctx.Plan.Near.{Selects, Near, context_rows-Selects}

abbrev compile : Text → Result Text Pattern
compile p = ok (starts_with p)

abbrev digest : Bytes → Bytes
digest x = []

abbrev decompress : Bytes → ℕ → Result Text Bytes
decompress x n = err (codes "no blocks")

abbrev captured : Bytes
captured = codes "ab\nc\nad\nab\n"

abbrev content : StreamKind → Bytes
content stdout = captured
content stderr = []

abbrev file_of : Bytes → File
file_of bytes = record {
  read_exact = λ p n. ok (take n (drop p bytes));
  copy_taken = λ p n. ok (take n (drop p bytes));
}

abbrev readers : StreamReaders
readers = record {
  stdout_reader = raw (file_of captured) 0 11;
  stderr_reader = raw (file_of []) 0 0;
}

readers-ServesAll : ServesAll digest decompress content readers
readers-ServesAll stdout =
    serves_raw (file_of captured) 0 11 refl
      λ offset n h. (let at : add64 0 offset ≡ offset = omega (arith, h) in rw at refl)
readers-ServesAll stderr =
    serves_raw (file_of []) 0 0 refl
      λ offset n h. (let at : add64 0 offset ≡ offset = omega (arith, h) in rw at refl)

abbrev line_at : ℕ → ℕ → ℕ → LineMeta
line_at n offset size = record { line = n; stream = stdout; offset = offset; length = size }

abbrev store : StoredResult
store = record {
  timeline_truncated = false;
  line_timeline = line_at 1 0 3 ∷ line_at 2 3 2 ∷ line_at 3 5 3 ∷ line_at 4 8 3 ∷ [];
  reader = ok readers;
}

abbrev options : TransformOptions
options = record {
  matches = codes "a" ∷ [];
  excludes = [];
  unique = true;
  count = false;
  head = some 5;
  tail = some 3;
}

abbrev counting : TransformOptions
counting = record options { unique = false; count = true; tail = none }

abbrev starts_a : Pattern
starts_a = starts_with (codes "a")

abbrev four : List Text
four = texts_at content store.line_timeline

four_texts : four ≡ codes "ab" ∷ codes "c" ∷ codes "ad" ∷ codes "ab" ∷ []
unfolding from_utf8_lossy trim_end_by
four_texts = refl

run_direct_unique :
    run_direct compile digest decompress store options ≡ ok (codes "ab" ∷ codes "ad" ∷ [])
unfolding run_direct from_utf8_lossy trim_end_by starts_with contains utf8 encode_char list_eq
run_direct_unique = refl

run_direct_count : run_direct compile digest decompress store counting ≡ ok (codes "3" ∷ [])
unfolding run_direct from_utf8_lossy trim_end_by starts_with contains utf8 encode_char list_eq
run_direct_count = refl

abbrev takes_all : Log → Bool → Bytes → Option WriteError
takes_all log to_stderr bytes = none

run_direct-chosen_example :
    (out : List Text) × (run_direct compile digest decompress store options ≡ ok out)
    × (print_lines takes_all out 0 []
        ≡ print_lines takes_all (chosen options (starts_a ∷ []) [] four) 0 [])
run_direct-chosen_example =
    run_direct-chosen takes_all [] compile digest decompress content store options (starts_a ∷ [])
      [] readers refl refl (unfold compile_patterns in refl) (unfold compile_patterns in refl) refl
      readers-ServesAll
      ((refl, omega arith), ((refl, omega arith), ((refl, omega arith), ((refl, omega arith), tt))))
      (λ u. (omega arith, unfold from_utf8_lossy trim_end_by utf8 encode_char in omega arith))
      (unfold from_utf8_lossy trim_end_by utf8 encode_char in omega arith)

-- JSON texts that are values of themselves, with themselves as their only field.
abbrev json : Json
json = record {
  Value = Text;
  parse = λ s. ok s;
  get = λ v field. if list_eq v field then some v else none;
  value_text = λ v. v;
  same = list_eq;
}

abbrev one_digit : Text → Option ℕ
one_digit (c ∷ []) = if within b'0' b'9' c then some (c - b'0') else none
one_digit _ = none

abbrev floats : Floats
floats = record {
  Float = ℕ;
  parse = one_digit;
  nan = 0;
  sum_start = 0;
  add = ◌+◌;
  smaller = min;
  larger = max;
  divide = ◌/◌;
  to_text = decimal;
  is_behind = λ a b. ltb b a;
}

abbrev run_steps : TransformOptions → List (Step Text) → Result PlanError (List Text)
run_steps o steps =
    run_plan digest decompress compile json floats (starts_with (codes "error")) store o steps

abbrev whole : TransformOptions
whole = record options { matches = []; unique = false; head = none; tail = none }

run_steps_group :
    run_steps whole (step_group_count ∷ []) ≡ ok (codes "2\tab" ∷ codes "1\tad" ∷ codes "1\tc" ∷ [])
unfolding run_plan from_utf8_lossy trim_end_by starts_with contains utf8 encode_char list_eq
run_steps_group = refl

run_steps_context :
    run_steps whole (step_context (codes "c") 1 0 ∷ []) ≡ ok (codes "ab" ∷ codes "c" ∷ [])
unfolding run_plan from_utf8_lossy trim_end_by starts_with contains utf8 encode_char list_eq
run_steps_context = refl

run_steps_terminal :
    run_steps whole (step_count ∷ step_sort false ∷ []) ≡ err (terminal_reduction 1)
unfolding run_plan
run_steps_terminal = refl

split_columns : split (codes ", ") (codes "a, b,c") ≡ codes "a" ∷ codes "b,c" ∷ []
unfolding split starts_with
split_columns = refl

run_plan-chosen_example :
    run_plan digest decompress compile json floats (starts_with (codes "error")) store options []
    ≡ ok (chosen options (starts_a ∷ []) [] four)
run_plan-chosen_example =
    run_plan-chosen compile digest decompress json floats (starts_with (codes "error")) content
      store options (starts_a ∷ []) [] readers refl refl (unfold compile_patterns in refl)
      (unfold compile_patterns in refl) readers-ServesAll
      ((refl, omega arith), ((refl, omega arith), ((refl, omega arith), ((refl, omega arith), tt))))
      (omega arith) (omega arith)

abbrev row_of : Text → Row
row_of s = record { text = s; stream = stdout }

abbrev some_rows : List Row
some_rows = map row_of (codes "x" ∷ codes "a1" ∷ codes "y" ∷ codes "z" ∷ [])

context_rows-Selects_example :
    Selects
      (Near (λ r. starts_a r.text) 1 1 some_rows)
      0
      some_rows
      (context_rows (λ r. starts_a r.text) 1 1 some_rows)
context_rows-Selects_example = context_rows-Selects (λ r. starts_a r.text) 1 1 some_rows

abbrev repeated : List Row
repeated = map row_of (codes "b" ∷ codes "a" ∷ codes "b" ∷ [])

count_texts-Ascending_example :
    Ascending (count_texts repeated [])
    × (count_of (codes "b") (count_texts repeated []) ≡ occurrences (codes "b") (texts_of repeated))
count_texts-Ascending_example = count_texts-Ascending repeated (codes "b")
