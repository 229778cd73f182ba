-- ===== src/Ctx/Transform.antt =====
-- The selection of a stored capture's lines by options, tools/src/pira_ctx/transform.rs, and how
-- tools/src/pira_ctx/lib.rs prints them. The expressions of the regex crate are a parameter, as are
-- the digest and the decoder that the readers stand on. `store.reader()` has been called: its answer
-- is an input.
pub mod Rows
pub mod Picks
pub mod Loop
pub mod Keeping
pub mod Tail
pub mod Printed
use pira.Common.{
  ℕ, zero, suc, ◌+◌, ◌-◌, ◌^◌, min, Bool, true, false, not, ◌&&◌, ◌||◌, List, [], ◌∷◌, ◌++◌, Option,
  none, some, ltb, leb, ◌==◌, if◌then◌else◌, Text, Bytes, Result, ok, err, reject, ◌>>=◌, ◌>>◌,
  codes, length, take, drop, all, any,
}
use pira.Common.Chars.{decimal, trim_end_by}
use pira.Common.Utf8.{utf8, from_utf8_lossy}
use pira.Dec.Model.{contains}
use pira.Ctx.Stdout.{StreamKind, Log, WriteError, stdout_line}
use pira.Ctx.Section.{LineMeta, StreamReaders, SectionError, Read, copy_line}

pub data TransformError : Type 0 where
  incomplete_index : TransformError
  reading : SectionError → TransformError
  invalid_regex : Text → TransformError
  tail_limit : TransformError
  line_too_long : TransformError
  tail_too_large : TransformError
  too_many_unique : TransformError
  unique_too_large : TransformError

abbrev pub max_materialized_rows : ℕ
max_materialized_rows = 1000000

abbrev pub max_materialized_bytes : ℕ
max_materialized_bytes = 134217728

abbrev pub max_unique_values : ℕ
max_unique_values = 100000

abbrev pub max_return_bytes : ℕ
max_return_bytes = 65537

-- `TransformOptions` without its plan.
pub record TransformOptions : Type 0 where
  pub matches : List Text
  pub excludes : List Text
  pub unique : Bool
  pub count : Bool
  pub head : Option ℕ
  pub tail : Option ℕ

pub record StoredResult : Type 0 where
  pub timeline_truncated : Bool
  pub line_timeline : List LineMeta
  pub reader : Result SectionError StreamReaders

-- A `regex::Regex`, as its `is_match`.
abbrev pub Pattern : Type 0
Pattern = Text → Bool

abbrev pub saturating_add : ℕ → ℕ → ℕ
saturating_add a b = min (a + b) (2 ^ 64 - 1)

-- The bytes of a line with its line feed.
abbrev pub line_bytes : Text → ℕ
line_bytes text = length (utf8 text) + 1

-- Whether the values seen hold the text, and what they are behind it.
pub record Retained : Type 0 where
  pub fresh : Bool
  pub seen : List Text
  pub bytes : ℕ

unfoldable pub retain_unique : List Text → ℕ → Text → Result TransformError Retained
unfolding contains utf8
retain_unique seen bytes text =
    let held = length (utf8 text) in
    if contains text seen then ok (record { fresh = false; seen = seen; bytes = bytes }) else do
      reject (leb max_unique_values (length seen)) too_many_unique
      reject (ltb (max_materialized_bytes - bytes) held) unique_too_large
      ok (record { fresh = true; seen = text ∷ seen; bytes = bytes + held })

-- What is kept of the lines selected so far, local variables of `stream_direct`.
pub record Kept : Type 0 where
  pub selected : ℕ
  pub output : List Text
  pub output_bytes : ℕ
  pub tail : List Text
  pub tail_bytes : ℕ

abbrev pub nothing_kept : Kept
nothing_kept = record { selected = 0; output = []; output_bytes = 0; tail = []; tail_bytes = 0 }

-- `continue` and the end of a round, or `break`.
pub data Flow (S : Type 0) : Type 0 where
  continues : S → Flow S
  breaks : S → Flow S

-- The rounds behind one, unless it breaks or fails.
abbrev pub go_on :
    {S : Type 0}
    → (S → Result TransformError S)
    → Result TransformError (Flow S)
    → Result TransformError S
go_on next (err why) = err why
go_on next (ok (breaks s)) = ok s
go_on next (ok (continues s)) = next s

-- `pop_front` of a deque that holds more than it may, and what it held.
abbrev pub pop_from : List Text → ℕ → Kept → Kept
pop_from [] limit k = k
pop_from (removed ∷ rest) limit k =
    if ltb limit (length (removed ∷ rest))
    then record k { tail = rest; tail_bytes = k.tail_bytes - line_bytes removed }
    else k

unfoldable pub keep_tail : ℕ → Kept → Text → Result TransformError (Flow Kept)
unfolding utf8
keep_tail limit k text =
    let pushed : Kept = record k {
      tail = k.tail ++ text ∷ [];
      tail_bytes = saturating_add k.tail_bytes (line_bytes text);
    } in
    let popped = pop_from pushed.tail limit pushed in
    if ltb max_materialized_bytes popped.tail_bytes
    then err tail_too_large
    else ok (continues popped)

unfoldable pub keep_output : Kept → Text → Flow Kept
unfolding utf8
keep_output k text =
    let k' : Kept = record k {
      output = k.output ++ text ∷ [];
      output_bytes = saturating_add k.output_bytes (line_bytes text);
    } in
    if ltb max_return_bytes k'.output_bytes then breaks k' else continues k'

-- The end of a round, for a line that has been counted: by `count` and `tail`.
unfoldable pub keep_line : Bool → Option ℕ → Kept → Text → Result TransformError (Flow Kept)
unfolding keep_tail keep_output
keep_line true tail k text = ok (continues k)
keep_line false (some limit) k text = keep_tail limit k text
keep_line false none k text = ok (keep_output k text)

unfoldable pub keep : TransformOptions → Kept → Text → Result TransformError (Flow Kept)
unfolding keep_line
keep options k text =
    keep_line options.count options.tail (record k { selected = suc k.selected }) text

-- The local variables of `stream_direct`.
pub record Direct : Type 0 where
  pub readers : StreamReaders
  pub seen : List Text
  pub seen_bytes : ℕ
  pub kept : Kept

abbrev pub with_kept : Direct → Flow Kept → Flow Direct
with_kept d (continues k) = continues (record d { kept = k })
with_kept d (breaks k) = breaks (record d { kept = k })

abbrev pub is_picked : List Pattern → List Pattern → Text → Bool
is_picked matches excludes text =
    not (not (all (λ (re : Pattern). re text) matches) || any (λ (re : Pattern). re text) excludes)

unfoldable pub keep_into : TransformOptions → Direct → Text → Result TransformError (Flow Direct)
unfolding keep
keep_into options d text = keep options d.kept text >>= λ flow. ok (with_kept d flow)

unfoldable pub keep_fresh :
    TransformOptions → Direct → Text → Retained → Result TransformError (Flow Direct)
unfolding keep_into
keep_fresh options d text r =
    let d' : Direct = record d { seen = r.seen; seen_bytes = r.bytes } in
    if not r.fresh then ok (continues d') else keep_into options d' text

-- `if options.unique && !retain_unique(..)? { continue; }` with what follows.
unfoldable pub keep_unless_seen :
    Bool → TransformOptions → Direct → Text → Result TransformError (Flow Direct)
unfolding retain_unique keep_into keep_fresh
keep_unless_seen true options d text =
    retain_unique d.seen d.seen_bytes text >>= λ r. keep_fresh options d text r
keep_unless_seen false options d text = keep_into options d text

-- A round from the text of its line on.
unfoldable pub pick :
    TransformOptions
    → List Pattern
    → List Pattern
    → Direct
    → Text
    → Result TransformError (Flow Direct)
unfolding keep_unless_seen
pick options matches excludes d text =
    if not (is_picked matches excludes text)
    then ok (continues d)
    else keep_unless_seen options.unique options d text

-- `trim_end_matches(['\r', '\n'])`
abbrev pub is_return_or_feed : ℕ → Bool
is_return_or_feed c = c == 0xD || c == 0xA

abbrev pub text_of : Bytes → Text
text_of bytes = trim_end_by is_return_or_feed (from_utf8_lossy bytes)

abbrev pub as_reading : {A : Type 0} → Result SectionError A → Result TransformError A
as_reading (ok a) = ok a
as_reading (err why) = err (reading why)

abbrev pub reaches_head : Option ℕ → ℕ → Bool
reaches_head none selected = false
reaches_head (some limit) selected = leb limit selected

abbrev pub exceeds : Option ℕ → ℕ → Bool
exceeds none limit = false
exceeds (some n) limit = ltb limit n

module _ (sha256 : Bytes → Bytes) (decompress : Bytes → ℕ → Result Text Bytes) where
  unfoldable pub direct_line :
      TransformOptions
      → List Pattern
      → List Pattern
      → Direct
      → LineMeta
      → Result TransformError (Flow Direct)
  unfolding pick copy_line trim_end_by from_utf8_lossy
  direct_line options matches excludes d l =
      let read = copy_line sha256 decompress d.readers l in
      do
        reject (ltb max_materialized_bytes l.length) line_too_long
        bytes ← as_reading read.result
        pick options matches excludes (record d { readers = read.readers }) (text_of bytes)

  unfoldable pub direct_lines :
      TransformOptions
      → List Pattern
      → List Pattern
      → List LineMeta
      → Direct
      → Result TransformError Direct
  unfolding direct_line
  direct_lines options matches excludes [] d = ok d
  direct_lines options matches excludes (l ∷ timeline) d =
      if reaches_head options.head d.kept.selected
      then ok d
      else go_on (direct_lines options matches excludes timeline)
          (direct_line options matches excludes d l)

-- What `stream_direct` returns behind its loop, by `count` and `tail`.
unfoldable pub result_of : Bool → Option ℕ → Kept → List Text
unfolding decimal
result_of true (some limit) k = decimal (min k.selected limit) ∷ []
result_of true none k = decimal k.selected ∷ []
result_of false (some limit) k = k.tail
result_of false none k = k.output

unfoldable pub direct_result : TransformOptions → Kept → List Text
unfolding result_of
direct_result options k = result_of options.count options.tail k

abbrev pub as_regex : Result Text Pattern → Result TransformError Pattern
as_regex (ok re) = ok re
as_regex (err why) = err (invalid_regex why)

module _ (compile : Text → Result Text Pattern) where
  unfoldable pub compile_patterns : List Text → Result TransformError (List Pattern)
  compile_patterns [] = ok []
  compile_patterns (p ∷ patterns) = do
    re ← as_regex (compile p)
    compiled ← compile_patterns patterns
    ok (re ∷ compiled)

  module _ (sha256 : Bytes → Bytes) (decompress : Bytes → ℕ → Result Text Bytes) where
    unfoldable pub stream_direct :
        StoredResult → TransformOptions → Result TransformError (List Text)
    unfolding compile_patterns direct_lines direct_result
    stream_direct store options = do
      matches ← compile_patterns options.matches
      excludes ← compile_patterns options.excludes
      reject (exceeds options.tail max_materialized_rows) tail_limit
      readers ← as_reading store.reader
      d ←
          direct_lines sha256 decompress options matches excludes store.line_timeline
            (record { readers = readers; seen = []; seen_bytes = 0; kept = nothing_kept })
      ok (direct_result options d.kept)

    -- `run` without a plan.
    unfoldable pub run_direct : StoredResult → TransformOptions → Result TransformError (List Text)
    unfolding stream_direct
    run_direct store options = do
      reject store.timeline_truncated incomplete_index
      stream_direct store options

-- The loop of `run_transform`, with the bytes used, and the log of what the program has written.
module _ (refuses : Log → Bool → Bytes → Option WriteError) where
  unfoldable pub print_lines : List Text → ℕ → Log → Result WriteError Log
  unfolding stdout_line utf8
  print_lines [] used log = ok log
  print_lines (text ∷ lines) used log =
      if ltb 65536 (used + line_bytes text)
      then stdout_line refuses (codes "[transform output truncated]") log
      else (stdout_line refuses text log >>= λ log'.
          print_lines lines (used + line_bytes text) log')
