-- ===== src/Ctx/Watch/Analyzer.antt =====
-- The run of a watch's analyzer, tools/src/pira_ctx/watch/analyzer.rs. The system's answers are inputs;
-- the JSON parser is the `serde_json` crate's, a parameter.
use pira.Common.{
  ℕ, ◌*◌, Bool, not, ◌||◌, List, ◌++◌, Option, none, some, ltb, ◌==◌, all, if◌then◌else◌, Text,
  Bytes, Result, ok, err, reject, ok_or, ◌>>=◌, ◌>>◌, codes, length, is_ascii_hexdigit,
}
use pira.Common.Int.{ℤ}
use pira.Common.Utf8.{utf8, from_utf8, from_utf8_lossy}
use pira.Ctx.Terminal.{sanitize_terminal}
use pira.Ctx.Clip.{single_line_clip}
use pira.Ctx.Watch.State.{AnalyzerSpec}
use pira.Ctx.Watch.Sample.{Turn, Status, wait_for, signed_decimal, is_nonempty, is_zero, stop_error}
use pira.Ctx.Watch.Tails.{read_bounded}

abbrev pub max_analyzer_bytes : ℕ
max_analyzer_bytes = 1024 * 1024

abbrev pub max_result_bytes : ℕ
max_result_bytes = 16 * 1024

pub record AnalyzerInput : Type 0 where
  pub source : Text
  pub job_state : Text
  pub raw_stdout : Text
  pub raw_stderr : Text
  pub visible_stdout : Text
  pub visible_stderr : Text
  pub attempts : ℕ

pub record AnalyzerOutput : Type 0 where
  pub progress : Text
  pub summary : Text
  pub attention : Bool

-- What a thread at a pipe leaves for its receiver: its result, or nothing in time.
pub data Io {ℓ} (A : Type ℓ) : Type ℓ where
  done : Result Text A → Io A
  late : Io A

unfoldable pub receive_io {ℓ} : {A : Type ℓ} → Io A → Text → Result Text A
receive_io (done result) label = result
receive_io late label = err (label ++ codes " did not close after process-tree cleanup")

-- What the system answers for one run: the bytes of the stored code, the start of the process, the
-- turns of the loop, and what the loop's end finds.
pub record AnalyzerRun : Type 0 where
  pub stored_code : Text → Result Text Bytes
  pub spawned : Result Text (Unit {0})
  pub turns : List Turn
  pub killed : Result Text ℤ
  pub stop : Bool
  pub written : Io (Unit {0})
  pub out : Io (List Bytes)
  pub error : Io (List Bytes)

-- `load_code`, of what is read of the file.
unfoldable pub load_code : Result Text Bytes → Result Text Text
unfolding from_utf8
load_code (err why) = err why
load_code (ok bytes) = ok_or (from_utf8 bytes) (codes "watch analyzer must be UTF-8 Python")

unfoldable pub resolve_code : AnalyzerSpec → AnalyzerRun → Result Text Text
unfolding load_code utf8
resolve_code spec run =
    if is_nonempty spec.code
    then ok spec.code
    else if not (length (utf8 spec.code_hash) == 64)
        || not (all is_ascii_hexdigit (utf8 spec.code_hash))
    then err (codes "invalid stored analyzer hash")
    else load_code (run.stored_code spec.code_hash)

abbrev pub bounded : Result Text (List Bytes) → Result Text (Bytes × Bool)
bounded (err why) = err why
bounded (ok chunks) = ok (read_bounded max_result_bytes chunks)

module _ (from_slice : Bytes → Result Text AnalyzerOutput) where
  abbrev parse : Bytes → Result Text AnalyzerOutput
  parse stdout = elim (from_slice stdout) [
    | err why ↦ err (codes "analyzer must emit one JSON object: " ++ why)
    | ok output ↦ ok output
  ]

  -- `run` behind the end of the process.
  unfoldable pub analyzed : Status → AnalyzerRun → Result Text AnalyzerOutput
  unfolding read_bounded receive_io signed_decimal single_line_clip from_utf8_lossy
      sanitize_terminal utf8
  analyzed (code, stopped, timed_out) run = do
    reject (stopped || run.stop) stop_error
    reject timed_out (codes "analyzer attempt timed out")
    receive_io run.written (codes "analyzer stdin")
    (stdout, stdout_overflow) ← bounded (receive_io run.out (codes "analyzer stdout"))
    (stderr, stderr_overflow) ← bounded (receive_io run.error (codes "analyzer stderr"))
    reject stdout_overflow (codes "analyzer output exceeds 16 KiB")
    reject (not (is_zero code)) (
        codes "analyzer exit "
        ++ (signed_decimal code ++ (codes ": " ++ single_line_clip (from_utf8_lossy stderr) 1000)))
    parsed ← parse stdout
    reject (ltb 4096 (length (utf8 parsed.progress)) || ltb 8192 (length (utf8 parsed.summary)))
        (codes "analyzer fields exceed limits")
    ok (record parsed {
      progress = sanitize_terminal parsed.progress;
      summary = sanitize_terminal parsed.summary;
    })

  -- `run`; none is that the analyzer goes on.
  unfoldable pub run_analyzer : AnalyzerSpec → ℕ → AnalyzerRun → Option (Result Text AnalyzerOutput)
  unfolding resolve_code wait_for analyzed
  run_analyzer spec timeout_ms run = elim (resolve_code spec run >>= λ code. run.spawned) [
    | err why ↦ some (err why)
    | ok u ↦ elim (wait_for timeout_ms run.killed run.turns) [
      | none ↦ none
      | some (err why) ↦ some (err why)
      | some (ok status) ↦ some (analyzed status run)
    ]
  ]
