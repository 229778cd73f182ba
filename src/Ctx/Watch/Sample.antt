-- ===== src/Ctx/Watch/Sample.antt =====
-- A watch's sample, tools/src/pira_ctx/watch/sample.rs, with the path that native_path.rs keeps. What
-- the system and the result store answer are inputs: how a process goes on, its exit code, what its
-- streams bring, and what is read of a stored capture.
pub mod Probing
use pira.Common.{
  ℕ, zero, ◌+◌, Bool, true, false, not, ◌&&◌, ◌||◌, List, [], ◌∷◌, ◌++◌, Option, none, some, ltb,
  leb, ◌==◌, if◌then◌else◌, Text, Bytes, Result, ok, err, reject, ok_or, ◌>>=◌, ◌>>◌, codes, length,
}
use pira.Common.Chars.{decimal}
use pira.Common.Int.{ℤ, pos, negsuc}
use pira.Common.Utf8.{utf8}
use pira.Ctx.Terminal.{sanitize_terminal}
use pira.Ctx.Clip.{single_line_clip}
use pira.Ctx.Watch.State.{
  SourceKind, probe, capture, JobStatus, unknown, pending, succeeded, job_failed, NativePath,
  utf8_path, unix_bytes, windows_wide, WatchState,
}
use pira.Ctx.Watch.Tails.{read_tail, read_bounded}

pub record Sample : Type 0 where
  pub job : JobStatus
  pub stdout : Bytes
  pub stderr : Bytes
  pub activity : Bool
  pub detail : Text
  pub reliable : Bool

-- `native_path::resolve` on Unix; a path is its bytes.
abbrev pub has_replacement : Text → Bool
has_replacement [] = false
has_replacement (c ∷ s) = c == 0xFFFD || has_replacement s

abbrev pub is_nonempty {ℓ} : {A : Type ℓ} → List A → Bool
is_nonempty [] = false
is_nonempty (x ∷ xs) = true

unfoldable pub to_path : NativePath → Result Text Bytes
unfolding utf8
to_path (utf8_path text) = ok (utf8 text)
to_path (unix_bytes bytes) = ok bytes
to_path (windows_wide units) =
    err (codes "cwd native encoding belongs to another platform; refusing execution")

unfoldable pub resolve : Option NativePath → Text → Result Text Bytes
unfolding to_path utf8
resolve (some path) display = to_path path
resolve none display =
    if is_nonempty display && not (has_replacement display)
    then ok (utf8 display)
    else err (
        codes
          "ambiguous legacy cwd: original native path was not retained; start a new watch from the intended directory; path bytes will not be guessed")

-- What a thread that reads a stream leaves for its receiver: the chunks up to the end, an error of
-- the system that ends the reading, nothing in time, or no sender.
pub data Reader : Type 0 where
  finished : List Bytes → Reader
  broken : Text → Reader
  expired : Reader
  disconnected : Reader

-- `receive_reader` of a `read_tail`.
unfoldable pub receive_reader : Reader → Text → Result Text (Option (Bytes × Bool))
unfolding read_tail
receive_reader (finished chunks) label = elim (read_tail chunks) [
  | err why ↦ err why
  | ok tail ↦ ok (some tail)
]
receive_reader (broken why) label = err why
receive_reader expired label = ok none
receive_reader disconnected label = err (label ++ codes " reader disconnected")

-- A turn of the loop that waits for a process: whether a stop is asked for, the time since the
-- start, and what `try_wait` answers, an error as the caller words it.
pub record Turn : Type 0 where
  pub stop : Bool
  pub elapsed : ℕ
  pub waited : Result Text (Option ℤ)

-- The status, whether it was stopped, and whether it timed out.
abbrev pub Status : Type 0
Status = ℤ × Bool × Bool

abbrev pub terminated : Result Text ℤ → Bool → Bool → Result Text Status
terminated (err why) stopped timed_out = err why
terminated (ok code) stopped timed_out = ok (code, stopped, timed_out)

-- The loop; `terminate_and_wait` answers `killed`. None is that it goes on behind these turns.
unfoldable pub wait_for : ℕ → Result Text ℤ → List Turn → Option (Result Text Status)
wait_for limit killed [] = none
wait_for limit killed (turn ∷ turns) =
    let later = wait_for limit killed turns in
    if turn.stop
    then some (terminated killed true false)
    else if leb limit turn.elapsed
    then some (terminated killed false true)
    else elim turn.waited [
      | err why ↦ some (err why)
      | ok (some code) ↦ some (ok (code, false, false))
      | ok none ↦ later
    ]

-- `{}` of a signed number.
unfoldable pub signed_decimal : ℤ → Text
unfolding decimal
signed_decimal (pos n) = decimal n
signed_decimal (negsuc n) = b'-' ∷ decimal (n + 1)

abbrev pub stop_error : Text
stop_error = codes "watch stop requested"

-- The job that an exit code tells of. `pending_exit` is compared last.
unfoldable pub job_of : ℕ → ℤ → Result Text JobStatus
unfolding signed_decimal
job_of pending_exit (pos code) =
    if code == 0
    then ok succeeded
    else if code == 2
    then ok job_failed
    else if code == pending_exit
    then ok pending
    else err (codes "probe exited with unexpected status " ++ signed_decimal (pos code))
job_of pending_exit (negsuc n) =
    err (codes "probe exited with unexpected status " ++ signed_decimal (negsuc n))

-- One turn of the loop over the streams that are not available.
unfoldable pub note_stream : JobStatus → Text → Bool → Text → Result Text Text
note_stream job stream true detail = ok detail
note_stream pending stream false detail =
    err (codes "probe " ++ (stream ++ codes " did not close after process-tree cleanup"))
note_stream job stream false detail = ok (
    detail
    ++ (codes "; "
        ++ (stream ++ codes " output incomplete: pipe did not close after process-tree cleanup")))

abbrev pub available : Option (Bytes × Bool) → Bool
available none = false
available (some tail) = true

-- `unwrap_or_default`
abbrev pub tail_or_default : Option (Bytes × Bool) → Bytes × Bool
tail_or_default none = ([], false)
tail_or_default (some tail) = tail

-- `probe` behind the end of the process. `stop` is what it answers once the streams are drained.
unfoldable pub probed : ℕ → Status → Bool → Reader → Reader → Result Text Sample
unfolding receive_reader job_of note_stream signed_decimal
probed pending_exit (code, stopped, timed_out) stop out error = do
  reject (stopped || stop) stop_error
  reject timed_out (codes "probe attempt timed out")
  stdout_result ← receive_reader out (codes "probe stdout")
  stderr_result ← receive_reader error (codes "probe stderr")
  job ← job_of pending_exit code
  detail ←
      note_stream job (codes "stdout") (available stdout_result)
        (codes "probe exit " ++ signed_decimal code)
  detail' ← note_stream job (codes "stderr") (available stderr_result) detail
  let (stdout, stdout_complete) = tail_or_default stdout_result
  let (stderr, stderr_complete) = tail_or_default stderr_result
  ok (record {
    job = job;
    stdout = stdout;
    stderr = stderr;
    activity = is_nonempty stdout || is_nonempty stderr;
    detail = detail';
    reliable = stdout_complete && stderr_complete;
  })

-- A probe from its start: the error that the system gives for its start, the turns of the loop, and
-- what the loop's end finds.
pub record ProbeRun : Type 0 where
  pub spawned : Result Text (Unit {0})
  pub turns : List Turn
  pub killed : Result Text ℤ
  pub stop : Bool
  pub out : Reader
  pub error : Reader

abbrev pub first {ℓ} : {A : Type ℓ} → List A → Option A
first [] = none
first (x ∷ xs) = some x

-- `probe` in front of the loop.
unfoldable pub start_probe : WatchState → ProbeRun → Result Text (Unit {0})
unfolding resolve
start_probe w run = do
  command ← ok_or (first w.source) (codes "watch source is empty")
  cwd ← resolve w.source_cwd_native w.source_cwd
  run.spawned

unfoldable pub run_probe : WatchState → ℕ → ProbeRun → Option (Result Text Sample)
unfolding start_probe wait_for probed
run_probe w attempt_timeout_ms run = elim (start_probe w run) [
  | err why ↦ some (err why)
  | ok u ↦ elim (wait_for attempt_timeout_ms run.killed run.turns) [
    | none ↦ none
    | some (err why) ↦ some (err why)
    | some (ok status) ↦ some (probed w.pending_exit status run.stop run.out run.error)
  ]
]

-- `sample_growth` of a stored result.
pub record Growth : Type 0 where
  pub stdout_total : ℕ
  pub stderr_total : ℕ
  pub stdout : Bytes
  pub stderr : Bytes
  pub truncated : Bool

pub record Stored : Type 0 where
  pub has_snapshot : Bool
  pub exit_code : ℤ
  pub drain_truncated : Bool
  pub retention_truncated : Bool
  pub sample_growth : ℕ → ℕ → Result Text Growth

-- What the store answers: the result that a name stands for, what is first read of it, whether its
-- owner is active then, and what is read of it again. A path is its bytes.
pub record Store : Type 0 where
  pub resolve_result : Text → Result Text Bytes
  pub read_result_path : Bytes → Result Text Stored
  pub live_result_is_active : Bool
  pub read_again : Bytes → Result Text Stored

unfoldable pub capture_result_path : WatchState → Store → Result Text Bytes
unfolding to_path utf8
capture_result_path w store = elim w.capture_path_native [
  | some path ↦ to_path path
  | none ↦ elim w.capture_path [
    | some path ↦ ok (utf8 path)
    | none ↦ ok_or (first w.source) (codes "capture source missing") >>= store.resolve_result
  ]
]

abbrev pub is_zero : ℤ → Bool
is_zero (pos zero) = true
is_zero _ = false

-- The sample of a stored result and its growth, with the offsets that `capture` keeps.
unfoldable pub captured : WatchState → Stored → Growth → WatchState × Sample
captured w stored growth = (
  record w { stdout_offset = growth.stdout_total; stderr_offset = growth.stderr_total },
  record {
    job =
        (if stored.has_snapshot
          then pending
          else if is_zero stored.exit_code
          then succeeded
          else job_failed);
    stdout = growth.stdout;
    stderr = growth.stderr;
    activity = ltb w.stdout_offset growth.stdout_total || ltb w.stderr_offset growth.stderr_total;
    detail =
        (if growth.truncated then codes "capture growth tail clipped" else codes "capture sampled");
    reliable =
        not growth.truncated && (not stored.drain_truncated && not stored.retention_truncated);
  },
)

abbrev pub owner_lost : Text
owner_lost = codes "capture owner lost; interrupted checkpoint cannot establish child outcome"

-- What is read again of a result whose owner is gone.
unfoldable pub recheck : WatchState → Store → Bytes → Result Text (WatchState × Sample)
unfolding captured
recheck w store path = do
  latest ← store.read_again path
  reject latest.has_snapshot owner_lost
  growth ← latest.sample_growth w.stdout_offset w.stderr_offset
  ok (captured w latest growth)

unfoldable pub run_capture : WatchState → Store → Result Text (WatchState × Sample)
unfolding capture_result_path captured recheck
run_capture w store = do
  path ← capture_result_path w store
  stored ← store.read_result_path path
  growth ← stored.sample_growth w.stdout_offset w.stderr_offset
  (if stored.has_snapshot && not store.live_result_is_active
      then recheck w store path
      else ok (captured w stored growth))

abbrev pub with_watch : WatchState → Result Text Sample → Result Text (WatchState × Sample)
with_watch w (err why) = err why
with_watch w (ok sample) = ok (w, sample)

-- `collect`, from a source of the kind; none is that the probe goes on.
unfoldable pub collect_from :
    SourceKind → WatchState → ℕ → ProbeRun → Store → Option (Result Text (WatchState × Sample))
unfolding run_probe run_capture
collect_from capture w attempt_timeout_ms run store = some (run_capture w store)
collect_from probe w attempt_timeout_ms run store = elim (run_probe w attempt_timeout_ms run) [
  | none ↦ none
  | some result ↦ some (with_watch w result)
]

unfoldable pub collect :
    WatchState → ℕ → ProbeRun → Store → Option (Result Text (WatchState × Sample))
unfolding collect_from
collect w = collect_from w.source_kind w
