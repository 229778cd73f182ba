-- ===== src/Ctx/Watch/Command.antt =====
-- The command that owns a watch: `own` of tools/src/pira_ctx/watch/mod.rs in front of its loop, and
-- `validate`. The state that it reads is an argument, as is what the system answers.
pub mod Outcome
use pira.Common.{
  ℕ, ◌+◌, ◌≤◌, ◌≡◌, refl, sym, ap, subst, Bool, true, false, not, ◌&&◌, ◌||◌, List, [], ◌∷◌, ◌++◌,
  All, Option, none, some, ◌==◌, list_eq, if◌then◌else◌, Text, Bytes, Result, ok, err, reject,
  ◌>>=◌, ◌>>◌, codes, Bool-cases, Result-cases, ◌⊎◌, inl, inr,
}
use pira.Ctx.Watch.View.{Vt100}
use pira.Ctx.Watch.State.{
  u128_max, saturating_add, is_some, is_probe, MonitorStatus, active, paused, stopped, complete,
  deadline, failed, NativePath, requires_native, WatchState, terminal, exit_code, validate_id,
}
use pira.Ctx.Watch.Sample.{is_nonempty, resolve}
use pira.Ctx.Watch.Analyzer.{AnalyzerOutput}
use pira.Ctx.Watch.Own.{Round, report_result, Ending, own_loop}

-- What the system answers: whether the watch's lock is free, whether the control file is written, the
-- clock, and what becomes of a report of a final state.
pub record Entry : Type 0 where
  pub acquired : Result Text (Unit {0})
  pub control_written : Result Text (Unit {0})
  pub now : ℕ
  pub reported : Result Text (Unit {0})

abbrev pub is_native : Option NativePath → Bool
is_native none = false
is_native (some path) = requires_native path

-- `SCHEMA`, and those of states that hold native paths.
abbrev pub expected_schema : WatchState → ℕ
expected_schema w =
    if is_some w.capture_path_native then 4 else if is_native w.source_cwd_native then 3 else 2

unfoldable pub validate : WatchState → Text → Result Text (Unit {0})
unfolding list_eq validate_id
validate w id = do
  reject (not (w.schema == expected_schema w) || not (list_eq w.id id))
      (codes "watch state identity/schema mismatch")
  reject (not (is_nonempty w.source)) (codes "watch source is empty")
  validate_id id

abbrev pub resumed : WatchState → WatchState
resumed w = record w { monitor = active; detail = codes "watch resumed" }

-- What becomes of a watch with the monitor's state when its owner takes it up. A stopped watch needs
-- its control file written.
unfoldable pub resume_from : MonitorStatus → Entry → WatchState → Result Text WatchState
resume_from stopped entry w = elim entry.control_written [
  | err why ↦ err why
  | ok u ↦ ok (resumed w)
]
resume_from paused entry w = ok (resumed w)
resume_from _ entry w = ok w

abbrev pub cwd_checked : WatchState → Result Text Bytes
cwd_checked w =
    if is_probe w.source_kind || is_some w.analyzer
    then resolve w.source_cwd_native w.source_cwd
    else ok []

-- The watch that the loop begins with.
unfoldable pub take_up : Entry → WatchState → Result Text WatchState
unfolding resolve resume_from
take_up entry w = do cwd ← cwd_checked w; resume_from w.monitor entry w

abbrev pub review_deadline : ℕ → Option ℕ → Option ℕ
review_deadline now none = none
review_deadline now (some ms) = some (saturating_add u128_max now ms)

module _ (vt : Vt100) (from_slice : Bytes → Result Text AnalyzerOutput)
    (sha256 : Bytes → Bytes) where
  unfoldable pub own_taken :
      Entry → Option ℕ → List Round → WatchState → Result Text WatchState → Option Ending
  unfolding own_loop
  own_taken entry watch_review_after_ms rounds disk (err why) = some (err why, disk, disk)
  own_taken entry watch_review_after_ms rounds disk (ok w) =
      own_loop vt from_slice sha256 rounds (review_deadline entry.now watch_review_after_ms) w disk

  -- `own`, with the state on disk.
  unfoldable pub own : Entry → Text → Option ℕ → List Round → WatchState → Option Ending
  unfolding validate take_up own_taken
  own entry id watch_review_after_ms rounds disk = elim (entry.acquired >> validate disk id) [
    | err why ↦ some (err why, disk, disk)
    | ok u ↦
        if terminal disk
        then some (report_result entry.reported (exit_code disk), disk, disk)
        else own_taken entry watch_review_after_ms rounds disk (take_up entry disk)
  ]
