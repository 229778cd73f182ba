-- ===== src/Ctx/Watch/Own.antt =====
-- The owner of a watch: `own`, `validate`, `sleep_controlled` and `persist` of
-- tools/src/pira_ctx/watch/mod.rs. A round of its loop has an environment, a `Round`, which holds what
-- the clock, the control file, the disk and the processes answer in that round.
pub mod Ends
pub mod Keeps
pub mod Sleep
pub mod Attempts
pub mod Progress
pub mod Returns
use pira.Common.{
  ℕ, ◌+◌, min, Bool, true, false, not, ◌&&◌, ◌||◌, List, [], ◌∷◌, Option, none, some, ltb, leb,
  ◌==◌, list_eq, if◌then◌else◌, Text, Bytes, Result, ok, err, reject, ◌>>=◌, ◌>>◌, codes,
}
use pira.Ctx.Watch.View.{Vt100}
use pira.Ctx.Watch.State.{
  u64_max, u128_max, saturating_add, is_some, unwrap_or, is_probe, MonitorStatus, active, paused,
  stopped, complete, deadline, failed, JobStatus, unknown, pending, succeeded, job_failed,
  AttemptStatus, idle, probing, AttentionPolicy, return, cache, requires_native, WatchState,
  ControlState, is_stopped, terminal, exit_code, validate_id,
}
use pira.Ctx.Watch.Control.{validate_sampling_cost, no_progress_error, apply_control}
use pira.Ctx.Watch.Attention.{remaining_ms, evaluate_attention}
use pira.Ctx.Watch.Sample.{Sample, ProbeRun, Store, collect, stop_error, is_nonempty, resolve}
use pira.Ctx.Watch.Analyzer.{AnalyzerInput, AnalyzerOutput, AnalyzerRun}
use pira.Ctx.Watch.Incorporate.{incorporate_sample}

-- A reading of the control file, and the clock where it is taken up.
pub record Read : Type 0 where
  pub control : Result Text ControlState
  pub interrupted : Bool
  pub analyzer_ms : ℕ
  pub configuration_ms : ℕ

-- A turn of the loop of `sleep_controlled`.
pub record Poll : Type 0 where
  pub now : ℕ
  pub read : Read

pub record Round : Type 0 where
  pub now : ℕ
  pub read : Read
  -- The turns of the sleep, which takes those up to the one that finds its end.
  pub polls : List Poll
  pub start_written : Result Text (Unit {0})
  pub probe_run : ProbeRun
  pub store : Store
  -- The clock behind a sample that fails.
  pub failed_ms : ℕ
  pub failed_review_ms : ℕ
  pub limit_ms : ℕ
  pub sampled_ms : ℕ
  pub analyzer_run : AnalyzerInput → AnalyzerRun
  -- The clock behind an analyzer that fails.
  pub unanalyzed_ms : ℕ
  pub unanalyzed_review_ms : ℕ
  pub attention_ms : ℕ
  pub next_ms : ℕ
  -- The writes of `persist`, in a round that goes on and in its end.
  pub kept_ms : ℕ
  pub kept : Result Text (Unit {0})
  pub ended_ms : ℕ
  pub ended : Result Text (Unit {0})
  pub reported : Result Text (Unit {0})

-- What a round comes to, with the watch in memory and the watch on disk: another round, or the result
-- of the command; or its process goes on.
pub data Step : Type 0 where
  goes_on : WatchState → WatchState → Step
  returns : Result Text ℕ → WatchState → WatchState → Step
  waits : Step

unfoldable pub take_control : Read → WatchState → Result Text WatchState
unfolding apply_control
take_control read w = elim read.control [
  | err why ↦ err why
  | ok control ↦
      ok (apply_control read.interrupted read.analyzer_ms read.configuration_ms control w)
]

-- None is that the sleep goes on behind the turns.
unfoldable pub sleep_controlled :
    List Poll → ℕ → WatchState → Option (Result Text (Unit {0}) × WatchState)
unfolding take_control
sleep_controlled [] until w = none
sleep_controlled (poll ∷ polls) until w =
    if ltb poll.now until
    then elim (take_control poll.read w) [
      | err why ↦ some (err why, w)
      | ok w' ↦
          if is_stopped w'.monitor || ltb w'.next_sample_ms until
          then some (ok tt, w')
          else sleep_controlled polls until w'
    ]
    else some (ok tt, w)

unfoldable pub slept : WatchState → Option (Result Text (Unit {0}) × WatchState) → Step
slept disk none = waits
slept disk (some (err why, w)) = returns (err why) w disk
slept disk (some (ok u, w)) = goes_on w disk

-- `report`, as far as its result is concerned.
abbrev pub report_result : Result Text (Unit {0}) → ℕ → Result Text ℕ
report_result (err why) code = err why
report_result (ok u) code = ok code

-- `persist(&path, &mut watch)?; return report(&watch, code)`
unfoldable pub end_with : Round → ℕ → WatchState → WatchState → Step
end_with round code w disk =
    let ended : WatchState = record w { updated_ms = round.ended_ms } in
    elim round.ended [
      | err why ↦ returns (err why) ended disk
      | ok u ↦ returns (report_result round.reported code) ended ended
    ]

abbrev pub deadline_detail : Text
deadline_detail = codes "overall deadline reached"

abbrev pub review_detail : Text
review_detail = codes "requested review interval reached"

abbrev pub at_deadline : WatchState → WatchState
at_deadline w = record w { monitor = deadline; detail = deadline_detail }

abbrev pub at_review : WatchState → WatchState
at_review w = record w { monitor = paused; detail = review_detail }

abbrev pub at_stop : Text → WatchState → WatchState
at_stop error w = record w { monitor = stopped; detail = error }

abbrev pub at_error : Text → WatchState → WatchState
at_error error w = record w { monitor = failed; detail = error }

abbrev pub at_analyzer_error : Text → WatchState → WatchState
at_analyzer_error error w = record w {
  monitor = failed;
  detail = error;
  analyzer_error = some error;
}

abbrev pub started : Round → WatchState → WatchState
started round w = record w { attempt = probing; updated_ms = round.now }

-- The end of an attempt, whatever it gives, and of one that gives no sample.
abbrev pub tried : WatchState → WatchState
tried w = record w { attempt = idle; attempts = saturating_add u64_max w.attempts 1 }

abbrev pub lost : WatchState → WatchState
lost w = record w { job = unknown; rendered_reliable = false }

-- `shutdown::INTERRUPTED`
abbrev pub interrupted_error : Text
interrupted_error = codes "__PIRA_CTX_INTERRUPTED__"

abbrev pub is_stop : Text → Bool
is_stop error = list_eq error stop_error || list_eq error interrupted_error

-- `review_deadline.is_some_and(|deadline| now >= deadline)`
abbrev pub is_due : Option ℕ → ℕ → Bool
is_due none now = false
is_due (some review) now = leb review now

-- What an error of a sample or an analyzer ends in, at the times that the clock then gives.
unfoldable pub give_up : Round → Option ℕ → ℕ → ℕ → WatchState → WatchState → WatchState → Step
unfolding end_with
give_up round review now review_now w failed_watch disk =
    if leb w.deadline_ms now
    then end_with round 21 (at_deadline w) disk
    else if is_due review review_now
    then end_with round 10 (at_review w) disk
    else end_with round 22 failed_watch disk

abbrev pub needs_analyzer : JobStatus → Bool
needs_analyzer unknown = true
needs_analyzer pending = true
needs_analyzer _ = false

abbrev pub returns_on_attention : AttentionPolicy → Bool
returns_on_attention return = true
returns_on_attention cache = false

abbrev pub next_sample : Round → WatchState → WatchState
next_sample round w = record w {
  next_sample_ms = saturating_add u128_max round.next_ms w.sample_every_ms;
  updated_ms = round.kept_ms;
}

-- A round of a job that goes on, once attention is evaluated.
unfoldable pub carry_on : Round → WatchState × Bool → WatchState → Step
unfolding end_with
carry_on round (evaluated, raised) disk =
    let next = next_sample round evaluated in
    elim round.kept [
      | err why ↦ returns (err why) next disk
      | ok u ↦
          if raised && returns_on_attention next.attention_policy
          then end_with round 10 (record next { monitor = paused }) next
          else goes_on next next
    ]

-- A round behind the sample and its analysis.
unfoldable pub conclude : Round → Option Text → Bool → WatchState → WatchState → Step
unfolding end_with evaluate_attention carry_on
conclude round attention observation_complete w disk = elim w.job [
  | succeeded ↦ end_with round 0 (record w { monitor = complete }) disk
  | job_failed ↦ end_with round 20 (record w { monitor = complete }) disk
  | _ ↦ carry_on round (evaluate_attention w round.attention_ms attention observation_complete) disk
]

-- A round behind `incorporate_sample`.
unfoldable pub incorporated :
    Round → Option ℕ → Bool → Option (Result Text (Option Text) × WatchState) → WatchState → Step
unfolding give_up end_with conclude
incorporated round review observation_complete none disk = waits
incorporated round review observation_complete (some (ok attention, w)) disk =
    conclude round attention observation_complete w disk
incorporated round review observation_complete (some (err error, w)) disk =
    if is_stop error
    then end_with round 23 (at_stop error w) disk
    else give_up round review round.unanalyzed_ms round.unanalyzed_review_ms w
        (at_analyzer_error error w) disk

-- The result, and the watch in memory and on disk.
abbrev pub Ending : Type 0
Ending = Result Text ℕ × WatchState × WatchState

abbrev pub after_round : (WatchState → WatchState → Option Ending) → Step → Option Ending
after_round next (goes_on w disk) = next w disk
after_round next (returns result w disk) = some (result, w, disk)
after_round next waits = none

module _ (vt : Vt100) (from_slice : Bytes → Result Text AnalyzerOutput)
    (sha256 : Bytes → Bytes) where
  -- A round behind the sample; the last watch is that before it.
  unfoldable pub sampled :
      Round → Option ℕ → Option (Result Text (WatchState × Sample)) → WatchState → WatchState → Step
  unfolding give_up end_with incorporate_sample remaining_ms incorporated
  sampled round review none w disk = waits
  sampled round review (some (ok (w', sample))) w disk =
      incorporated round review sample.reliable
        (incorporate_sample vt from_slice sha256 (tried w') sample (needs_analyzer sample.job)
          (remaining_ms round.limit_ms w'.deadline_ms review w'.attempt_timeout_ms) round.sampled_ms
          round.analyzer_run)
        disk
  sampled round review (some (err error)) w disk =
      if is_stop error
      then end_with round 23 (at_stop error (tried w)) disk
      else give_up round review round.failed_ms round.failed_review_ms (lost (tried w))
          (at_error error (lost (tried w))) disk

  -- A round from the sample on.
  unfoldable pub attempt : Round → Option ℕ → WatchState → WatchState → Step
  unfolding collect remaining_ms sampled
  attempt round review w disk =
      sampled round review
        (collect w (remaining_ms round.now w.deadline_ms review w.attempt_timeout_ms)
          round.probe_run round.store)
        w disk

  -- A round that is due: its checks, and the write in front of the sample.
  unfoldable pub sample_round : Round → Option ℕ → WatchState → WatchState → Step
  unfolding validate_sampling_cost attempt
  sample_round round review w disk =
      elim (validate_sampling_cost w.source_kind (is_some w.analyzer) w.sample_every_ms
        >> (reject (is_some w.no_progress_after_ms && not (is_some w.analyzer))
            no_progress_error)) [
              | err why ↦ returns (err why) w disk
              | ok u ↦ elim round.start_written [
                | err why ↦ returns (err why) (started round w) disk
                | ok v ↦ attempt round review (started round w) (started round w)
              ]
            ]

  -- A round once the control file is taken up.
  unfoldable pub controlled_round : Round → Option ℕ → WatchState → WatchState → Step
  unfolding end_with sleep_controlled slept sample_round
  controlled_round round review w disk =
      if is_stopped w.monitor
      then end_with round 23 w disk
      else if leb w.deadline_ms round.now
      then end_with round 21 (at_deadline w) disk
      else if is_due review round.now
      then end_with round 10 (at_review w) disk
      else if ltb round.now w.next_sample_ms
      then slept disk (
          sleep_controlled round.polls
            (min (min w.next_sample_ms w.deadline_ms) (unwrap_or review u128_max)) w)
      else sample_round round review w disk

  -- The body of the loop.
  unfoldable pub own_round : Round → Option ℕ → WatchState → WatchState → Step
  unfolding end_with take_control controlled_round
  own_round round review w disk =
      if terminal w then end_with round (exit_code w) w disk else elim (take_control round.read w) [
        | err why ↦ returns (err why) w disk
        | ok w' ↦ controlled_round round review w' disk
      ]

  -- The loop over the rounds that there are. None is that it goes on behind them.
  unfoldable pub own_loop : List Round → Option ℕ → WatchState → WatchState → Option Ending
  unfolding own_round
  own_loop [] review w disk = none
  own_loop (round ∷ rounds) review w disk =
      after_round (own_loop rounds review) (own_round round review w disk)
