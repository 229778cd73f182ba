-- ===== src/Ctx/Watch/Tests.antt =====
-- The watch of pira_ctx (tools/src/pira_ctx/watch) on small inputs.
use pira.Common.{
  ℕ, ◌+◌, ◌≡◌, refl, true, false, List, [], ◌∷◌, ◌++◌, none, some, ltb, leb, if◌then◌else◌, Text,
  Bytes, Result, ok, err, codes, length, arith,
}
use pira.Common.Int.{pos}
use pira.Ctx.Watch.View.{Vt100, TerminalView, default, feed, save, restore}
use pira.Ctx.Watch.View.Replay.{StartsBlank, start, fed, restore-save}
use pira.Ctx.Watch.State.{
  probe, active, complete, unknown, succeeded, idle, return, WatchState, ControlState, no_control,
}
use pira.Ctx.Watch.Control.{
  Config, apply_control, effective_analyzer, requested_no_progress, requested_sample_every,
  validate_sampling_cost, queue_analyzer, queue_configuration, updates_configuration,
  queued_configuration, configuration_update_requested, queue_update,
}
use pira.Ctx.Watch.Control.Settings.{Synced, IsUpdate}
use pira.Ctx.Watch.Control.Runnable.{IsRunnable}
use pira.Ctx.Watch.Control.InStep.{
  Reached, created, queued, taken_up, Reached-Synced, taken_up-IsRunnable,
}
use pira.Ctx.Watch.Tails.{max_tail, max_stream_output, clip_front, read_tail_from, read_tail}
use pira.Ctx.Watch.Tails.Laws.{stream, last_n, read_tail_lem}
use pira.Ctx.Watch.Attention.{no_raw_activity, observed_reason, update_attention}
use pira.Ctx.Watch.Attention.Why.{Why, IsUpdated, observed_reason-Why, update_attention-once}
use pira.Ctx.Watch.Sample.{finished, ProbeRun, Store}
use pira.Ctx.Watch.Analyzer.{AnalyzerOutput, AnalyzerRun, done}
use pira.Ctx.Watch.Own.{Read, Round, Ending}
use pira.Ctx.Watch.Own.Ends.{Reported}
use pira.Ctx.Watch.Own.Progress.{IsTimedRound}
use pira.Ctx.Watch.Command.{Entry, own}
use pira.Ctx.Watch.Command.Outcome.{own-Reported, own-returns}

-- A terminal that shows what it is sent on one row.
abbrev plain : Vt100
plain = record {
  Parser = Text;
  new = [];
  process = λ p b. some (p ++ b ∷ [], []);
  cursor_position = λ p. (0, 0);
  cell = λ p row col. none;
  rows = λ p. p ∷ [];
  csi = λ bytes. [];
}

plain-StartsBlank : StartsBlank plain
plain-StartsBlank = record { rows = (refl, tt); csi = refl }

abbrev greeting : Bytes
greeting = b'h' ∷ b'i' ∷ []

abbrev fed_view : TerminalView
fed_view = feed plain default greeting

abbrev two_seconds : WatchState
two_seconds = record {
  schema = 2;
  id = codes "watch-1";
  workspace_hash = [];
  created_ms = 0;
  updated_ms = 0;
  deadline_ms = 60_000;
  source_kind = probe;
  source = codes "true" ∷ [];
  source_cwd = codes "/";
  source_cwd_native = none;
  capture_path = none;
  capture_path_native = none;
  intent = none;
  sample_every_ms = 2_000;
  attempt_timeout_ms = 1_000;
  pending_exit = 10;
  attention_policy = return;
  configuration_revision = 0;
  inactive_after_ms = some 500;
  unchanged_after_ms = none;
  no_progress_after_ms = none;
  analyzer = none;
  monitor = active;
  job = unknown;
  attempt = idle;
  attempts = 0;
  sample_ms = none;
  next_sample_ms = 0;
  stdout_offset = 0;
  stderr_offset = 0;
  raw_stdout = [];
  raw_stderr = [];
  visible_stdout = [];
  visible_stderr = [];
  stdout_view = default;
  stderr_view = default;
  raw_hash = [];
  visible_hash = [];
  progress_hash = [];
  progress = [];
  analyzer_summary = [];
  analyzer_error = none;
  last_activity_ms = some 0;
  last_visible_change_ms = some 0;
  last_progress_ms = none;
  attention_reason = none;
  attention_sequence = 0;
  detail = codes "watch created";
  rendered_reliable = true;
}

-- `--sample-every 3s`
abbrev slower : Config
slower = record {
  watch_clear_analyzer = false;
  watch_sample_every_set = true;
  watch_sample_every_ms = 3_000;
  watch_inactive_after_set = false;
  watch_inactive_after_ms = none;
  watch_unchanged_after_set = false;
  watch_unchanged_after_ms = none;
  watch_no_progress_after_set = false;
  watch_no_progress_after_ms = none;
  watch_attention_set = false;
  watch_attention = return;
}

restore-save_example : restore plain (save fed_view) ≡ some fed_view
restore-save_example = restore-save plain plain-StartsBlank (fed greeting start)

-- The control file behind the update.
abbrev slowed : ControlState
slowed = record no_control {
  configuration_revision = 1;
  configuration = some (record {
    revision = 1;
    sample_every_ms = 3_000;
    inactive_after_ms = some 500;
    unchanged_after_ms = none;
    no_progress_after_ms = none;
    attention_policy = return;
  });
}

slowed_queued : queue_update slower two_seconds false none no_control ≡ ok slowed
unfolding queue_update effective_analyzer requested_no_progress requested_sample_every
    validate_sampling_cost queue_analyzer queue_configuration updates_configuration
    queued_configuration configuration_update_requested
slowed_queued = refl

slower-IsUpdate : IsUpdate slower false none
slower-IsUpdate = record { clears = λ h. absurd cc; sets = λ h. absurd cc }

-- The owner has taken the first update up in memory, and has not written the watch.
abbrev slowed_watch : WatchState
slowed_watch = apply_control false 7 7 slowed two_seconds

ahead : Reached slowed slowed_watch two_seconds
ahead = taken_up false 7 7 (
    queued slower false none (created two_seconds refl) slower-IsUpdate (omega arith) slowed_queued)

Reached-Synced_example :
    Synced slowed.configuration slowed_watch × Synced slowed.configuration two_seconds
Reached-Synced_example = Reached-Synced ahead

-- The control file behind the same update again, of the watch on disk.
abbrev slowed_again : ControlState
slowed_again = record no_control {
  configuration_revision = 2;
  configuration = some (record {
    revision = 2;
    sample_every_ms = 3_000;
    inactive_after_ms = some 500;
    unchanged_after_ms = none;
    no_progress_after_ms = none;
    attention_policy = return;
  });
}

slowed_again_queued : queue_update slower two_seconds false none slowed ≡ ok slowed_again
unfolding queue_update effective_analyzer requested_no_progress requested_sample_every
    validate_sampling_cost queue_analyzer queue_configuration updates_configuration
    queued_configuration configuration_update_requested
slowed_again_queued = refl

taken_up-IsRunnable_example : IsRunnable (apply_control false 9 9 slowed_again slowed_watch)
taken_up-IsRunnable_example =
    taken_up-IsRunnable slower false none false 9 9 slowed slowed_again slowed_watch two_seconds
      slower-IsUpdate ahead (omega arith) slowed_again_queued

abbrev two_chunks : List Bytes
two_chunks = (b'h' ∷ []) ∷ (b'i' ∷ []) ∷ [] ∷ []

two_chunks_read : read_tail two_chunks ≡ ok (greeting, true)
unfolding read_tail read_tail_from clip_front
two_chunks_read = refl

read_tail_lem_example : read_tail two_chunks ≡ (
    if ltb max_stream_output (length (stream two_chunks))
    then err (codes "probe aggregate output exceeds 1 MiB")
    else ok (last_n max_tail (stream two_chunks), leb (length (stream two_chunks)) max_tail))
read_tail_lem_example = read_tail_lem two_chunks

inactive_reason : observed_reason two_seconds 600 true ≡ some no_raw_activity
unfolding observed_reason
inactive_reason = refl

observed_reason-Why_example : Why two_seconds 600 true no_raw_activity
observed_reason-Why_example =
    observed_reason-Why two_seconds 600 true no_raw_activity inactive_reason

update_attention-once_example :
    (let after = update_attention two_seconds (some no_raw_activity) in
      IsUpdated two_seconds (some no_raw_activity) after
      × (update_attention after.0 (some no_raw_activity) ≡ (after.0, false)))
update_attention-once_example = update_attention-once two_seconds (some no_raw_activity)

-- A probe that is still pending at the first look and succeeds at the second.
abbrev succeeding : ProbeRun
succeeding = record {
  spawned = ok tt;
  turns =
      record { stop = false; elapsed = 0; waited = ok none }
      ∷ record { stop = false; elapsed = 50; waited = ok (some (pos 0)) }
      ∷ record { stop = false; elapsed = 1_000; waited = ok none }
      ∷ [];
  killed = ok (pos 143);
  stop = false;
  out = finished two_chunks;
  error = finished [];
}

abbrev no_store : Store
no_store = record {
  resolve_result = λ name. err (codes "no result");
  read_result_path = λ path. err (codes "no result");
  live_result_is_active = false;
  read_again = λ path. err (codes "no result");
}

abbrev no_analyzer : AnalyzerRun
no_analyzer = record {
  stored_code = λ hash. err (codes "no code");
  spawned = ok tt;
  turns = record { stop = false; elapsed = 1_000; waited = ok none } ∷ [];
  killed = ok (pos 143);
  stop = false;
  written = done (ok tt);
  out = done (ok []);
  error = done (ok []);
}

abbrev read_at : ℕ → Read
read_at now = record {
  control = ok no_control;
  interrupted = false;
  analyzer_ms = now;
  configuration_ms = now;
}

abbrev round_at : ℕ → Round
round_at now = record {
  now = now;
  read = read_at now;
  polls =
      record { now = now + 100; read = read_at (now + 100) }
      ∷ record { now = 60_000; read = read_at 60_000 }
      ∷ [];
  start_written = ok tt;
  probe_run = succeeding;
  store = no_store;
  failed_ms = now;
  failed_review_ms = now;
  limit_ms = now;
  sampled_ms = now;
  analyzer_run = λ input. no_analyzer;
  unanalyzed_ms = now;
  unanalyzed_review_ms = now;
  attention_ms = now;
  next_ms = now;
  kept_ms = now;
  kept = ok tt;
  ended_ms = now;
  ended = ok tt;
  reported = ok tt;
}

abbrev opened : Entry
opened = record { acquired = ok tt; control_written = ok tt; now = 0; reported = ok tt }

abbrev no_output : Bytes → Result Text AnalyzerOutput
no_output bytes = err (codes "no output")

abbrev no_digest : Bytes → Bytes
no_digest bytes = []

round_at-IsTimedRound : IsTimedRound (60_000, 1_000) (round_at 5)
round_at-IsTimedRound = record {
  probe_timed = refl;
  analyzer_timed = λ input. refl;
  sleep_timed = refl;
}

own-returns_example :
    (end : Ending) × (own plain no_output no_digest opened
        (codes "watch-1")
        none
        (round_at 5 ∷ round_at 60_000 ∷ [])
        two_seconds
      ≡ some end)
own-returns_example =
    own-returns plain no_output no_digest opened (codes "watch-1") none (round_at 5 ∷ [])
      (round_at 60_000) two_seconds (round_at-IsTimedRound, tt) (omega arith)

-- The watch whose probe succeeds in its first round.
abbrev succeeded_watch : WatchState
succeeded_watch = record two_seconds {
  updated_ms = 5;
  monitor = complete;
  job = succeeded;
  attempts = 1;
  sample_ms = some 5;
  raw_stdout = greeting;
  stdout_view = fed_view;
  visible_stdout = greeting;
  last_activity_ms = some 5;
  last_visible_change_ms = some 5;
  detail = codes "probe exit 0";
}

own_succeeds :
    own plain no_output no_digest opened (codes "watch-1") none (round_at 5 ∷ []) two_seconds
    ≡ some (ok 0, succeeded_watch, succeeded_watch)
unfolding own
own_succeeds = refl

own-Reported_example : Reported (ok 0) succeeded_watch succeeded_watch
own-Reported_example =
    own-Reported plain no_output no_digest opened (codes "watch-1") none (round_at 5 ∷ [])
      two_seconds (ok 0, succeeded_watch, succeeded_watch) own_succeeds
