-- ===== src/Ctx/Watch/Control.antt =====
-- Updates of a running watch, tools/src/pira_ctx/watch/mod.rs: `update_controls` queues them in the
-- control file, and `apply_control` is how the owner takes them up.
pub mod Settings
pub mod Runnable
pub mod Linked
pub mod Updated
pub mod InStep
use pira.Common.{
  ℕ, ◌+◌, max, min, Bool, true, false, not, ◌&&◌, ◌||◌, List, [], ◌∷◌, ◌++◌, Option, none, some,
  ltb, ◌==◌, if◌then◌else◌, Text, Result, ok, err, reject, ◌>>=◌, ◌>>◌, codes,
}
use pira.Common.Chars.{decimal}
use pira.Ctx.Watch.State.{
  u64_max, u128_max, saturating_add, is_some, unwrap_or, SourceKind, is_probe, stopped, idle,
  AttentionPolicy, AnalyzerSpec, WatchState, WatchConfiguration, ControlState,
}

unfoldable pub validate_sampling_cost : SourceKind → Bool → ℕ → Result Text (Unit {0})
validate_sampling_cost source_kind has_analyzer sample_every_ms =
    reject ((is_probe source_kind || has_analyzer) && ltb sample_every_ms 1_000)
      (codes "process-backed watches require --sample-every of at least 1s")

abbrev pub no_progress_error : Text
no_progress_error = codes "--no-progress-after requires an effective analyzer"

-- What `apply_control` does in turn. `interrupted` is that the process is asked to shut down.
unfoldable pub apply_stop : Bool → ControlState → WatchState → WatchState
apply_stop interrupted control w =
    if control.stop_requested || interrupted
    then record w { monitor = stopped; attempt = idle; detail = codes "stop requested" }
    else w

unfoldable pub apply_clear : ControlState → WatchState → WatchState
apply_clear control w =
    if control.clear_analyzer
    then record w {
      analyzer = none;
      progress = [];
      progress_hash = [];
      analyzer_summary = [];
      last_progress_ms = none;
    }
    else w

abbrev pub is_newer : AnalyzerSpec → Option AnalyzerSpec → Bool
is_newer spec none = true
is_newer spec (some old) = ltb old.revision spec.revision

unfoldable pub apply_analyzer : ℕ → Option AnalyzerSpec → WatchState → WatchState
apply_analyzer now none w = w
apply_analyzer now (some spec) w =
    if is_newer spec w.analyzer
    then record w {
      analyzer = some spec;
      progress = [];
      progress_hash = [];
      analyzer_summary = [];
      last_progress_ms = some now;
      analyzer_error = none;
    }
    else w

unfoldable pub apply_configuration : ℕ → Option WatchConfiguration → WatchState → WatchState
unfolding decimal
apply_configuration now none w = w
apply_configuration now (some c) w =
    if ltb w.configuration_revision c.revision
    then record w {
      configuration_revision = c.revision;
      sample_every_ms = c.sample_every_ms;
      inactive_after_ms = c.inactive_after_ms;
      unchanged_after_ms = c.unchanged_after_ms;
      no_progress_after_ms = c.no_progress_after_ms;
      attention_policy = c.attention_policy;
      next_sample_ms = min w.next_sample_ms (saturating_add u128_max now c.sample_every_ms);
      detail = codes "configuration revision " ++ (decimal c.revision ++ codes " applied");
    }
    else w

-- `apply_control`, behind the reading of the control file. The clock is read for the analyzer and
-- for the configuration.
unfoldable pub apply_control : Bool → ℕ → ℕ → ControlState → WatchState → WatchState
unfolding apply_stop apply_clear apply_analyzer apply_configuration
apply_control interrupted now now' control w =
    apply_configuration now' control.configuration
      (apply_analyzer now control.analyzer (apply_clear control (apply_stop interrupted control w)))

-- The options of the command line that an update reads.
pub record Config : Type 0 where
  pub watch_clear_analyzer : Bool
  pub watch_sample_every_set : Bool
  pub watch_sample_every_ms : ℕ
  pub watch_inactive_after_set : Bool
  pub watch_inactive_after_ms : Option ℕ
  pub watch_unchanged_after_set : Bool
  pub watch_unchanged_after_ms : Option ℕ
  pub watch_no_progress_after_set : Bool
  pub watch_no_progress_after_ms : Option ℕ
  pub watch_attention_set : Bool
  pub watch_attention : AttentionPolicy

unfoldable pub configuration_update_requested : Config → Bool
configuration_update_requested config =
    config.watch_sample_every_set || config.watch_inactive_after_set
    || config.watch_unchanged_after_set || config.watch_no_progress_after_set
    || config.watch_attention_set

-- `map_or` of a queued configuration.
abbrev pub current {ℓ} : {A : Type ℓ} → Option WatchConfiguration → A → (WatchConfiguration → A) → A
current none a f = a
current (some c) a f = f c

abbrev pub analyzer_revision_of : Option AnalyzerSpec → ℕ
analyzer_revision_of none = 0
analyzer_revision_of (some spec) = spec.revision

-- The parts of the closure that `update_controls` hands to `update_control`. `analyzer_update` is
-- that an analyzer is set or cleared, `code_hash` the hash of the one that is set.
module _ (config : Config) (state : WatchState) (analyzer_update : Bool)
    (code_hash : Option Text) where
  unfoldable pub effective_analyzer : ControlState → Bool
  effective_analyzer control =
      if analyzer_update
      then not config.watch_clear_analyzer
      else if control.clear_analyzer
      then is_some control.analyzer
      else is_some control.analyzer || is_some state.analyzer

  unfoldable pub requested_no_progress : ControlState → Option ℕ
  requested_no_progress control =
      if config.watch_clear_analyzer
      then (if config.watch_no_progress_after_set then config.watch_no_progress_after_ms else none)
      else if config.watch_no_progress_after_set
      then config.watch_no_progress_after_ms
      else current control.configuration state.no_progress_after_ms (λ c. c.no_progress_after_ms)

  unfoldable pub requested_sample_every : ControlState → ℕ
  requested_sample_every control =
      if config.watch_sample_every_set
      then config.watch_sample_every_ms
      else current control.configuration state.sample_every_ms (λ c. c.sample_every_ms)

  abbrev pub spec_of : ℕ → Option Text → Option AnalyzerSpec
  spec_of revision none = none
  spec_of revision (some hash) = some (record { revision = revision; code_hash = hash; code = [] })

  unfoldable pub queue_analyzer : ControlState → ControlState
  queue_analyzer control =
      let revision =
        saturating_add u64_max (max control.analyzer_revision (analyzer_revision_of state.analyzer))
          1 in
      if analyzer_update
      then record control {
        analyzer_revision = revision;
        clear_analyzer = config.watch_clear_analyzer;
        analyzer = spec_of revision code_hash;
      }
      else control

  unfoldable pub queued_configuration : ℕ → Option WatchConfiguration → WatchConfiguration
  queued_configuration revision old = record {
    revision = revision;
    sample_every_ms =
        (if config.watch_sample_every_set
          then config.watch_sample_every_ms
          else current old state.sample_every_ms (λ c. c.sample_every_ms));
    inactive_after_ms =
        (if config.watch_inactive_after_set
          then config.watch_inactive_after_ms
          else current old state.inactive_after_ms (λ c. c.inactive_after_ms));
    unchanged_after_ms =
        (if config.watch_unchanged_after_set
          then config.watch_unchanged_after_ms
          else current old state.unchanged_after_ms (λ c. c.unchanged_after_ms));
    no_progress_after_ms =
        (if config.watch_clear_analyzer
          then none
          else if config.watch_no_progress_after_set
          then config.watch_no_progress_after_ms
          else current old state.no_progress_after_ms (λ c. c.no_progress_after_ms));
    attention_policy =
        (if config.watch_attention_set
          then config.watch_attention
          else current old state.attention_policy (λ c. c.attention_policy));
  }

  unfoldable pub queue_configuration : ControlState → ControlState
  unfolding queued_configuration
  queue_configuration control =
      let revision =
        saturating_add u64_max (max control.configuration_revision state.configuration_revision)
          1 in
      record control {
        configuration_revision = revision;
        configuration = some (queued_configuration revision control.configuration);
      }

  -- Whether the configuration is written: it was asked for, or clearing the analyzer drops the
  -- interval that needs one.
  unfoldable pub updates_configuration : Bool
  unfolding configuration_update_requested
  updates_configuration =
      configuration_update_requested config
      || analyzer_update && (config.watch_clear_analyzer && not config.watch_no_progress_after_set)

  unfoldable pub queue_update : ControlState → Result Text ControlState
  unfolding effective_analyzer requested_no_progress requested_sample_every validate_sampling_cost
      queue_analyzer queue_configuration updates_configuration
  queue_update control = do
    reject (is_some (requested_no_progress control) && not (effective_analyzer control))
        no_progress_error
    validate_sampling_cost state.source_kind (effective_analyzer control)
        (requested_sample_every control)
    let queued = queue_analyzer control
    ok (if updates_configuration then queue_configuration queued else queued)
