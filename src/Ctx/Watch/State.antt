-- ===== src/Ctx/Watch/State.antt =====
-- The data of a watch, tools/src/pira_ctx/watch/state.rs and native_path.rs: its state, and the control
-- file that other commands leave for its owner. Times are milliseconds.
use pira.Common.{
  ℕ, ◌+◌, min, Bool, true, false, ◌&&◌, ◌||◌, List, Option, none, some, ◌==◌, all, if◌then◌else◌,
  Text, Bytes, Result, ok, err, codes, starts_with, is_ascii_alphanumeric,
}
use pira.Ctx.Watch.View.{TerminalView}

abbrev pub u64_max : ℕ
u64_max = 18_446_744_073_709_551_615

abbrev pub u128_max : ℕ
u128_max = 340_282_366_920_938_463_463_374_607_431_768_211_455

-- `saturating_add` of numbers up to a maximum.
abbrev pub saturating_add : ℕ → ℕ → ℕ → ℕ
saturating_add maximum a b = min maximum (a + b)

abbrev pub is_some {ℓ} : {A : Type ℓ} → Option A → Bool
is_some none = false
is_some (some a) = true

abbrev pub unwrap_or {ℓ} : {A : Type ℓ} → Option A → A → A
unwrap_or none d = d
unwrap_or (some a) d = a

pub data SourceKind : Type 0 where
  probe : SourceKind
  capture : SourceKind

pub data MonitorStatus : Type 0 where
  active : MonitorStatus
  paused : MonitorStatus
  stopped : MonitorStatus
  complete : MonitorStatus
  deadline : MonitorStatus
  failed : MonitorStatus

pub data JobStatus : Type 0 where
  unknown : JobStatus
  pending : JobStatus
  succeeded : JobStatus
  job_failed : JobStatus

pub data AttemptStatus : Type 0 where
  idle : AttemptStatus
  probing : AttemptStatus
  analyzing : AttemptStatus

pub data AttentionPolicy : Type 0 where
  return : AttentionPolicy
  cache : AttentionPolicy

pub data NativePath : Type 0 where
  utf8_path : Text → NativePath
  unix_bytes : Bytes → NativePath
  windows_wide : List ℕ → NativePath

abbrev pub requires_native : NativePath → Bool
requires_native (utf8_path text) = false
requires_native _ = true

pub record AnalyzerSpec : Type 0 where
  pub revision : ℕ
  pub code_hash : Text
  pub code : Text

pub record WatchState : Type 0 where
  pub schema : ℕ
  pub id : Text
  pub workspace_hash : Text
  pub created_ms : ℕ
  pub updated_ms : ℕ
  pub deadline_ms : ℕ
  pub source_kind : SourceKind
  pub source : List Text
  pub source_cwd : Text
  pub source_cwd_native : Option NativePath
  pub capture_path : Option Text
  pub capture_path_native : Option NativePath
  pub intent : Option Text
  pub sample_every_ms : ℕ
  pub attempt_timeout_ms : ℕ
  -- From 1 to 255, as the command line takes it.
  pub pending_exit : ℕ
  pub attention_policy : AttentionPolicy
  pub configuration_revision : ℕ
  pub inactive_after_ms : Option ℕ
  pub unchanged_after_ms : Option ℕ
  pub no_progress_after_ms : Option ℕ
  pub analyzer : Option AnalyzerSpec
  pub monitor : MonitorStatus
  pub job : JobStatus
  pub attempt : AttemptStatus
  pub attempts : ℕ
  pub sample_ms : Option ℕ
  pub next_sample_ms : ℕ
  pub stdout_offset : ℕ
  pub stderr_offset : ℕ
  pub raw_stdout : Bytes
  pub raw_stderr : Bytes
  pub visible_stdout : Text
  pub visible_stderr : Text
  pub stdout_view : TerminalView
  pub stderr_view : TerminalView
  pub raw_hash : Text
  pub visible_hash : Text
  pub progress_hash : Text
  pub progress : Text
  pub analyzer_summary : Text
  pub analyzer_error : Option Text
  pub last_activity_ms : Option ℕ
  pub last_visible_change_ms : Option ℕ
  pub last_progress_ms : Option ℕ
  pub attention_reason : Option Text
  pub attention_sequence : ℕ
  pub detail : Text
  pub rendered_reliable : Bool

pub record WatchConfiguration : Type 0 where
  pub revision : ℕ
  pub sample_every_ms : ℕ
  pub inactive_after_ms : Option ℕ
  pub unchanged_after_ms : Option ℕ
  pub no_progress_after_ms : Option ℕ
  pub attention_policy : AttentionPolicy

pub record ControlState : Type 0 where
  pub stop_requested : Bool
  pub analyzer_revision : ℕ
  pub analyzer : Option AnalyzerSpec
  pub clear_analyzer : Bool
  pub configuration_revision : ℕ
  pub configuration : Option WatchConfiguration

-- `ControlState::default`
abbrev pub no_control : ControlState
no_control = record {
  stop_requested = false;
  analyzer_revision = 0;
  analyzer = none;
  clear_analyzer = false;
  configuration_revision = 0;
  configuration = none;
}

abbrev pub is_probe : SourceKind → Bool
is_probe probe = true
is_probe capture = false

-- The final states of a watch.
abbrev pub is_final : MonitorStatus → Bool
is_final complete = true
is_final deadline = true
is_final failed = true
is_final _ = false

abbrev pub is_stopped : MonitorStatus → Bool
is_stopped stopped = true
is_stopped _ = false

abbrev pub terminal : WatchState → Bool
terminal w = is_final w.monitor

abbrev pub code_of : MonitorStatus → JobStatus → ℕ
code_of complete succeeded = 0
code_of complete _ = 20
code_of deadline _ = 21
code_of failed _ = 22
code_of stopped _ = 23
code_of _ _ = 10

abbrev pub exit_code : WatchState → ℕ
exit_code w = code_of w.monitor w.job

abbrev pub job_label : JobStatus → Text
job_label unknown = codes "unknown"
job_label pending = codes "pending"
job_label succeeded = codes "succeeded"
job_label job_failed = codes "failed"

-- Whether the owner lives is asked of the system.
abbrev pub list_state : Bool → MonitorStatus → JobStatus → Text
list_state owner_is_alive active job =
    if owner_is_alive then codes "active" else codes "interrupted"
list_state owner_is_alive paused job = codes "paused"
list_state owner_is_alive stopped job = codes "stopped"
list_state owner_is_alive deadline job = codes "deadline"
list_state owner_is_alive failed job = codes "monitor-failed"
list_state owner_is_alive complete succeeded = codes "succeeded"
list_state owner_is_alive complete _ = codes "job-failed"

unfoldable pub validate_id : Text → Result Text (Unit {0})
unfolding starts_with
validate_id id =
    if starts_with (codes "watch-") id && all (λ c. is_ascii_alphanumeric c || c == b'-') id
    then ok tt
    else err (codes "invalid watch ID")
