-- ===== src/Ctx/Watch/Incorporate.antt =====
-- What a sample changes of a watch: `incorporate_sample` and `hash_text` of
-- tools/src/pira_ctx/watch/mod.rs, `hash` of sample.rs, and `hex` of tools/src/pira_ctx/util.rs. SHA-256
-- is the `sha2` crate's, a parameter.
use pira.Common.{
  ℕ, ◌+◌, ◌-◌, ◌/◌, ◌%◌, Bool, true, false, not, ◌&&◌, ◌||◌, List, [], ◌∷◌, ◌++◌, Option, none,
  some, ltb, list_eq, if◌then◌else◌, Text, Bytes, Result, ok, err, codes,
}
use pira.Common.Utf8.{utf8, from_utf8_lossy}
use pira.Ctx.Watch.View.{Vt100, TerminalView, default, feed}
use pira.Ctx.Watch.State.{
  SourceKind, probe, capture, job_label, analyzing, idle, AnalyzerSpec, WatchState,
}
use pira.Ctx.Watch.Tails.{append_tail}
use pira.Ctx.Watch.Sample.{Sample, is_nonempty, resolve}
use pira.Ctx.Watch.Analyzer.{AnalyzerInput, AnalyzerOutput, AnalyzerRun, run_analyzer}

abbrev pub hex_digit : ℕ → ℕ
hex_digit d = if ltb d 10 then b'0' + d else b'a' + (d - 10)

unfoldable pub hex : Bytes → Text
hex [] = []
hex (b ∷ bytes) = hex_digit (b / 16) ∷ hex_digit (b % 16) ∷ hex bytes

abbrev pub source_label : SourceKind → Text
source_label capture = codes "capture"
source_label probe = codes "probe"

abbrev pub analyzer_attention : Text
analyzer_attention = codes "analyzer requested attention"

-- The growth of a capture is put behind what there is, a probe's output takes its place.
unfoldable pub raw_tail : SourceKind → Bytes → Bytes → Bytes
unfolding append_tail
raw_tail capture raw growth = append_tail raw growth
raw_tail probe raw growth = growth

module _ (vt : Vt100) (from_slice : Bytes → Result Text AnalyzerOutput)
    (sha256 : Bytes → Bytes) where
  unfoldable pub hash : List Bytes → Text
  unfolding hex
  hash parts = let joined = concat parts in hex (sha256 joined)
    where
      concat : List Bytes → Bytes
      concat [] = []
      concat (part ∷ rest) = part ++ concat rest

  -- The view that a sample is fed to.
  unfoldable pub fed_view : SourceKind → Bool → TerminalView → Bytes → TerminalView
  unfolding feed
  fed_view kind is_reliable view output =
      let fresh : TerminalView = elim kind [ probe ↦ default | capture ↦ view ] in
      feed vt (if is_reliable then fresh else record fresh { reliable = false }) output

  -- `incorporate_sample` in front of the analyzer.
  unfoldable pub observe : WatchState → Sample → ℕ → WatchState
  unfolding raw_tail fed_view hash list_eq utf8
  observe w sample now =
      let raw_stdout = raw_tail w.source_kind w.raw_stdout sample.stdout in
      let raw_stderr = raw_tail w.source_kind w.raw_stderr sample.stderr in
      let stdout_view = fed_view w.source_kind sample.reliable w.stdout_view sample.stdout in
      let stderr_view = fed_view w.source_kind sample.reliable w.stderr_view sample.stderr in
      let changed =
        not (list_eq stdout_view.text w.visible_stdout)
        || not (list_eq stderr_view.text w.visible_stderr) in
      record w {
        sample_ms = some now;
        job = sample.job;
        detail = sample.detail;
        last_activity_ms = (if sample.activity then some now else w.last_activity_ms);
        raw_stdout = raw_stdout;
        raw_stderr = raw_stderr;
        raw_hash = hash (raw_stdout ∷ raw_stderr ∷ []);
        stdout_view = stdout_view;
        stderr_view = stderr_view;
        last_visible_change_ms = (if changed then some now else w.last_visible_change_ms);
        visible_hash = hash (utf8 stdout_view.text ∷ utf8 stderr_view.text ∷ []);
        visible_stdout = stdout_view.text;
        visible_stderr = stderr_view.text;
        rendered_reliable = sample.reliable && (stdout_view.reliable && stderr_view.reliable);
        analyzer_error = none;
      }

  unfoldable pub input_of : WatchState → AnalyzerInput
  unfolding from_utf8_lossy
  input_of w = record {
    source = source_label w.source_kind;
    job_state = job_label w.job;
    raw_stdout = from_utf8_lossy w.raw_stdout;
    raw_stderr = from_utf8_lossy w.raw_stderr;
    visible_stdout = w.visible_stdout;
    visible_stderr = w.visible_stderr;
    attempts = w.attempts;
  }

  -- The analyzer's output is kept; the flag is whether it asks for attention.
  unfoldable pub keep_analysis : WatchState → AnalyzerOutput → ℕ → WatchState
  unfolding hash list_eq utf8
  keep_analysis w output now =
      let canonical = if is_nonempty output.progress then output.progress else output.summary in
      let hashed = hash (utf8 canonical ∷ []) in
      record w {
        last_progress_ms =
            (if list_eq hashed w.progress_hash then w.last_progress_ms else some now);
        progress_hash = hashed;
        progress = canonical;
        analyzer_summary = output.summary;
        attempt = idle;
      }

  -- What `incorporate_sample` does behind the analyzer, with its result; none is that it goes on.
  unfoldable pub after_analyzer :
      WatchState
      → ℕ
      → Option (Result Text AnalyzerOutput)
      → Option (Result Text (Option Text) × WatchState)
  unfolding keep_analysis
  after_analyzer w now none = none
  after_analyzer w now (some (err why)) = some (err why, record w { attempt = idle })
  after_analyzer w now (some (ok output)) = some (
    ok (if output.attention then some analyzer_attention else none),
    record (keep_analysis w output now) { updated_ms = now },
  )

  -- The analyzer's part. The run depends on the input that the analyzer is given.
  unfoldable pub analyze :
      WatchState
      → AnalyzerSpec
      → ℕ
      → ℕ
      → (AnalyzerInput → AnalyzerRun)
      → Option (Result Text (Option Text) × WatchState)
  unfolding resolve run_analyzer input_of after_analyzer
  analyze w spec attempt_limit_ms now runs = elim (resolve w.source_cwd_native w.source_cwd) [
    | err why ↦ some (err why, record w { attempt = analyzing })
    | ok cwd ↦
        after_analyzer (record w { attempt = analyzing }) now
          (run_analyzer from_slice spec attempt_limit_ms (runs (input_of w)))
  ]

  -- `incorporate_sample` behind what it observes.
  unfoldable pub analyze_if :
      Bool
      → Option AnalyzerSpec
      → WatchState
      → ℕ
      → ℕ
      → (AnalyzerInput → AnalyzerRun)
      → Option (Result Text (Option Text) × WatchState)
  unfolding analyze
  analyze_if true (some spec) w attempt_limit_ms now runs = analyze w spec attempt_limit_ms now runs
  analyze_if _ _ w attempt_limit_ms now runs = some (ok none, record w { updated_ms = now })

  unfoldable pub incorporate_sample :
      WatchState
      → Sample
      → Bool
      → ℕ
      → ℕ
      → (AnalyzerInput → AnalyzerRun)
      → Option (Result Text (Option Text) × WatchState)
  unfolding observe analyze_if
  incorporate_sample w sample runs_analyzer attempt_limit_ms now runs =
      let observed = observe w sample now in
      analyze_if runs_analyzer observed.analyzer observed attempt_limit_ms now runs
