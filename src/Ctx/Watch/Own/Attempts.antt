-- ===== src/Ctx/Watch/Own/Attempts.antt =====
-- An attempt of a watch (tools/src/pira_ctx/watch) ends in its time, and leaves the watch's own time as
-- it is.
use pira.Common.{
  ℕ, ◌≤◌, Bool, true, false, not, ◌&&◌, ◌||◌, ◌≡◌, refl, List, [], ◌∷◌, Option, none, some, leb,
  any, if◌then◌else◌, Text, Bytes, Result, ok, err, reject, ◌>>=◌, Bool-cases, Result-cases, inl,
  inr, arith,
}
use pira.Common.Int.{ℤ}
use pira.Ctx.Watch.View.{Vt100}
use pira.Ctx.Watch.State.{AnalyzerSpec, WatchState, SourceKind, probe, capture, analyzing}
use pira.Ctx.Watch.Attention.{remaining_ms}
use pira.Ctx.Watch.Sample.{
  Sample, Turn, Status, terminated, wait_for, probed, ProbeRun, start_probe, run_probe, Store,
  capture_result_path, owner_lost, recheck, run_capture, captured, with_watch, collect_from,
  collect, resolve,
}
use pira.Ctx.Watch.Analyzer.{
  AnalyzerInput, AnalyzerOutput, AnalyzerRun, resolve_code, analyzed, run_analyzer,
}
use pira.Ctx.Watch.Incorporate.{
  observe, input_of, keep_analysis, after_analyzer, analyze, analyze_if, incorporate_sample,
}
use pira.Ctx.Watch.Own.Keeps.{fixed}

-- An attempt's time is at most the watch's.
pub remaining_ms_le :
    (now deadline : ℕ) (review : Option ℕ) (configured : ℕ)
    → remaining_ms now deadline review configured ≤ configured
unfolding remaining_ms
remaining_ms_le now deadline review configured = omega arith

-- The turns reach a time.
abbrev pub IsTimed : ℕ → List Turn → Type 0
IsTimed time turns = any (λ turn. leb time turn.elapsed) turns ≡ true

later_timed : (a b : Bool) → a || b ≡ true → a ≡ false → b ≡ true
later_timed true b h k = absurd cc
later_timed false b h k = h

longer : (a b c : ℕ) → a ≤ b → leb a c ≡ false → leb b c ≡ false
longer a b c h k = ground arith

wait_for-IsTimed :
    (limit time : ℕ) (killed : Result Text ℤ) (turns : List Turn)
    → limit ≤ time
    → IsTimed time turns
    → (status : Result Text Status) × (wait_for limit killed turns ≡ some status)
unfolding wait_for
wait_for-IsTimed limit time killed [] h k = absurd cc
wait_for-IsTimed limit time killed (turn ∷ turns) h k = elim (Bool-cases turn.stop) [
  | inl t ↦ simp (wait_for, t) (terminated killed true false, refl)
  | inr f ↦ elim (Bool-cases (leb limit turn.elapsed)) [
    | inl t ↦ simp (wait_for, f, t) (terminated killed false true, refl)
    | inr f' ↦ elim (Result-cases turn.waited) [
      | inl (why, e) ↦ simp (wait_for, f, f', e) (err why, refl)
      | inr (some code, e) ↦ simp (wait_for, f, f', e) (ok (code, false, false), refl)
      | inr (none, e) ↦
          simp (wait_for, f, f', e)
            (wait_for-IsTimed limit time killed turns h
              (later_timed _ _ k (longer limit time turn.elapsed h f')))
    ]
  ]
]

-- A sample of the watch is taken, or there is an error.
pub data Sampled (w : WatchState) : Option (Result Text (WatchState × Sample)) → Type 0 where
  sample_of :
      (w' : WatchState) (sample : Sample) → fixed w' ≡ fixed w → Sampled w (some (ok (w', sample)))
  no_sample : (why : Text) → Sampled w (some (err why))

run_probe-IsTimed :
    (w : WatchState) (limit time : ℕ) (run : ProbeRun)
    → limit ≤ time
    → IsTimed time run.turns
    → (result : Result Text Sample) × (run_probe w limit run ≡ some result)
unfolding run_probe
run_probe-IsTimed w limit time run h k = elim (Result-cases (start_probe w run)) [
  | inl (why, e) ↦ simp (run_probe, e) (err why, refl)
  | inr (u, e) ↦
      let (status, e') = wait_for-IsTimed limit time run.killed run.turns h k in
      simp (run_probe, e, e') (decided w run status)
]
  where
    decided :
        (w : WatchState) (run : ProbeRun) (status : Result Text Status)
        → (result : Result Text Sample) × (◌≡◌ {A = Option (Result Text Sample)}
            (elim status [
              | err why ↦ some (err why)
              | ok s ↦ some (probed w.pending_exit s run.stop run.out run.error)
            ])
            (some result))
    decided w run (err why) = (err why, refl)
    decided w run (ok s) = (probed w.pending_exit s run.stop run.out run.error, refl)

-- A value that a result holds has a property.
data OkHas {ℓ} {A : Type ℓ} (P : A → Type 0) : Result Text A → Type ℓ where
  err_has : (why : Text) → OkHas P (err why)
  ok_has : (a : A) → P a → OkHas P (ok a)

>>=-OkHas {ℓ κ} :
    {A : Type ℓ} {B : Type κ} (P : B → Type 0) (before : Result Text A) (next : A → Result Text B)
    → ((a : A) → OkHas P (next a))
    → OkHas P (before >>= next)
>>=-OkHas P (err why) next h = err_has why
>>=-OkHas P (ok a) next h = h a

abbrev SampleKeeps : WatchState → WatchState × Sample → Type 0
SampleKeeps w taken = fixed taken.0 ≡ fixed w

OkHas-Sampled :
    (w : WatchState) (result : Result Text (WatchState × Sample))
    → OkHas (SampleKeeps w) result
    → Sampled w (some result)
OkHas-Sampled w (err why) h = no_sample why
OkHas-Sampled w (ok (w', sample)) (ok_has a h) = sample_of w' sample h

recheck-OkHas :
    (w : WatchState) (store : Store) (path : Bytes) → OkHas (SampleKeeps w) (recheck w store path)
unfolding recheck captured
recheck-OkHas w store path = >>=-OkHas (SampleKeeps w) (store.read_again path) _ λ latest.
    >>=-OkHas (SampleKeeps w) (reject latest.has_snapshot owner_lost) _ λ u.
      >>=-OkHas (SampleKeeps w) (latest.sample_growth w.stdout_offset w.stderr_offset) _
        λ growth. ok_has (captured w latest growth) refl

run_capture-OkHas : (w : WatchState) (store : Store) → OkHas (SampleKeeps w) (run_capture w store)
unfolding run_capture captured
run_capture-OkHas w store = >>=-OkHas (SampleKeeps w) (capture_result_path w store) _ λ path.
    >>=-OkHas (SampleKeeps w) (store.read_result_path path) _ λ stored.
      >>=-OkHas (SampleKeeps w) (stored.sample_growth w.stdout_offset w.stderr_offset) _ λ growth.
        either (stored.has_snapshot && not store.live_result_is_active) (recheck-OkHas w store path)
          (ok_has (captured w stored growth) refl)
  where
    either :
        (b : Bool) {first second : Result Text (WatchState × Sample)}
        → OkHas (SampleKeeps w) first
        → OkHas (SampleKeeps w) second
        → OkHas (SampleKeeps w) (if b then first else second)
    either true h k = h
    either false h k = k

collect_from-Sampled :
    (kind : SourceKind) (w : WatchState) (limit time : ℕ) (run : ProbeRun) (store : Store)
    → limit ≤ time
    → IsTimed time run.turns
    → Sampled w (collect_from kind w limit run store)
unfolding collect_from
collect_from-Sampled capture w limit time run store h k =
    OkHas-Sampled w (run_capture w store) (run_capture-OkHas w store)
collect_from-Sampled probe w limit time run store h k =
    let (result, e) = run_probe-IsTimed w limit time run h k in
    simp (collect_from, e) (taken w result)
  where
    taken : (w : WatchState) (result : Result Text Sample) → Sampled w (some (with_watch w result))
    taken w (err why) = no_sample why
    taken w (ok sample) = sample_of w sample refl

pub collect-Sampled :
    (w : WatchState) (limit time : ℕ) (run : ProbeRun) (store : Store)
    → limit ≤ time
    → IsTimed time run.turns
    → Sampled w (collect w limit run store)
unfolding collect
collect-Sampled w limit time run store h k =
    collect_from-Sampled w.source_kind w limit time run store h k

-- What `incorporate_sample` gives is there, and leaves the time of the watch.
pub data Given (time : ℕ × ℕ) : Option (Result Text (Option Text) × WatchState) → Type 0 where
  given :
      (result : Result Text (Option Text)) (w' : WatchState)
      → fixed w' ≡ time
      → Given time (some (result, w'))

module _ (vt : Vt100) (from_slice : Bytes → Result Text AnalyzerOutput)
    (sha256 : Bytes → Bytes) where
  run_analyzer-IsTimed :
      (spec : AnalyzerSpec) (limit time : ℕ) (run : AnalyzerRun)
      → limit ≤ time
      → IsTimed time run.turns
      → (result : Result Text AnalyzerOutput) × (run_analyzer from_slice spec limit run
          ≡ some result)
  unfolding run_analyzer
  run_analyzer-IsTimed spec limit time run h k =
      elim (Result-cases (resolve_code spec run >>= λ code. run.spawned)) [
        | inl (why, e) ↦ simp (run_analyzer, e) (err why, refl)
        | inr (u, e) ↦
            let (status, e') = wait_for-IsTimed limit time run.killed run.turns h k in
            simp (run_analyzer, e, e') (decided run status)
      ]
    where
      decided :
          (run : AnalyzerRun) (status : Result Text Status)
          → (result : Result Text AnalyzerOutput) × (◌≡◌ {A = Option (Result Text AnalyzerOutput)}
              (elim status [ err why ↦ some (err why) | ok s ↦ some (analyzed from_slice s run) ])
              (some result))
      decided run (err why) = (err why, refl)
      decided run (ok s) = (analyzed from_slice s run, refl)

  after_analyzer-Given :
      (w : WatchState) (now : ℕ) (result : Result Text AnalyzerOutput)
      → Given (fixed w) (after_analyzer vt from_slice sha256 w now (some result))
  unfolding after_analyzer keep_analysis
  after_analyzer-Given w now (err why) = given (err why) _ refl
  after_analyzer-Given w now (ok output) = given _ _ refl

  analyze-Given :
      (w : WatchState) (spec : AnalyzerSpec) (limit now time : ℕ)
      (runs : AnalyzerInput → AnalyzerRun)
      → limit ≤ time
      → ((input : AnalyzerInput) → IsTimed time (runs input).turns)
      → Given (fixed w) (analyze vt from_slice sha256 w spec limit now runs)
  unfolding analyze
  analyze-Given w spec limit now time runs h k =
      let input = input_of vt from_slice sha256 w in
      let (result, e) = run_analyzer-IsTimed spec limit time (runs input) h (k input) in
      elim (Result-cases (resolve w.source_cwd_native w.source_cwd)) [
        | inl (why, e') ↦
            simp (analyze, e') (given (err why) (record w { attempt = analyzing }) refl)
        | inr (cwd, e') ↦
            simp (analyze, e', e)
              (after_analyzer-Given (record w { attempt = analyzing }) now result)
      ]

  analyze_if-Given :
      (runs_analyzer : Bool) (spec : Option AnalyzerSpec) (w : WatchState) (limit now time : ℕ)
      (runs : AnalyzerInput → AnalyzerRun)
      → limit ≤ time
      → ((input : AnalyzerInput) → IsTimed time (runs input).turns)
      → Given (fixed w) (analyze_if vt from_slice sha256 runs_analyzer spec w limit now runs)
  unfolding analyze_if
  analyze_if-Given true (some spec) w limit now time runs h k =
      analyze-Given w spec limit now time runs h k
  analyze_if-Given true none w limit now time runs h k =
      given (ok none) (record w { updated_ms = now }) refl
  analyze_if-Given false spec w limit now time runs h k =
      given (ok none) (record w { updated_ms = now }) refl

  pub incorporate_sample-Given :
      (w : WatchState) (sample : Sample) (runs_analyzer : Bool) (limit now time : ℕ)
      (runs : AnalyzerInput → AnalyzerRun)
      → limit ≤ time
      → ((input : AnalyzerInput) → IsTimed time (runs input).turns)
      → Given
          (fixed w)
          (incorporate_sample vt from_slice sha256 w sample runs_analyzer limit now runs)
  unfolding incorporate_sample observe
  incorporate_sample-Given w sample runs_analyzer limit now time runs h k =
      let observed = observe vt from_slice sha256 w sample now in
      analyze_if-Given runs_analyzer observed.analyzer observed limit now time runs h k
