-- ===== src/Ctx/Watch/Control/Settings.antt =====
-- The settings of a watch, and what taking up a control file makes of them (`apply_control` of
-- tools/src/pira_ctx/watch/mod.rs).
use pira.Common.{
  ℕ, ◌<◌, ◌≡◌, refl, ap, ◌∙◌, Bool, true, false, ◌||◌, Option, none, some, ltb, if◌then◌else◌, Text,
  Bool-cases, ◌⊎◌, inl, inr, arith,
}
use pira.Ctx.Watch.Control.{
  apply_stop, apply_clear, is_newer, apply_analyzer, apply_configuration, apply_control, Config,
}
use pira.Ctx.Watch.State.{
  is_some, AttentionPolicy, AnalyzerSpec, WatchState, WatchConfiguration, ControlState,
}

-- What a configuration sets: how often the watch is sampled, its limits without activity, without a
-- visible change and without progress, and what it does for attention.
abbrev pub Settings : Type 0
Settings = ℕ × Option ℕ × Option ℕ × Option ℕ × AttentionPolicy

abbrev pub settings : WatchState → Settings
settings w = (
  w.sample_every_ms, w.inactive_after_ms, w.unchanged_after_ms, w.no_progress_after_ms,
  w.attention_policy,
)

abbrev pub values : WatchConfiguration → Settings
values c = (
  c.sample_every_ms, c.inactive_after_ms, c.unchanged_after_ms, c.no_progress_after_ms,
  c.attention_policy,
)

-- A configuration in the control file waits to be taken up, or its settings are those of the watch,
-- under its revision.
abbrev pub Synced : Option WatchConfiguration → WatchState → Type 0
Synced none w = Unit {0}
Synced (some c) w =
    (w.configuration_revision < c.revision)
    ⊎ ((w.configuration_revision ≡ c.revision) × (values c ≡ settings w))

-- An update either sets an analyzer, or clears it, or leaves it, as the command line sees to.
pub record IsUpdate (config : Config) (analyzer_update : Bool) (code_hash : Option Text)
    : Type 0 where
  pub clears : config.watch_clear_analyzer ≡ true → (analyzer_update ≡ true) × (code_hash ≡ none)
  pub sets : analyzer_update ≡ true → config.watch_clear_analyzer ≡ false → is_some code_hash ≡ true

-- The analyzer that a control file leaves to a watch.
abbrev pub has_analyzer : ControlState → WatchState → Bool
has_analyzer control w =
    if control.clear_analyzer
    then is_some control.analyzer
    else is_some control.analyzer || is_some w.analyzer

-- The values that a control file leaves to a watch.
abbrev pub value_of {ℓ} :
    {A : Type ℓ} → Option WatchConfiguration → WatchState → A → (WatchConfiguration → A) → A
value_of none w a f = a
value_of (some c) w a f = if ltb w.configuration_revision c.revision then f c else a

-- What taking up a control file makes of a watch.
pub record Applied (control : ControlState) (w v : WatchState) : Type 0 where
  pub analyzer : is_some v.analyzer ≡ has_analyzer control w
  pub settled : settings v ≡ value_of control.configuration w (settings w) values
  pub source : v.source_kind ≡ w.source_kind

-- A step that touches neither the settings nor the source.
pub record SameSettings (w v : WatchState) : Type 0 where
  pub revision : v.configuration_revision ≡ w.configuration_revision
  pub settled : settings v ≡ settings w
  pub source : v.source_kind ≡ w.source_kind

SameSettings-refl : (w : WatchState) → SameSettings w w
SameSettings-refl w = record { revision = refl; settled = refl; source = refl }

SameSettings-trans : {u v w : WatchState} → SameSettings u v → SameSettings v w → SameSettings u w
SameSettings-trans h k = record {
  revision = k.revision ∙ h.revision;
  settled = k.settled ∙ h.settled;
  source = k.source ∙ h.source;
}

either_SameSettings :
    (b : Bool) {w u v : WatchState}
    → SameSettings w u
    → SameSettings w v
    → SameSettings w (if b then u else v)
either_SameSettings true h k = h
either_SameSettings false h k = k

same :
    {w v : WatchState}
    → v.configuration_revision ≡ w.configuration_revision
    → settings v ≡ settings w
    → v.source_kind ≡ w.source_kind
    → SameSettings w v
same h k l = record { revision = h; settled = k; source = l }

apply_stop-SameSettings :
    (interrupted : Bool) (control : ControlState) (w : WatchState)
    → SameSettings w (apply_stop interrupted control w)
unfolding apply_stop
apply_stop-SameSettings interrupted control w =
    either_SameSettings (control.stop_requested || interrupted) (same refl refl refl)
      (SameSettings-refl w)

apply_clear-SameSettings :
    (control : ControlState) (w : WatchState) → SameSettings w (apply_clear control w)
unfolding apply_clear
apply_clear-SameSettings control w =
    either_SameSettings control.clear_analyzer (same refl refl refl) (SameSettings-refl w)

apply_analyzer-SameSettings :
    (now : ℕ) (spec : Option AnalyzerSpec) (w : WatchState)
    → SameSettings w (apply_analyzer now spec w)
unfolding apply_analyzer
apply_analyzer-SameSettings now none w = SameSettings-refl w
apply_analyzer-SameSettings now (some spec) w =
    either_SameSettings (is_newer spec w.analyzer) (same refl refl refl) (SameSettings-refl w)

-- The watch in front of its configuration.
abbrev pub analyzed : Bool → ℕ → ControlState → WatchState → WatchState
analyzed interrupted now control w =
    apply_analyzer now control.analyzer (apply_clear control (apply_stop interrupted control w))

pub analyzed-SameSettings :
    (interrupted : Bool) (now : ℕ) (control : ControlState) (w : WatchState)
    → SameSettings w (analyzed interrupted now control w)
analyzed-SameSettings interrupted now control w =
    SameSettings-trans (apply_stop-SameSettings interrupted control w) (
      SameSettings-trans (apply_clear-SameSettings control _)
        (apply_analyzer-SameSettings now control.analyzer _))

apply_clear_analyzer :
    (interrupted : Bool) (control : ControlState) (w : WatchState)
    → is_some (apply_clear control (apply_stop interrupted control w)).analyzer
      ≡ (if control.clear_analyzer then false else is_some w.analyzer)
unfolding apply_stop apply_clear
apply_clear_analyzer interrupted control w = ground arith

is_newer-false :
    (spec : AnalyzerSpec) (old : Option AnalyzerSpec)
    → is_newer spec old ≡ false
    → is_some old ≡ true
is_newer-false spec none e = absurd cc
is_newer-false spec (some old) e = refl

apply_analyzer_some :
    (now : ℕ) (spec : Option AnalyzerSpec) (w : WatchState)
    → is_some (apply_analyzer now spec w).analyzer ≡ (is_some spec || is_some w.analyzer)
unfolding apply_analyzer
apply_analyzer_some now none w = refl
apply_analyzer_some now (some spec) w = elim (Bool-cases (is_newer spec w.analyzer)) [
  | inl newer ↦ rw newer refl
  | inr old ↦ simp (old, is_newer-false spec w.analyzer old)
]

apply_configuration_values :
    (now : ℕ) (w : WatchState) (c : Option WatchConfiguration)
    → let v = apply_configuration now c w in
      (settings v ≡ value_of c w (settings w) values)
      × (v.source_kind ≡ w.source_kind)
      × (v.analyzer ≡ w.analyzer)
unfolding apply_configuration
apply_configuration_values now w none = (refl, refl, refl)
apply_configuration_values now w (some c) =
    elim (Bool-cases (ltb w.configuration_revision c.revision)) [
      | inl t ↦ simp (t) (refl, refl, refl)
      | inr f ↦ simp (f) (refl, refl, refl)
    ]

same_value :
    (w v : WatchState) (c : Option WatchConfiguration)
    → SameSettings w v
    → value_of c v (settings v) values ≡ value_of c w (settings w) values
same_value w v none s = s.settled
same_value w v (some c) s =
    let e = s.revision in let k = s.settled in λ i. if ltb (e i) c.revision then values c else k i

left_analyzer :
    (clear new old : Bool) {left : Bool}
    → left ≡ (if clear then false else old)
    → (new || left) ≡ (if clear then new else new || old)
left_analyzer clear new old e = ground arith

pub apply_control-Applied :
    (interrupted : Bool) (now now' : ℕ) (control : ControlState) (w : WatchState)
    → Applied control w (apply_control interrupted now now' control w)
unfolding apply_control
apply_control-Applied interrupted now now' control w =
    let cleared = apply_clear control (apply_stop interrupted control w) in
    let before = analyzed interrupted now control w in
    let first = analyzed-SameSettings interrupted now control w in
    let last = apply_configuration_values now' before control.configuration in
    let old = apply_clear_analyzer interrupted control w in
    let new = apply_analyzer_some now control.analyzer cleared in
    record {
      analyzer =
          ap is_some last.2
          ∙ (new
              ∙ left_analyzer control.clear_analyzer (is_some control.analyzer) (is_some w.analyzer)
                  old);
      settled = last.0 ∙ same_value w before control.configuration first;
      source = last.1 ∙ first.source;
    }
