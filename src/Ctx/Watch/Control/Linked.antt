-- ===== src/Ctx/Watch/Control/Linked.antt =====
-- What stays between the control file, the watch in the owner's memory and the watch on disk, whatever
-- updates are queued and taken up (tools/src/pira_ctx/watch/mod.rs).
use pira.Common.{
  ℕ, ◌≤◌, ◌<◌, ◌≡◌, refl, sym, ap, subst, ◌∙◌, Bool, true, false, ◌||◌, Option, none, some, ltb,
  if◌then◌else◌, Bool-cases, inl, inr, arith,
}
use pira.Ctx.Watch.Control.{apply_configuration, apply_control}
use pira.Ctx.Watch.Control.Settings.{
  settings, values, Synced, SameSettings, value_of, analyzed, analyzed-SameSettings,
  apply_control-Applied,
}
use pira.Ctx.Watch.Control.Runnable.{IsLinked}
use pira.Ctx.Watch.State.{
  is_some, AnalyzerSpec, WatchState, WatchConfiguration, ControlState, no_control,
}

SameSettings-Synced :
    (c : Option WatchConfiguration) {w v : WatchState} → SameSettings w v → Synced c w → Synced c v
SameSettings-Synced none s h = tt
SameSettings-Synced (some c) s (inl newer) =
    inl (subst (λ n. n < c.revision) (sym s.revision) newer)
SameSettings-Synced (some c) s (inr (revision, kept)) =
    inr (s.revision ∙ revision, kept ∙ sym s.settled)

apply_configuration-Synced :
    (now : ℕ) (c : Option WatchConfiguration) (w : WatchState)
    → Synced c w
    → Synced c (apply_configuration now c w)
unfolding apply_configuration
apply_configuration-Synced now none w s = tt
apply_configuration-Synced now (some c) w s =
    elim (Bool-cases (ltb w.configuration_revision c.revision)) [
      | inl newer ↦ simp newer (inr (refl, refl))
      | inr old ↦ simp old s
    ]

-- The revision of a configuration is at most the control file's.
abbrev pub Known : ℕ → Option WatchConfiguration → Type 0
Known n none = Unit {0}
Known n (some c) = c.revision ≤ n

apply_configuration_revision_le :
    (now n : ℕ) (c : Option WatchConfiguration) (w : WatchState)
    → Known n c
    → w.configuration_revision ≤ n
    → (apply_configuration now c w).configuration_revision ≤ n
unfolding apply_configuration
apply_configuration_revision_le now n none w known h = h
apply_configuration_revision_le now n (some c) w known h =
    elim (Bool-cases (ltb w.configuration_revision c.revision)) [
      | inl newer ↦ simp newer known
      | inr old ↦ simp old h
    ]

left_of :
    (clear : Bool) (spec : Option AnalyzerSpec) (a : Bool)
    → clear ≡ false
    → spec ≡ none
    → (if clear then is_some spec else is_some spec || a) ≡ a
left_of true spec a h k = absurd cc
left_of false none a h k = refl
left_of false (some spec) a h k = absurd cc

apply_control-IsLinked :
    (interrupted : Bool) (now now' : ℕ) (control : ControlState) (w disk : WatchState)
    → Known control.configuration_revision control.configuration
    → IsLinked control w disk
    → IsLinked control (apply_control interrupted now now' control w) disk
unfolding apply_control
apply_control-IsLinked interrupted now now' control w disk known l =
    let same = analyzed-SameSettings interrupted now control w in
    let applied = apply_control-Applied interrupted now now' control w in
    record {
      synced =
          apply_configuration-Synced now' control.configuration (analyzed interrupted now control w)
            (SameSettings-Synced control.configuration same l.synced);
      revision =
          apply_configuration_revision_le now' control.configuration_revision control.configuration
            (analyzed interrupted now control w) known
            (subst (λ n. n ≤ control.configuration_revision) (sym same.revision) l.revision);
      source = applied.source ∙ l.source;
      settled = λ e. applied.settled ∙ (ap (λ c. value_of c w (settings w) values) e ∙ l.settled e);
      analyzer = λ clear spec.
          applied.analyzer
          ∙ (left_of control.clear_analyzer control.analyzer (is_some w.analyzer) clear spec
              ∙ l.analyzer clear spec);
    }

worked-IsLinked :
    (control : ControlState) (w v disk : WatchState)
    → SameSettings w v
    → is_some v.analyzer ≡ is_some w.analyzer
    → IsLinked control w disk
    → IsLinked control v disk
worked-IsLinked control w v disk same analyzer l = record {
  synced = SameSettings-Synced control.configuration same l.synced;
  revision = subst (λ n. n ≤ control.configuration_revision) (sym same.revision) l.revision;
  source = same.source ∙ l.source;
  settled = λ e. same.settled ∙ l.settled e;
  analyzer = λ clear spec. analyzer ∙ l.analyzer clear spec;
}

self-IsLinked :
    (control : ControlState) (w disk : WatchState) → IsLinked control w disk → IsLinked control w w
self-IsLinked control w disk l = record {
  synced = l.synced;
  revision = l.revision;
  source = refl;
  settled = λ e. refl;
  analyzer = λ clear spec. refl;
}

stop-IsLinked :
    (stop : Bool) (control : ControlState) (w disk : WatchState)
    → IsLinked control w disk
    → IsLinked (record control { stop_requested = stop }) w disk
stop-IsLinked stop control w disk l = record {
  synced = l.synced;
  revision = l.revision;
  source = l.source;
  settled = l.settled;
  analyzer = l.analyzer;
}

-- The control file, the watch in memory and the watch on disk are in step.
pub record Linked (control : ControlState) (w disk : WatchState) : Type 0 where
  pub known : Known control.configuration_revision control.configuration
  pub memory : IsLinked control w disk
  pub stored : IsLinked control disk disk

pub created-Linked : (w : WatchState) → w.configuration_revision ≡ 0 → Linked no_control w w
created-Linked w first =
    let l : IsLinked no_control w w = record {
      synced = tt;
      revision = omega (arith, first);
      source = refl;
      settled = λ e. refl;
      analyzer = λ clear spec. refl;
    } in
    record { known = tt; memory = l; stored = l }

pub apply_control-Linked :
    (interrupted : Bool) (now now' : ℕ) (control : ControlState) (w disk : WatchState)
    → Linked control w disk
    → Linked control (apply_control interrupted now now' control w) disk
apply_control-Linked interrupted now now' control w disk l = record {
  known = l.known;
  memory = apply_control-IsLinked interrupted now now' control w disk l.known l.memory;
  stored = l.stored;
}

pub worked-Linked :
    (control : ControlState) (w v disk : WatchState)
    → SameSettings w v
    → is_some v.analyzer ≡ is_some w.analyzer
    → Linked control w disk
    → Linked control v disk
worked-Linked control w v disk same analyzer l = record {
  known = l.known;
  memory = worked-IsLinked control w v disk same analyzer l.memory;
  stored = l.stored;
}

pub persisted-Linked :
    (control : ControlState) (w disk : WatchState) → Linked control w disk → Linked control w w
persisted-Linked control w disk l =
    let m = self-IsLinked control w disk l.memory in
    record { known = l.known; memory = m; stored = m }

pub read_back-Linked :
    (control : ControlState) (w disk : WatchState)
    → Linked control w disk
    → Linked control disk disk
read_back-Linked control w disk l = record { known = l.known; memory = l.stored; stored = l.stored }

pub stop-Linked :
    (stop : Bool) (control : ControlState) (w disk : WatchState)
    → Linked control w disk
    → Linked (record control { stop_requested = stop }) w disk
stop-Linked stop control w disk l = record {
  known = l.known;
  memory = stop-IsLinked stop control w disk l.memory;
  stored = stop-IsLinked stop control disk disk l.stored;
}
