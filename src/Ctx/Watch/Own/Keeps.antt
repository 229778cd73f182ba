-- ===== src/Ctx/Watch/Own/Keeps.antt =====
-- What the rounds of a watch's owner (tools/src/pira_ctx/watch/mod.rs) leave as it is: the deadline and
-- the time of an attempt.
use pira.Common.{
  ℕ, Bool, ◌||◌, ◌≡◌, refl, sym, ap, ◌∙◌, Option, none, some, ltb, Text, Result, ok, err,
  ok-injective, Bool-cases, Result-cases, inl, inr,
}
use pira.Ctx.Watch.State.{is_some, AnalyzerSpec, WatchState, WatchConfiguration, ControlState}
use pira.Ctx.Watch.Control.{
  apply_stop, apply_clear, is_newer, apply_analyzer, apply_configuration, apply_control,
}
use pira.Ctx.Watch.Attention.{observed_reason, same_reason, update_attention, evaluate_attention}
use pira.Ctx.Watch.Own.{Read, take_control}

abbrev pub fixed : WatchState → ℕ × ℕ
fixed w = (w.deadline_ms, w.attempt_timeout_ms)

pub err_not_ok {ℓ} :
    {A : Type ℓ} {why : Text} {a : A} → ◌≡◌ {A = Result Text A} (err why) (ok a) → ⊥
err_not_ok h = cc

apply_stop-fixed :
    (i : Bool) (c : ControlState) (w : WatchState) → fixed (apply_stop i c w) ≡ fixed w
unfolding apply_stop
apply_stop-fixed i c w = elim (Bool-cases (c.stop_requested || i)) [
  | inl t ↦ simp (t) refl
  | inr f ↦ simp (f) refl
]

apply_clear-fixed : (c : ControlState) (w : WatchState) → fixed (apply_clear c w) ≡ fixed w
unfolding apply_clear
apply_clear-fixed c w = elim (Bool-cases c.clear_analyzer) [
  | inl t ↦ simp (t) refl
  | inr f ↦ simp (f) refl
]

apply_analyzer-fixed :
    (now : ℕ) (a : Option AnalyzerSpec) (w : WatchState) → fixed (apply_analyzer now a w) ≡ fixed w
unfolding apply_analyzer
apply_analyzer-fixed now none w = refl
apply_analyzer-fixed now (some spec) w = elim (Bool-cases (is_newer spec w.analyzer)) [
  | inl t ↦ simp (t) refl
  | inr f ↦ simp (f) refl
]

apply_configuration-fixed :
    (now : ℕ) (c : Option WatchConfiguration) (w : WatchState)
    → fixed (apply_configuration now c w) ≡ fixed w
unfolding apply_configuration
apply_configuration-fixed now none w = refl
apply_configuration-fixed now (some c) w =
    elim (Bool-cases (ltb w.configuration_revision c.revision)) [
      | inl t ↦ simp (t) refl
      | inr f ↦ simp (f) refl
    ]

apply_control-fixed :
    (i : Bool) (now now' : ℕ) (c : ControlState) (w : WatchState)
    → fixed (apply_control i now now' c w) ≡ fixed w
unfolding apply_control
apply_control-fixed i now now' c w =
    apply_configuration-fixed now' c.configuration _
    ∙ (apply_analyzer-fixed now c.analyzer _ ∙ (apply_clear-fixed c _ ∙ apply_stop-fixed i c w))

take_control-err :
    (read : Read) (w : WatchState) (why : Text)
    → read.control ≡ err why
    → take_control read w ≡ err why
unfolding take_control
take_control-err read w why e = simp (take_control, e) refl

take_control-ok :
    (read : Read) (w : WatchState) (control : ControlState)
    → read.control ≡ ok control
    → take_control read w
      ≡ ok (apply_control read.interrupted read.analyzer_ms read.configuration_ms control w)
unfolding take_control
take_control-ok read w control e = simp (take_control, e) refl

pub take_control-fixed :
    (read : Read) (w w' : WatchState) → take_control read w ≡ ok w' → fixed w' ≡ fixed w
take_control-fixed read w w' h = elim (Result-cases read.control) [
  | inl (why, e) ↦ absurd (err_not_ok (sym (take_control-err read w why e) ∙ h))
  | inr (control, e) ↦
      ap fixed (sym (ok-injective (sym (take_control-ok read w control e) ∙ h)))
      ∙ apply_control-fixed read.interrupted read.analyzer_ms read.configuration_ms control w
]

update_attention-fixed :
    (w : WatchState) (reason : Option Text) → fixed (update_attention w reason).0 ≡ fixed w
unfolding update_attention
update_attention-fixed w reason = elim (Bool-cases (same_reason w.attention_reason reason)) [
  | inl t ↦ simp (t) refl
  | inr f ↦ elim (Bool-cases (is_some reason)) [
    | inl t ↦ simp (f, t) refl
    | inr f' ↦ simp (f, f') refl
  ]
]

pub evaluate_attention-fixed :
    (w : WatchState) (now : ℕ) (reason : Option Text) (complete : Bool)
    → fixed (evaluate_attention w now reason complete).0 ≡ fixed w
unfolding evaluate_attention
evaluate_attention-fixed w now none complete =
    update_attention-fixed w (observed_reason w now complete)
evaluate_attention-fixed w now (some reason) complete = update_attention-fixed w (some reason)
