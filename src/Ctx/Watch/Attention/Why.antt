-- ===== src/Ctx/Watch/Attention/Why.antt =====
-- Why a watch asks for attention (tools/src/pira_ctx/watch/mod.rs), and how often.
use pira.Common.{
  ℕ, ◌+◌, ◌-◌, min, ◌≤◌, ◌<◌, ◌≡◌, ◌≢◌, refl, sym, ap, ◌∙◌, subst, Bool, true, false, not, ◌&&◌,
  ◌||◌, Option, none, some, leb→le, list_eq_refl, list_eq_iff, if◌then◌else◌, Text, Bool-cases, inl,
  inr, arith,
}
use pira.Ctx.Watch.State.{u64_max, u128_max, saturating_add, is_some, unwrap_or, WatchState}
use pira.Ctx.Watch.Attention.{
  remaining_ms, incomplete_inactivity, unreliable_output, incomplete_output, no_raw_activity,
  unchanged_output, unchanged_progress, is_past, same_reason, observed_reason, update_attention,
}

-- The claims that each reason makes of the watch.
abbrev pub IsPast : ℕ → ℕ → Option ℕ → Option ℕ → Type 0
IsPast now created last limit = (n : ℕ) × (limit ≡ some n) × (n ≤ now - unwrap_or last created)

pub data Why (w : WatchState) (now : ℕ) (complete : Bool) : Text → Type 0 where
  not_complete_inactivity : complete ≡ false → Why w now complete incomplete_inactivity
  not_reliable : w.rendered_reliable ≡ false → Why w now complete unreliable_output
  not_complete : complete ≡ false → Why w now complete incomplete_output
  inactive :
      complete ≡ true
      → w.rendered_reliable ≡ true
      → IsPast now w.created_ms w.last_activity_ms w.inactive_after_ms
      → Why w now complete no_raw_activity
  unchanged :
      complete ≡ true
      → w.rendered_reliable ≡ true
      → IsPast now w.created_ms w.last_visible_change_ms w.unchanged_after_ms
      → Why w now complete unchanged_output
  no_progress :
      complete ≡ true
      → w.rendered_reliable ≡ true
      → IsPast now w.created_ms w.last_progress_ms w.no_progress_after_ms
      → Why w now complete unchanged_progress

is_past-IsPast :
    (now created : ℕ) (last limit : Option ℕ)
    → is_past now created last limit ≡ true
    → IsPast now created last limit
is_past-IsPast now created last none h = cc
is_past-IsPast now created last (some n) h = (n, refl, leb→le n (now - unwrap_or last created) h)

answer : {a b : Text} → ◌≡◌ {A = Option Text} (some a) (some b) → a ≡ b
answer h = cc

-- Each answer of a chain of tests holds, one behind the third if the second and third tests have
-- failed.
chain :
    (P : Text → Type 0) (a b c d e f : Bool) (u v x y z t : Text) {reason : Text}
    → (if a
        then some u
        else if b
        then some v
        else if c
        then some x
        else if d
        then some y
        else if e
        then some z
        else if f
        then some t
        else none)
      ≡ some reason
    → (a ≡ true → P u)
    → (b ≡ true → P v)
    → (c ≡ true → P x)
    → (b ≡ false → c ≡ false → d ≡ true → P y)
    → (b ≡ false → c ≡ false → e ≡ true → P z)
    → (b ≡ false → c ≡ false → f ≡ true → P t)
    → P reason
chain P true b c d e f u v x y z t h k l m n o p = subst P (answer h) (k refl)
chain P false true c d e f u v x y z t h k l m n o p = subst P (answer h) (l refl)
chain P false false true d e f u v x y z t h k l m n o p = subst P (answer h) (m refl)
chain P false false false true e f u v x y z t h k l m n o p = subst P (answer h) (n refl refl refl)
chain P false false false false true f u v x y z t h k l m n o p =
    subst P (answer h) (o refl refl refl)
chain P false false false false false true u v x y z t h k l m n o p =
    subst P (answer h) (p refl refl refl)
chain P false false false false false false u v x y z t h k l m n o p = absurd cc

not-true : {b : Bool} → not b ≡ true → b ≡ false
not-true {b} h = ground arith

not-false : {b : Bool} → not b ≡ false → b ≡ true
not-false {b} h = ground arith

and-true_first : {b : Bool} (c : Bool) → not b && c ≡ true → b ≡ false
and-true_first {b} c h = ground arith

-- A reason that a watch gives of itself holds of it: an inactive or unchanged watch has been observed
-- completely and reliably, and for as long as its limit.
pub observed_reason-Why :
    (w : WatchState) (now : ℕ) (complete : Bool) (reason : Text)
    → observed_reason w now complete ≡ some reason
    → Why w now complete reason
unfolding observed_reason
observed_reason-Why w now complete reason h =
    chain (Why w now complete)
      (not complete && (is_some w.inactive_after_ms || is_some w.no_progress_after_ms))
      (not w.rendered_reliable) (not complete)
      (is_past now w.created_ms w.last_activity_ms w.inactive_after_ms)
      (is_past now w.created_ms w.last_visible_change_ms w.unchanged_after_ms)
      (is_past now w.created_ms w.last_progress_ms w.no_progress_after_ms) _ _ _ _ _ _ h
      (λ t. not_complete_inactivity (and-true_first _ t)) (λ t. not_reliable (not-true t))
      (λ t. not_complete (not-true t))
      (λ r c t.
        inactive (not-false c) (not-false r)
          (is_past-IsPast now w.created_ms w.last_activity_ms w.inactive_after_ms t))
      (λ r c t.
        unchanged (not-false c) (not-false r)
          (is_past-IsPast now w.created_ms w.last_visible_change_ms w.unchanged_after_ms t))
      (λ r c t.
        no_progress (not-false c) (not-false r)
          (is_past-IsPast now w.created_ms w.last_progress_ms w.no_progress_after_ms t))

same_reason_refl : (r : Option Text) → same_reason r r ≡ true
same_reason_refl none = refl
same_reason_refl (some reason) = list_eq_refl reason

same_reason-eq : (a b : Option Text) → same_reason a b ≡ true → a ≡ b
same_reason-eq none none h = refl
same_reason-eq none (some b) h = absurd cc
same_reason-eq (some a) none h = absurd cc
same_reason-eq (some a) (some b) h = ap some ((list_eq_iff a b).0 h)

update_attention-same :
    (w : WatchState) (reason : Option Text)
    → same_reason w.attention_reason reason ≡ true
    → update_attention w reason ≡ (w, false)
unfolding update_attention
update_attention-same w reason same = simp (same)

-- What an update is: it keeps its reason, asks for attention for a reason that is not the watch's and
-- for nothing else, and counts what it asks for.
pub record IsUpdated (w : WatchState) (reason : Option Text) (after : WatchState × Bool)
    : Type 0 where
  pub kept : after.0.attention_reason ≡ reason
  pub raised : is_some reason ≡ true → w.attention_reason ≢ reason → after.1 ≡ true
  pub only : after.1 ≡ true → (is_some reason ≡ true) × (w.attention_reason ≢ reason)
  pub counted :
      after.0.attention_sequence
      ≡ (if after.1 then saturating_add u64_max w.attention_sequence 1 else w.attention_sequence)

differs : (a b : Option Text) → same_reason a b ≡ false → a ≢ b
differs a b new e =
    false_is_true (sym new ∙ subst (λ r. same_reason a r ≡ true) e (same_reason_refl a))
  where
    false_is_true : false ≡ true → ⊥
    false_is_true h = cc

update_attention-new :
    (w : WatchState) (reason : Option Text)
    → same_reason w.attention_reason reason ≡ false
    → IsUpdated w reason (update_attention w reason)
unfolding update_attention
update_attention-new w none new =
    simp (new)
      (record { kept = refl; raised = λ h. absurd cc; only = λ h. absurd cc; counted = refl })
update_attention-new w (some reason) new = simp (new) (record {
  kept = refl;
  raised = λ h k. refl;
  only = λ h. (refl, differs w.attention_reason (some reason) new);
  counted = refl;
})

update_attention-IsUpdated :
    (w : WatchState) (reason : Option Text) → IsUpdated w reason (update_attention w reason)
update_attention-IsUpdated w reason = elim (Bool-cases (same_reason w.attention_reason reason)) [
  | inl same ↦
      let kept = same_reason-eq w.attention_reason reason same in
      subst (IsUpdated w reason) (sym (update_attention-same w reason same)) (record {
        kept = kept;
        raised = λ h k. absurd (k kept);
        only = λ h. absurd cc;
        counted = refl;
      })
  | inr new ↦ update_attention-new w reason new
]

-- An update keeps its reason, and asks for attention if and only if it has one and it is not the
-- watch's; then the sequence number grows by one, up to the largest, and it stays otherwise. A second
-- update for the same reason asks for no attention and changes nothing.
pub update_attention-once :
    (w : WatchState) (reason : Option Text)
    → (let after = update_attention w reason in
        IsUpdated w reason after × (update_attention after.0 reason ≡ (after.0, false)))
update_attention-once w reason =
    let after = update_attention w reason in
    let updated = update_attention-IsUpdated w reason in
    let same : same_reason after.0.attention_reason reason ≡ true =
      subst (λ r. same_reason r reason ≡ true) (sym updated.kept) (same_reason_refl reason) in
    (updated, update_attention-same after.0 reason same)

-- An attempt's time is at least 1 ms and at most the configured one, and it does not last beyond the
-- deadline or the review while that is ahead.
pub remaining_ms-bounds :
    (now deadline : ℕ) (review : Option ℕ) (configured : ℕ)
    → 1 ≤ configured
    → (let boundary = min deadline (unwrap_or review u128_max) in
        (1 ≤ remaining_ms now deadline review configured)
        × (remaining_ms now deadline review configured ≤ configured)
        × (now < boundary → now + remaining_ms now deadline review configured ≤ boundary))
unfolding remaining_ms
remaining_ms-bounds now deadline review configured h =
    (omega arith, omega arith, λ ahead. omega arith)
