-- ===== src/Ctx/Watch/Control/Runnable.antt =====
-- An update that `update_controls` of tools/src/pira_ctx/watch/mod.rs queues leaves the watch such
-- that its owner can go on sampling. It reads the watch on disk, and the owner takes it up in memory.
use pira.Common.{
  ℕ, max, ◌≤◌, ◌<◌, ◌≡◌, refl, sym, ap, subst, ◌∙◌, Bool, true, false, not, ◌&&◌, ◌||◌, Option,
  none, some, ltb, if◌then◌else◌, Text, ok, reject, ◌>>◌, ok-injective, lt→ltb, Bool-cases, inl,
  inr, arith,
}
use pira.Ctx.Watch.Control.{
  validate_sampling_cost, apply_control, Config, configuration_update_requested, current,
  effective_analyzer, requested_no_progress, requested_sample_every, spec_of, queue_analyzer,
  queued_configuration, queue_configuration, updates_configuration, queue_update,
}
use pira.Ctx.Watch.Control.Settings.{
  Settings, settings, values, Synced, IsUpdate, has_analyzer, value_of, apply_control-Applied,
}
use pira.Ctx.Watch.State.{
  u64_max, saturating_add, is_some, is_probe, AnalyzerSpec, WatchState, WatchConfiguration,
  ControlState,
}

-- What the owner's loop asks of a watch before it samples.
pub record IsRunnable (w : WatchState) : Type 0 where
  pub measured : is_some w.no_progress_after_ms ≡ true → is_some w.analyzer ≡ true
  pub paced : (is_probe w.source_kind || is_some w.analyzer) ≡ true → 1_000 ≤ w.sample_every_ms

-- What the watch in memory and the watch on disk have in common.
pub record IsLinked (control : ControlState) (w disk : WatchState) : Type 0 where
  pub synced : Synced control.configuration w
  pub revision : w.configuration_revision ≤ control.configuration_revision
  pub source : w.source_kind ≡ disk.source_kind
  pub settled : control.configuration ≡ none → settings w ≡ settings disk
  pub analyzer :
      control.clear_analyzer ≡ false
      → control.analyzer ≡ none
      → is_some w.analyzer ≡ is_some disk.analyzer

-- The revision of an update is new.
pub new_revision : (a b x : ℕ) → x ≤ a → a < u64_max → x < saturating_add u64_max (max a b) 1
new_revision a b x h k = omega arith

-- Clearing the analyzer drops the interval that needs one.
kept_interval :
    (clear set : Bool) (new old : Option ℕ)
    → is_some (if clear then none else if set then new else old) ≡ true
    → is_some (if clear then (if set then new else none) else if set then new else old) ≡ true
kept_interval true set new old h = absurd cc
kept_interval false set new old h = h

two_rejects {ℓ} :
    {A : Type ℓ} (a b : Bool) (e f : Text) (x : A) {y : A}
    → (reject a e >> (reject b f >> ok x)) ≡ ok y
    → (a ≡ false) × (b ≡ false) × (x ≡ y)
two_rejects true b e f x h = absurd cc
two_rejects false true e f x h = absurd cc
two_rejects false false e f x h = (refl, refl, ok-injective h)

and_not : (a b : Bool) → (a && not b) ≡ false → a ≡ true → b ≡ true
and_not a b h k = ground arith

and_ltb : (a : Bool) (n : ℕ) → (a && ltb n 1_000) ≡ false → a ≡ true → 1_000 ≤ n
and_ltb a n h k = ground arith

either_same {ℓ} : {A : Type ℓ} (b : Bool) (x y : A) → x ≡ y → (if b then x else y) ≡ x
either_same true x y e = refl
either_same false x y e = sym e

-- A configuration that stays in the control file has the values that the update starts from.
kept_values :
    (c : Option WatchConfiguration) (w disk : WatchState)
    → Synced c w
    → (c ≡ none → settings w ≡ settings disk)
    → value_of c w (settings w) values ≡ current c (settings disk) values
kept_values none w disk s h = h refl
kept_values (some c) w disk (inl newer) h = rw (lt→ltb _ _ newer) refl
kept_values (some c) w disk (inr (e, kept)) h =
    either_same (ltb w.configuration_revision c.revision) (values c) (settings w) kept

abbrev every : Settings → ℕ
every (a, b, c, d, e) = a

abbrev no_progress : Settings → Option ℕ
no_progress (a, b, c, d, e) = d

no_progress-current :
    (c : Option WatchConfiguration) (w : WatchState)
    → no_progress (current c (settings w) values)
      ≡ current c w.no_progress_after_ms (λ c. c.no_progress_after_ms)
no_progress-current none w = refl
no_progress-current (some c) w = refl

every-current :
    (c : Option WatchConfiguration) (w : WatchState)
    → every (current c (settings w) values) ≡ current c w.sample_every_ms (λ c. c.sample_every_ms)
every-current none w = refl
every-current (some c) w = refl

same_left :
    (clear : Bool) (spec : Option AnalyzerSpec) (a b : Bool)
    → (clear ≡ false → spec ≡ none → a ≡ b)
    → (if clear then is_some spec else is_some spec || a)
      ≡ (if clear then is_some spec else is_some spec || b)
same_left true spec a b h = refl
same_left false none a b h = h refl refl
same_left false (some spec) a b h = refl

module _ (config : Config) (disk : WatchState) (au : Bool) (hash : Option Text) where
  -- What `queue_update` leaves in the control file if it succeeds.
  pub record Queued (control control' : ControlState) : Type 0 where
    pub measured :
        is_some (requested_no_progress config disk au hash control) ≡ true
        → effective_analyzer config disk au hash control ≡ true
    pub paced :
        (is_probe disk.source_kind || effective_analyzer config disk au hash control) ≡ true
        → 1_000 ≤ requested_sample_every config disk au hash control
    pub result : control' ≡ (
        if updates_configuration config disk au hash
        then queue_configuration config disk au hash (queue_analyzer config disk au hash control)
        else queue_analyzer config disk au hash control)

  pub queue_update-Queued :
      (control control' : ControlState)
      → queue_update config disk au hash control ≡ ok control'
      → Queued control control'
  unfolding queue_update validate_sampling_cost
  queue_update-Queued control control' e =
      let parts = two_rejects _ _ _ _ _ e in
      record { measured = and_not _ _ parts.0; paced = and_ltb _ _ parts.1; result = sym parts.2 }

  spec_of_some :
      (revision : ℕ) (rest : Bool) (h : Option Text)
      → is_some h ≡ true
      → (is_some (spec_of config disk au hash revision h) || rest) ≡ true
  spec_of_some revision rest none e = absurd cc
  spec_of_some revision rest (some x) e = refl

  effective_lem :
      (control : ControlState) (w : WatchState)
      → IsUpdate config au hash
      → IsLinked control w disk
      → has_analyzer (queue_analyzer config disk au hash control) w
        ≡ effective_analyzer config disk au hash control
  unfolding queue_analyzer effective_analyzer
  effective_lem control w u l = elim (Bool-cases au) [
    | inr keeps ↦ rw keeps (same_left control.clear_analyzer control.analyzer _ _ l.analyzer)
    | inl updates ↦ elim (Bool-cases config.watch_clear_analyzer) [
      | inl clears ↦ simp (updates, clears, (u.clears clears).1)
      | inr sets ↦ simp (updates, sets) (spec_of_some _ _ hash (u.sets updates sets))
    ]
  ]

  not_updated :
      IsUpdate config au hash
      → updates_configuration config disk au hash ≡ false
      → (config.watch_clear_analyzer ≡ false)
        × (config.watch_no_progress_after_set ≡ false)
        × (config.watch_sample_every_set ≡ false)
  unfolding updates_configuration configuration_update_requested
  not_updated u e = elim (Bool-cases config.watch_clear_analyzer) [
    | inl clears ↦ let updates = (u.clears clears).0 in absurd (ground arith)
    | inr keeps ↦ (keeps, ground arith, ground arith)
  ]

  -- The settings of the watch in memory after the update are those that it was checked for.
  record Settled (control control' : ControlState) (w : WatchState) : Type 0 where
    measured :
        is_some (no_progress (value_of control'.configuration w (settings w) values)) ≡ true
        → is_some (requested_no_progress config disk au hash control) ≡ true
    paced :
        every (value_of control'.configuration w (settings w) values)
        ≡ requested_sample_every config disk au hash control

  pub queue_analyzer_configuration :
      (control : ControlState)
      → (queue_analyzer config disk au hash control).configuration ≡ control.configuration
  unfolding queue_analyzer
  queue_analyzer_configuration control = ground arith

  pub queue_analyzer_revision :
      (control : ControlState)
      → (queue_analyzer config disk au hash control).configuration_revision
        ≡ control.configuration_revision
  unfolding queue_analyzer
  queue_analyzer_revision control = ground arith

  kept-Settled :
      (control : ControlState) (w : WatchState)
      → IsUpdate config au hash
      → IsLinked control w disk
      → updates_configuration config disk au hash ≡ false
      → Settled control (queue_analyzer config disk au hash control) w
  unfolding requested_no_progress requested_sample_every
  kept-Settled control w u l e =
      let unset = not_updated u e in
      let kept =
        ap (λ c. value_of c w (settings w) values) (queue_analyzer_configuration control)
        ∙ kept_values control.configuration w disk l.synced l.settled in
      let measured = ap no_progress kept ∙ no_progress-current control.configuration disk in
      let paced = ap every kept ∙ every-current control.configuration disk in
      record {
        measured = λ h. rw (unset.0, unset.1) (sym (ap is_some measured) ∙ h);
        paced = simp (unset.2) paced;
      }

  updated-Settled :
      (control : ControlState) (w : WatchState)
      → control.configuration_revision < u64_max
      → IsLinked control w disk
      → Settled control
          (queue_configuration config disk au hash (queue_analyzer config disk au hash control))
          w
  unfolding requested_no_progress requested_sample_every queue_configuration queued_configuration
  updated-Settled control w h l =
      let fresh =
        new_revision control.configuration_revision disk.configuration_revision
          w.configuration_revision l.revision h in
      let newer = lt→ltb _ _ fresh in
      record {
        measured = λ p.
            kept_interval config.watch_clear_analyzer config.watch_no_progress_after_set _ _ (
              rw (queue_analyzer_revision control, newer, queue_analyzer_configuration control) at
                p);
        paced =
            rw (queue_analyzer_revision control, newer, queue_analyzer_configuration control) refl;
      }

  update-Settled :
      (control control' : ControlState) (w : WatchState)
      → IsUpdate config au hash
      → IsLinked control w disk
      → control.configuration_revision < u64_max
      → Queued control control'
      → Settled control control' w
  update-Settled control control' w u l h q =
      elim (Bool-cases (updates_configuration config disk au hash)) [
        | inl t ↦
            subst (λ c. Settled control c w) (sym (q.result ∙ (rw t refl)))
              (updated-Settled control w h l)
        | inr t ↦
            subst (λ c. Settled control c w) (sym (q.result ∙ (rw t refl)))
              (kept-Settled control w u l t)
      ]

  -- The analyzer is that of the update, whatever it does to the configuration.
  update_analyzer :
      (control control' : ControlState) (w : WatchState)
      → IsUpdate config au hash
      → IsLinked control w disk
      → Queued control control'
      → has_analyzer control' w ≡ effective_analyzer config disk au hash control
  unfolding queue_configuration
  update_analyzer control control' w u l q =
      elim (Bool-cases (updates_configuration config disk au hash)) [
        | inl t ↦ rw (q.result, t) (effective_lem control w u l)
        | inr t ↦ rw (q.result, t) (effective_lem control w u l)
      ]

  -- An accepted update, of a control file that is in step.
  pub queue_update-IsRunnable :
      (interrupted : Bool) (now now' : ℕ) (control control' : ControlState) (w : WatchState)
      → IsUpdate config au hash
      → IsLinked control w disk
      → control.configuration_revision < u64_max
      → queue_update config disk au hash control ≡ ok control'
      → IsRunnable (apply_control interrupted now now' control' w)
  queue_update-IsRunnable interrupted now now' control control' w u l h e =
      let q = queue_update-Queued control control' e in
      let settled = update-Settled control control' w u l h q in
      let applied = apply_control-Applied interrupted now now' control' w in
      let analyzer = applied.analyzer ∙ update_analyzer control control' w u l q in
      let measured = ap (λ s. is_some (no_progress s)) applied.settled in
      let source = applied.source ∙ l.source in
      record {
        measured = λ p. analyzer ∙ q.measured (settled.measured (sym measured ∙ p));
        paced = λ p.
            let enough = q.paced (rw (source, analyzer) at p) in
            subst (λ n. 1_000 ≤ n) (sym (ap every applied.settled ∙ settled.paced)) enough;
      }
