-- ===== src/Ctx/Watch/Control/Updated.antt =====
-- An update that is queued (`update_controls` of tools/src/pira_ctx/watch/mod.rs) leaves the control file
-- and the watch in step.
use pira.Common.{
  ℕ, max, ◌≤◌, ◌<◌, ◌≡◌, ◌≢◌, refl, sym, subst, ◌∙◌, Bool, true, false, Option, none, some, Text,
  Bool-cases, inl, inr, arith,
}
use pira.Ctx.Watch.Control.{
  Config, queue_analyzer, queued_configuration, queue_configuration, updates_configuration, spec_of,
}
use pira.Ctx.Watch.Control.Settings.{Synced, IsUpdate}
use pira.Ctx.Watch.Control.Runnable.{
  IsLinked, new_revision, Queued, queue_analyzer_configuration, queue_analyzer_revision,
}
use pira.Ctx.Watch.State.{u64_max, saturating_add, is_some, WatchState, ControlState}
use pira.Ctx.Watch.Control.Linked.{Known, Linked}

module _ (config : Config) (disk : WatchState) (au : Bool) (hash : Option Text) where
  set_some :
      (revision : ℕ) (h : Option Text)
      → is_some h ≡ true
      → spec_of config disk au hash revision h ≢ none
  set_some revision none e k = absurd cc
  set_some revision (some x) e k = absurd cc

  -- An update that leaves no analyzer in the control file has cleared it or left it alone.
  queue_analyzer_link :
      (control : ControlState) (w : WatchState)
      → IsUpdate config au hash
      → IsLinked control w disk
      → (queue_analyzer config disk au hash control).clear_analyzer ≡ false
      → (queue_analyzer config disk au hash control).analyzer ≡ none
      → is_some w.analyzer ≡ is_some disk.analyzer
  unfolding queue_analyzer
  queue_analyzer_link control w u l = elim (Bool-cases au) [
    | inr keeps ↦ rw keeps l.analyzer
    | inl updates ↦ rw updates (λ keeps left. absurd (set_some _ hash (u.sets updates keeps) left))
  ]

  kept-IsLinked :
      (control : ControlState) (w : WatchState)
      → IsUpdate config au hash
      → IsLinked control w disk
      → IsLinked (queue_analyzer config disk au hash control) w disk
  kept-IsLinked control w u l =
      let before = queue_analyzer_configuration config disk au hash control in
      let revision = queue_analyzer_revision config disk au hash control in
      record {
        synced = subst (λ c. Synced c w) (sym before) l.synced;
        revision = subst (λ n. w.configuration_revision ≤ n) (sym revision) l.revision;
        source = l.source;
        settled = λ e. l.settled (sym before ∙ e);
        analyzer = queue_analyzer_link control w u l;
      }

  -- The revision of the update is later than that of a linked watch.
  fresh_revision :
      (control : ControlState) (w : WatchState)
      → control.configuration_revision < u64_max
      → IsLinked control w disk
      → w.configuration_revision
        < saturating_add u64_max
            (max
              (queue_analyzer config disk au hash control).configuration_revision
              disk.configuration_revision)
            1
  fresh_revision control w h l = rw (queue_analyzer_revision config disk au hash control) (
      new_revision control.configuration_revision disk.configuration_revision
        w.configuration_revision l.revision h)

  lt_le : (a b : ℕ) → a < b → a ≤ b
  lt_le a b h = omega arith

  updated-IsLinked :
      (control : ControlState) (w : WatchState)
      → IsUpdate config au hash
      → control.configuration_revision < u64_max
      → IsLinked control w disk
      → IsLinked
          (queue_configuration config disk au hash (queue_analyzer config disk au hash control))
          w
          disk
  unfolding queue_configuration queued_configuration
  updated-IsLinked control w u h l =
      let kept = kept-IsLinked control w u l in
      let fresh = fresh_revision control w h l in
      record {
        synced = inl fresh;
        revision = lt_le _ _ fresh;
        source = l.source;
        settled = λ e. absurd cc;
        analyzer = kept.analyzer;
      }

  le_refl : (n : ℕ) → n ≤ n
  le_refl n = omega arith

  updated-Linked :
      (control : ControlState) (w : WatchState)
      → IsUpdate config au hash
      → control.configuration_revision < u64_max
      → Linked control w disk
      → Linked
          (queue_configuration config disk au hash (queue_analyzer config disk au hash control))
          w
          disk
  unfolding queue_configuration queued_configuration
  updated-Linked control w u h l = record {
    known = le_refl _;
    memory = updated-IsLinked control w u h l.memory;
    stored = updated-IsLinked control disk u h l.stored;
  }

  kept-Linked :
      (control : ControlState) (w : WatchState)
      → IsUpdate config au hash
      → Linked control w disk
      → Linked (queue_analyzer config disk au hash control) w disk
  kept-Linked control w u l =
      let before = queue_analyzer_configuration config disk au hash control in
      let revision = queue_analyzer_revision config disk au hash control in
      record {
        known =
            subst (λ n. Known n (queue_analyzer config disk au hash control).configuration)
              (sym revision) (subst (Known control.configuration_revision) (sym before) l.known);
        memory = kept-IsLinked control w u l.memory;
        stored = kept-IsLinked control disk u l.stored;
      }

  pub queue_update-Linked :
      (control control' : ControlState) (w : WatchState)
      → IsUpdate config au hash
      → control.configuration_revision < u64_max
      → Queued config disk au hash control control'
      → Linked control w disk
      → Linked control' w disk
  queue_update-Linked control control' w u h q l =
      elim (Bool-cases (updates_configuration config disk au hash)) [
        | inl t ↦
            subst (λ c. Linked c w disk) (sym (q.result ∙ (rw t refl)))
              (updated-Linked control w u h l)
        | inr t ↦
            subst (λ c. Linked c w disk) (sym (q.result ∙ (rw t refl))) (kept-Linked control w u l)
      ]
