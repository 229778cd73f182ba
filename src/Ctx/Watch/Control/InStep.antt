-- ===== src/Ctx/Watch/Control/InStep.antt =====
-- The control file and the watch stay in step, whatever updates are queued and taken up
-- (tools/src/pira_ctx/watch/mod.rs).
use pira.Common.{ℕ, ◌<◌, ◌≡◌, Bool, Option, Text, ok}
use pira.Ctx.Watch.Control.{Config, apply_control, queue_update}
use pira.Ctx.Watch.Control.Settings.{Synced, SameSettings, IsUpdate}
use pira.Ctx.Watch.Control.Runnable.{queue_update-Queued, IsRunnable, queue_update-IsRunnable}
use pira.Ctx.Watch.Control.Linked.{
  Linked, created-Linked, apply_control-Linked, worked-Linked, persisted-Linked, read_back-Linked,
  stop-Linked,
}
use pira.Ctx.Watch.Control.Updated.{queue_update-Linked}
use pira.Ctx.Watch.State.{u64_max, is_some, WatchState, ControlState, no_control}

-- A control file, the watch in its owner's memory and the watch on disk, from the creation of the
-- watch on. An update is made for the watch on disk.
pub data Reached : ControlState → WatchState → WatchState → Type 0 where
  created : (w : WatchState) → w.configuration_revision ≡ 0 → Reached no_control w w
  queued :
      {control control' : ControlState} {w disk : WatchState} (config : Config) (au : Bool)
      (hash : Option Text)
      → Reached control w disk
      → IsUpdate config au hash
      → control.configuration_revision < u64_max
      → queue_update config disk au hash control ≡ ok control'
      → Reached control' w disk
  -- The owner takes the control file up in memory.
  taken_up :
      {control : ControlState} {w disk : WatchState} (interrupted : Bool) (now now' : ℕ)
      → Reached control w disk
      → Reached control (apply_control interrupted now now' control w) disk
  -- It works on, and leaves the settings and the analyzer as they are.
  worked :
      {control : ControlState} {w v disk : WatchState}
      → Reached control w disk
      → SameSettings w v
      → is_some v.analyzer ≡ is_some w.analyzer
      → Reached control v disk
  -- It writes the watch, or it is gone and another owner reads it.
  persisted :
      {control : ControlState} {w disk : WatchState} → Reached control w disk → Reached control w w
  read_back :
      {control : ControlState} {w disk : WatchState}
      → Reached control w disk
      → Reached control disk disk
  -- A stop is asked for, or the request is taken back.
  stop_written :
      {control : ControlState} {w disk : WatchState} (stop : Bool)
      → Reached control w disk
      → Reached (record control { stop_requested = stop }) w disk

Reached-Linked :
    {control : ControlState} {w disk : WatchState} → Reached control w disk → Linked control w disk
Reached-Linked (created w first) = created-Linked w first
Reached-Linked (queued {control} {control'} {w} {disk} config au hash r u h e) =
    queue_update-Linked config disk au hash control control' w u h
      (queue_update-Queued config disk au hash control control' e) (Reached-Linked r)
Reached-Linked (taken_up {control} {w} {disk} interrupted now now' r) =
    apply_control-Linked interrupted now now' control w disk (Reached-Linked r)
Reached-Linked (worked {control} {w} {v} {disk} r same analyzer) =
    worked-Linked control w v disk same analyzer (Reached-Linked r)
Reached-Linked (persisted {control} {w} {disk} r) =
    persisted-Linked control w disk (Reached-Linked r)
Reached-Linked (read_back {control} {w} {disk} r) =
    read_back-Linked control w disk (Reached-Linked r)
Reached-Linked (stop_written {control} {w} {disk} stop r) =
    stop-Linked stop control w disk (Reached-Linked r)

-- A configuration that stands in the control file has a later revision than the watch, or its
-- revision and its five settings are those of the watch. That holds of the watch in memory and of the
-- watch on disk, in every order of the steps of `Reached`.
pub Reached-Synced :
    {control : ControlState} {w disk : WatchState}
    → Reached control w disk
    → Synced control.configuration w × Synced control.configuration disk
Reached-Synced r = let l = Reached-Linked r in (l.memory.synced, l.stored.synced)

-- If an update is accepted for the watch on disk after any steps of `Reached`, then the watch in memory
-- can be sampled once its owner has taken the update up: an interval without progress has an analyzer,
-- and a watch that runs processes has an interval of a second or more. The revision in the control file
-- is to be below the largest.
pub taken_up-IsRunnable :
    (config : Config) (au : Bool) (hash : Option Text) (interrupted : Bool) (now now' : ℕ)
    (control control' : ControlState) (w disk : WatchState)
    → IsUpdate config au hash
    → Reached control w disk
    → control.configuration_revision < u64_max
    → queue_update config disk au hash control ≡ ok control'
    → IsRunnable (apply_control interrupted now now' control' w)
taken_up-IsRunnable config au hash interrupted now now' control control' w disk u r h e =
    queue_update-IsRunnable config disk au hash interrupted now now' control control' w u
      (Reached-Linked r).memory h e
