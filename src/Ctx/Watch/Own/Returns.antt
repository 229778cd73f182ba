-- ===== src/Ctx/Watch/Own/Returns.antt =====
-- The loop of a watch's owner (`own` of tools/src/pira_ctx/watch/mod.rs) over its rounds: what it returns.
use pira.Common.{
  ℕ, ◌≤◌, ◌≡◌, refl, sym, subst, List, [], ◌∷◌, ◌++◌, All, Option, some, Text, Bytes, Result,
}
use pira.Ctx.Watch.View.{Vt100}
use pira.Ctx.Watch.State.{WatchState}
use pira.Ctx.Watch.Analyzer.{AnalyzerOutput}
use pira.Ctx.Watch.Own.{
  Round, Step, goes_on, returns, waits, own_round, Ending, after_round, own_loop,
}
use pira.Ctx.Watch.Own.Keeps.{fixed}
use pira.Ctx.Watch.Own.Progress.{
  Over, over, Ends, end_over, end_on, IsTimedRound, own_round-Ends, own_round-Over,
}
use pira.Ctx.Watch.Own.Ends.{Reported, Reports, own_round-Reports}

after_round-Reported :
    (next : WatchState → WatchState → Option Ending) (step : Step) (end : Ending)
    → ((w disk : WatchState) → next w disk ≡ some end → Reported end.0 end.1 end.2)
    → Reports step
    → after_round next step ≡ some end
    → Reported end.0 end.1 end.2
after_round-Reported next (goes_on w disk) end h k e = h w disk e
after_round-Reported next (returns result w disk) end h k e =
    subst (λ o. Reported o.0 o.1 o.2) (the_end e) k
  where
    the_end : some (result, w, disk) ≡ some end → (result, w, disk) ≡ end
    the_end e = cc
after_round-Reported next waits end h k e = absurd cc

after_round-Over :
    (next : WatchState → WatchState → Option Ending) (step : Step)
    → Over step
    → (end : Ending) × (after_round next step ≡ some end)
after_round-Over next _ (over result w disk) = ((result, w, disk), refl)

after_round-Ends :
    (time : ℕ × ℕ) (next : WatchState → WatchState → Option Ending) (step : Step)
    → ((w disk : WatchState) → fixed w ≡ time → (end : Ending) × (next w disk ≡ some end))
    → Ends time step
    → (end : Ending) × (after_round next step ≡ some end)
after_round-Ends time next step h (end_over o) = after_round-Over next step o
after_round-Ends time next _ h (end_on w disk e) = h w disk e

module _ (vt : Vt100) (from_slice : Bytes → Result Text AnalyzerOutput)
    (sha256 : Bytes → Bytes) where
  -- The loop of a watch returns: where the processes of each round are done when an attempt's time is
  -- up, and the sleep looks at the clock at the deadline or later, it returns at the latest in a round
  -- that begins at the deadline.
  pub own_loop-returns :
      (rounds : List Round) (last : Round) (review : Option ℕ) (w disk : WatchState)
      → All (IsTimedRound (fixed w)) rounds
      → w.deadline_ms ≤ last.now
      → (end : Ending) × (own_loop vt from_slice sha256 (rounds ++ last ∷ []) review w disk
          ≡ some end)
  unfolding own_loop
  own_loop-returns [] last review w disk timed late =
      after_round-Over (own_loop vt from_slice sha256 [] review)
        (own_round vt from_slice sha256 last review w disk)
        (own_round-Over vt from_slice sha256 last review w disk late)
  own_loop-returns (round ∷ rounds) last review w disk timed late =
      after_round-Ends (fixed w) (own_loop vt from_slice sha256 (rounds ++ last ∷ []) review)
        (own_round vt from_slice sha256 round review w disk)
        (λ w' disk' same.
          own_loop-returns rounds last review w' disk'
            (subst (λ t. All (IsTimedRound t) rounds) (sym same) timed.1)
            (subst (λ t. t.0 ≤ last.now) (sym same) late))
        (own_round-Ends vt from_slice sha256 round review w disk timed.0)

  -- A command that returns a code has written the state that it is the exit code of, which is that
  -- in memory, however the rounds of its loop go.
  pub own_loop-Reported :
      (rounds : List Round) (review : Option ℕ) (w disk : WatchState) (end : Ending)
      → own_loop vt from_slice sha256 rounds review w disk ≡ some end
      → Reported end.0 end.1 end.2
  unfolding own_loop
  own_loop-Reported [] review w disk end h = absurd cc
  own_loop-Reported (round ∷ rounds) review w disk end h =
      after_round-Reported (own_loop vt from_slice sha256 rounds review)
        (own_round vt from_slice sha256 round review w disk) end
        (λ w' disk'. own_loop-Reported rounds review w' disk' end)
        (own_round-Reports vt from_slice sha256 round review w disk) h
