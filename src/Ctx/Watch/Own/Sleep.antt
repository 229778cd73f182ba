-- ===== src/Ctx/Watch/Own/Sleep.antt =====
-- The sleep of a watch's owner (`sleep_controlled` of tools/src/pira_ctx/watch/mod.rs) ends in time, and
-- leaves the watch's own time as it is.
use pira.Common.{
  ℕ, ◌≤◌, Bool, true, false, ◌||◌, ◌≡◌, refl, subst, List, [], ◌∷◌, Option, some, ltb, leb, any,
  Text, Result, ok, err, Bool-cases, Result-cases, inl, inr, arith,
}
use pira.Ctx.Watch.State.{WatchState, is_stopped}
use pira.Ctx.Watch.Own.{Poll, take_control, sleep_controlled}
use pira.Ctx.Watch.Own.Keeps.{fixed, take_control-fixed}

-- The turns of a sleep reach a time.
abbrev pub IsAwake : ℕ → List Poll → Type 0
IsAwake time polls = any (λ poll. leb time poll.now) polls ≡ true

-- A sleep has ended.
pub data Slept (time : ℕ × ℕ) : Option (Result Text (Unit {0}) × WatchState) → Type 0 where
  slept_with :
      (result : Result Text (Unit {0})) (w : WatchState)
      → fixed w ≡ time
      → Slept time (some (result, w))

later_awake : (a b : Bool) → a || b ≡ true → a ≡ false → b ≡ true
later_awake true b h k = absurd cc
later_awake false b h k = h

before : (until time now : ℕ) → until ≤ time → ltb now until ≡ true → leb time now ≡ false
before until time now h k = ground arith

pub sleep_controlled-Slept :
    (polls : List Poll) (until time : ℕ) (w : WatchState)
    → until ≤ time
    → IsAwake time polls
    → Slept (fixed w) (sleep_controlled polls until w)
unfolding sleep_controlled
sleep_controlled-Slept [] until time w h k = absurd cc
sleep_controlled-Slept (poll ∷ polls) until time w h k = elim (Bool-cases (ltb poll.now until)) [
  | inl t ↦ elim (Result-cases (take_control poll.read w)) [
    | inl (why, e) ↦ simp (sleep_controlled, t, e) (slept_with (err why) w refl)
    | inr (w', e) ↦
        let same = take_control-fixed poll.read w w' e in
        elim (Bool-cases (is_stopped w'.monitor || ltb w'.next_sample_ms until)) [
          | inl t' ↦ simp (sleep_controlled, t, e, t') (slept_with (ok tt) w' same)
          | inr f' ↦
              simp (sleep_controlled, t, e, f')
                (subst (λ s. Slept s (sleep_controlled polls until w')) same
                  (sleep_controlled-Slept polls until time w' h
                    (later_awake _ _ k (before until time poll.now h t))))
        ]
  ]
  | inr f ↦ simp (sleep_controlled, f) (slept_with (ok tt) w refl)
]
