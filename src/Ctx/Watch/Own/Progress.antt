-- ===== src/Ctx/Watch/Own/Progress.antt =====
-- A round of a watch's owner (`own` of tools/src/pira_ctx/watch/mod.rs) comes to an end, in its process's
-- time, and leaves the time of the watch.
use pira.Common.{
  ℕ, min, ◌≤◌, Bool, true, false, not, ◌&&◌, ◌≡◌, refl, sym, subst, Option, some, ltb, leb, le→leb,
  if◌then◌else◌, Text, Bytes, Result, ok, err, reject, ◌>>◌, Bool-cases, Result-cases, inl, inr,
  arith,
}
use pira.Ctx.Watch.View.{Vt100}
use pira.Ctx.Watch.State.{
  u128_max, is_some, unwrap_or, paused, complete, succeeded, job_failed, WatchState, is_stopped,
  terminal, exit_code,
}
use pira.Ctx.Watch.Control.{validate_sampling_cost, no_progress_error}
use pira.Ctx.Watch.Attention.{remaining_ms, evaluate_attention}
use pira.Ctx.Watch.Sample.{Sample, collect}
use pira.Ctx.Watch.Analyzer.{AnalyzerInput, AnalyzerOutput}
use pira.Ctx.Watch.Own.{
  Round, Step, goes_on, returns, take_control, sleep_controlled, report_result, end_with, is_stop,
  started, is_due, at_deadline, at_review, next_sample, carry_on, slept, give_up, needs_analyzer,
  returns_on_attention, at_stop, at_error, at_analyzer_error, tried, lost, conclude, incorporated,
  sampled, attempt, sample_round, controlled_round, own_round,
}
use pira.Ctx.Watch.Own.Ends.{JobStatus-cases}
use pira.Ctx.Watch.Own.Keeps.{fixed, take_control-fixed, evaluate_attention-fixed}
use pira.Ctx.Watch.Own.Sleep.{IsAwake, Slept, slept_with, sleep_controlled-Slept}
use pira.Ctx.Watch.Own.Attempts.{
  IsTimed, remaining_ms_le, Sampled, sample_of, no_sample, collect-Sampled, Given, given,
  incorporate_sample-Given,
}

-- The end of a round: the command returns, or another round begins at the same deadline.
pub data Over : Step → Type 0 where
  over : (result : Result Text ℕ) (w disk : WatchState) → Over (returns result w disk)

pub data Ends (time : ℕ × ℕ) : Step → Type 0 where
  end_over : {step : Step} → Over step → Ends time step
  end_on : (w disk : WatchState) → fixed w ≡ time → Ends time (goes_on w disk)

-- The turns of a round's processes reach the time of an attempt, and those of its sleep reach the
-- deadline.
pub record IsTimedRound (time : ℕ × ℕ) (round : Round) : Type 0 where
  pub probe_timed : IsTimed time.1 round.probe_run.turns
  pub analyzer_timed : (input : AnalyzerInput) → IsTimed time.1 (round.analyzer_run input).turns
  pub sleep_timed : IsAwake time.0 round.polls

end_with-Over : (round : Round) (code : ℕ) (w disk : WatchState) → Over (end_with round code w disk)
unfolding end_with
end_with-Over round code w disk = elim (Result-cases round.ended) [
  | inl (why, e) ↦
      simp (end_with, e) (over (err why) (record w { updated_ms = round.ended_ms }) disk)
  | inr (u, e) ↦
      simp (end_with, e)
        (over (report_result round.reported code) (record w { updated_ms = round.ended_ms })
          (record w { updated_ms = round.ended_ms }))
]

if-Over :
    (b : Bool) {first second : Step} → Over first → Over second → Over (if b then first else second)
if-Over true h k = h
if-Over false h k = k

give_up-Over :
    (round : Round) (review : Option ℕ) (now review_now : ℕ) (w failed_watch disk : WatchState)
    → Over (give_up round review now review_now w failed_watch disk)
unfolding give_up
give_up-Over round review now review_now w failed_watch disk =
    if-Over (leb w.deadline_ms now) (end_with-Over round 21 (at_deadline w) disk) (
      if-Over (is_due review review_now) (end_with-Over round 10 (at_review w) disk)
        (end_with-Over round 22 failed_watch disk))

carry_on-Ends :
    (round : Round) (evaluated : WatchState) (raised : Bool) (disk : WatchState)
    → Ends (fixed evaluated) (carry_on round (evaluated, raised) disk)
unfolding carry_on
carry_on-Ends round evaluated raised disk =
    let next = next_sample round evaluated in
    elim (Result-cases round.kept) [
      | inl (why, e) ↦ simp (carry_on, e) (end_over (over (err why) next disk))
      | inr (u, e) ↦ elim (Bool-cases (raised && returns_on_attention next.attention_policy)) [
        | inl t ↦
            simp (carry_on, e, t)
              (end_over (end_with-Over round 10 (record next { monitor = paused }) next))
        | inr f ↦ simp (carry_on, e, f) (end_on next next refl)
      ]
    ]

conclude-Ends :
    (round : Round) (attention : Option Text) (observation_complete : Bool) (w disk : WatchState)
    → Ends (fixed w) (conclude round attention observation_complete w disk)
unfolding conclude
conclude-Ends round attention observation_complete w disk =
    let evaluated = evaluate_attention w round.attention_ms attention observation_complete in
    let goes : Ends (fixed w) (carry_on round evaluated disk) =
      subst (λ t. Ends t (carry_on round evaluated disk))
        (evaluate_attention-fixed w round.attention_ms attention observation_complete)
        (carry_on-Ends round evaluated.0 evaluated.1 disk) in
    elim (JobStatus-cases w.job) [
      | inl e ↦
          simp (conclude, e)
            (end_over
              (end_with-Over round 0 (record w { monitor = complete; job = succeeded }) disk))
      | inr (inl e) ↦
          simp (conclude, e)
            (end_over
              (end_with-Over round 20 (record w { monitor = complete; job = job_failed }) disk))
      | inr (inr (inl e)) ↦ simp (conclude, e) goes
      | inr (inr (inr e)) ↦ simp (conclude, e) goes
    ]

incorporated-Ends :
    (round : Round) (review : Option ℕ) (observation_complete : Bool) (time : ℕ × ℕ)
    (result : Option (Result Text (Option Text) × WatchState)) (disk : WatchState)
    → Given time result
    → Ends time (incorporated round review observation_complete result disk)
unfolding incorporated
incorporated-Ends round review observation_complete time _ disk (given (ok attention) w h) =
    subst (λ t. Ends t (conclude round attention observation_complete w disk)) h
      (conclude-Ends round attention observation_complete w disk)
incorporated-Ends round review observation_complete time _ disk (given (err error) w h) = end_over (
    if-Over (is_stop error) (end_with-Over round 23 (at_stop error w) disk) (
      give_up-Over round review round.unanalyzed_ms round.unanalyzed_review_ms w
        (at_analyzer_error error w) disk))

wake_at_le : (a b c : ℕ) → min (min a b) c ≤ b
wake_at_le a b c = omega arith

module _ (vt : Vt100) (from_slice : Bytes → Result Text AnalyzerOutput)
    (sha256 : Bytes → Bytes) where
  sampled-Ends :
      (round : Round) (review : Option ℕ) (result : Option (Result Text (WatchState × Sample)))
      (w disk : WatchState)
      → IsTimedRound (fixed w) round
      → Sampled w result
      → Ends (fixed w) (sampled vt from_slice sha256 round review result w disk)
  unfolding sampled
  sampled-Ends round review _ w disk timed (sample_of w' sample h) =
      let limit = remaining_ms round.limit_ms w'.deadline_ms review w'.attempt_timeout_ms in
      let in_time : limit ≤ w.attempt_timeout_ms =
        subst (λ t. limit ≤ t.1) h
          (remaining_ms_le round.limit_ms w'.deadline_ms review w'.attempt_timeout_ms) in
      subst
        (λ t. Ends t (sampled vt from_slice sha256 round review (some (ok (w', sample))) w disk)) h
        (incorporated-Ends round review sample.reliable (fixed w') _ disk (
          incorporate_sample-Given vt from_slice sha256 (tried w') sample
            (needs_analyzer sample.job) limit round.sampled_ms w.attempt_timeout_ms
            round.analyzer_run in_time timed.analyzer_timed))
  sampled-Ends round review _ w disk timed (no_sample error) = end_over (
      if-Over (is_stop error) (end_with-Over round 23 (at_stop error (tried w)) disk) (
        give_up-Over round review round.failed_ms round.failed_review_ms (lost (tried w))
          (at_error error (lost (tried w))) disk))

  sample_round-Ends :
      (round : Round) (review : Option ℕ) (w disk : WatchState)
      → IsTimedRound (fixed w) round
      → Ends (fixed w) (sample_round vt from_slice sha256 round review w disk)
  unfolding sample_round attempt
  sample_round-Ends round review w disk timed =
      let limit = remaining_ms round.now w.deadline_ms review w.attempt_timeout_ms in
      elim (Result-cases (
        validate_sampling_cost w.source_kind (is_some w.analyzer) w.sample_every_ms
        >> (reject (is_some w.no_progress_after_ms && not (is_some w.analyzer))
            no_progress_error))) [
              | inl (why, e) ↦ simp (sample_round, e) (end_over (over (err why) w disk))
              | inr (u, e) ↦ elim (Result-cases round.start_written) [
                | inl (why, e') ↦
                    simp (sample_round, e, e') (end_over (over (err why) (started round w) disk))
                | inr (v, e') ↦
                    simp (sample_round, e, e')
                      (sampled-Ends round review
                        (collect (started round w) limit round.probe_run round.store)
                        (started round w) (started round w) timed
                        (collect-Sampled (started round w) limit w.attempt_timeout_ms
                          round.probe_run round.store
                          (remaining_ms_le round.now w.deadline_ms review w.attempt_timeout_ms)
                          timed.probe_timed))
              ]
            ]

  if-Ends :
      (b : Bool) {time : ℕ × ℕ} {first second : Step}
      → Ends time first
      → Ends time second
      → Ends time (if b then first else second)
  if-Ends true h k = h
  if-Ends false h k = k

  slept-Ends :
      (time : ℕ × ℕ) (disk : WatchState) (result : Option (Result Text (Unit {0}) × WatchState))
      → Slept time result
      → Ends time (slept disk result)
  unfolding slept
  slept-Ends time disk _ (slept_with (err why) w h) = end_over (over (err why) w disk)
  slept-Ends time disk _ (slept_with (ok u) w h) = end_on w disk h

  controlled_round-Ends :
      (round : Round) (review : Option ℕ) (w disk : WatchState)
      → IsTimedRound (fixed w) round
      → Ends (fixed w) (controlled_round vt from_slice sha256 round review w disk)
  unfolding controlled_round
  controlled_round-Ends round review w disk timed =
      let wake_at = min (min w.next_sample_ms w.deadline_ms) (unwrap_or review u128_max) in
      if-Ends (is_stopped w.monitor) (end_over (end_with-Over round 23 w disk)) (
        if-Ends (leb w.deadline_ms round.now)
          (end_over (end_with-Over round 21 (at_deadline w) disk))
          (if-Ends (is_due review round.now) (end_over (end_with-Over round 10 (at_review w) disk))
            (if-Ends (ltb round.now w.next_sample_ms)
              (slept-Ends (fixed w) disk (sleep_controlled round.polls wake_at w) (
                sleep_controlled-Slept round.polls wake_at w.deadline_ms w
                  (wake_at_le w.next_sample_ms w.deadline_ms (unwrap_or review u128_max))
                  timed.sleep_timed))
              (sample_round-Ends round review w disk timed))))

  pub own_round-Ends :
      (round : Round) (review : Option ℕ) (w disk : WatchState)
      → IsTimedRound (fixed w) round
      → Ends (fixed w) (own_round vt from_slice sha256 round review w disk)
  unfolding own_round
  own_round-Ends round review w disk timed = elim (Bool-cases (terminal w)) [
    | inl t ↦ simp (own_round, t) (end_over (end_with-Over round (exit_code w) w disk))
    | inr f ↦ elim (Result-cases (take_control round.read w)) [
      | inl (why, e) ↦ simp (own_round, f, e) (end_over (over (err why) w disk))
      | inr (w', e) ↦
          let same = take_control-fixed round.read w w' e in
          simp (own_round, f, e)
            (subst (λ t. Ends t (controlled_round vt from_slice sha256 round review w' disk)) same
              (controlled_round-Ends round review w' disk
                (subst (λ t. IsTimedRound t round) (sym same) timed)))
    ]
  ]

  -- At the deadline a round is the last.
  pub own_round-Over :
      (round : Round) (review : Option ℕ) (w disk : WatchState)
      → w.deadline_ms ≤ round.now
      → Over (own_round vt from_slice sha256 round review w disk)
  unfolding own_round controlled_round
  own_round-Over round review w disk h = elim (Bool-cases (terminal w)) [
    | inl t ↦ simp (own_round, t) (end_with-Over round (exit_code w) w disk)
    | inr f ↦ elim (Result-cases (take_control round.read w)) [
      | inl (why, e) ↦ simp (own_round, f, e) (over (err why) w disk)
      | inr (w', e) ↦
          let due : leb w'.deadline_ms round.now ≡ true =
            le→leb w'.deadline_ms round.now
              (subst (λ t. t.0 ≤ round.now) (sym (take_control-fixed round.read w w' e)) h) in
          simp (own_round, controlled_round, f, e, due)
            (if-Over (is_stopped w'.monitor) (end_with-Over round 23 w' disk)
              (end_with-Over round 21 (at_deadline w') disk))
    ]
  ]
