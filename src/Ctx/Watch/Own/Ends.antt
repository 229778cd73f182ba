-- ===== src/Ctx/Watch/Own/Ends.antt =====
-- How the owner of a watch ends (`own` of tools/src/pira_ctx/watch/mod.rs): the code that it returns is
-- that of the state that it has written.
use pira.Common.{
  ℕ, Bool, true, not, ◌&&◌, ◌≡◌, refl, subst, Option, none, some, ltb, leb, Text, Bytes, Result, ok,
  err, reject, ◌>>◌, Bool-cases, Result-cases, ◌⊎◌, inl, inr,
}
use pira.Ctx.Watch.View.{Vt100}
use pira.Ctx.Watch.State.{
  is_some, paused, stopped, complete, MonitorStatus, JobStatus, unknown, pending, succeeded,
  job_failed, code_of, WatchState, is_stopped, terminal, exit_code,
}
use pira.Ctx.Watch.Control.{validate_sampling_cost, no_progress_error}
use pira.Ctx.Watch.Attention.{remaining_ms, evaluate_attention}
use pira.Ctx.Watch.Sample.{Sample, collect}
use pira.Ctx.Watch.Analyzer.{AnalyzerOutput}
use pira.Ctx.Watch.Incorporate.{incorporate_sample}
use pira.Ctx.Watch.Own.{
  Round, Step, goes_on, returns, waits, take_control, report_result, end_with, is_stop, started,
  is_due, at_deadline, at_review, next_sample, carry_on, slept, give_up, needs_analyzer,
  returns_on_attention, at_stop, at_error, at_analyzer_error, tried, lost, conclude, incorporated,
  sampled, attempt, sample_round, controlled_round, own_round,
}

-- A code is returned for the state on disk, which is that in memory.
pub data Reported : Result Text ℕ → WatchState → WatchState → Type 0 where
  no_code : (why : Text) (w disk : WatchState) → Reported (err why) w disk
  code_of_state : (w : WatchState) → Reported (ok (exit_code w)) w w

abbrev pub Reports : Step → Type 0
Reports (goes_on w disk) = Unit {0}
Reports (returns result w disk) = Reported result w disk
Reports waits = Unit {0}

pub end_with-Reported :
    (reported : Result Text (Unit {0})) (w : WatchState) (code : ℕ)
    → exit_code w ≡ code
    → Reported (report_result reported code) w w
end_with-Reported (err why) w code h = no_code why w w
end_with-Reported (ok u) w code h = subst (λ c. Reported (ok c) w w) h (code_of_state w)

end_with-Reports :
    (round : Round) (code : ℕ) (w disk : WatchState)
    → exit_code w ≡ code
    → Reports (end_with round code w disk)
unfolding end_with
end_with-Reports round code w disk h = elim (Result-cases round.ended) [
  | inl (why, e) ↦ simp (end_with, e) (no_code why _ disk)
  | inr (u, e) ↦
      simp (end_with, e)
        (end_with-Reported round.reported (record w { updated_ms = round.ended_ms }) code h)
]

give_up-Reports :
    (round : Round) (review : Option ℕ) (now review_now : ℕ) (w failed_watch disk : WatchState)
    → exit_code failed_watch ≡ 22
    → Reports (give_up round review now review_now w failed_watch disk)
unfolding give_up
give_up-Reports round review now review_now w failed_watch disk h =
    elim (Bool-cases (leb w.deadline_ms now)) [
      | inl t ↦ simp (t) (end_with-Reports round 21 (at_deadline w) disk refl)
      | inr f ↦ elim (Bool-cases (is_due review review_now)) [
        | inl t ↦ simp (f, t) (end_with-Reports round 10 (at_review w) disk refl)
        | inr f' ↦ simp (f, f') (end_with-Reports round 22 failed_watch disk h)
      ]
    ]

carry_on-Reports :
    (round : Round) (evaluated : WatchState) (raised : Bool) (disk : WatchState)
    → Reports (carry_on round (evaluated, raised) disk)
unfolding carry_on
carry_on-Reports round evaluated raised disk = elim (Result-cases round.kept) [
  | inl (why, e) ↦ simp (carry_on, e) (no_code why (next_sample round evaluated) disk)
  | inr (u, e) ↦ elim (Bool-cases (raised && returns_on_attention evaluated.attention_policy)) [
    | inl t ↦
        simp (carry_on, e, t)
          (end_with-Reports round 10 (record (next_sample round evaluated) { monitor = paused })
            (next_sample round evaluated) refl)
    | inr f ↦ simp (carry_on, e, f) tt
  ]
]

slept-Reports :
    (disk : WatchState) (result : Option (Result Text (Unit {0}) × WatchState))
    → Reports (slept disk result)
unfolding slept
slept-Reports disk none = tt
slept-Reports disk (some (err why, w)) = no_code why w disk
slept-Reports disk (some (ok u, w)) = tt

stopped_code : (m : MonitorStatus) (j : JobStatus) → is_stopped m ≡ true → code_of m j ≡ 23
stopped_code stopped j h = refl
stopped_code _ j h = absurd cc

-- The states of a job.
pub JobStatus-cases :
    (j : JobStatus) → (j ≡ succeeded) ⊎ ((j ≡ job_failed) ⊎ ((j ≡ unknown) ⊎ (j ≡ pending)))
JobStatus-cases succeeded = inl refl
JobStatus-cases job_failed = inr (inl refl)
JobStatus-cases unknown = inr (inr (inl refl))
JobStatus-cases pending = inr (inr (inr refl))

conclude-Reports :
    (round : Round) (attention : Option Text) (observation_complete : Bool) (w disk : WatchState)
    → Reports (conclude round attention observation_complete w disk)
unfolding conclude
conclude-Reports round attention observation_complete w disk =
    let evaluated = evaluate_attention w round.attention_ms attention observation_complete in
    elim (JobStatus-cases w.job) [
      | inl e ↦
          simp (conclude, e)
            (end_with-Reports round 0 (record w { monitor = complete; job = succeeded }) disk refl)
      | inr (inl e) ↦
          simp (conclude, e)
            (end_with-Reports round 20 (record w { monitor = complete; job = job_failed }) disk
              refl)
      | inr (inr (inl e)) ↦ simp (conclude, e) (carry_on-Reports round evaluated.0 evaluated.1 disk)
      | inr (inr (inr e)) ↦ simp (conclude, e) (carry_on-Reports round evaluated.0 evaluated.1 disk)
    ]

incorporated-Reports :
    (round : Round) (review : Option ℕ) (observation_complete : Bool)
    (result : Option (Result Text (Option Text) × WatchState)) (disk : WatchState)
    → Reports (incorporated round review observation_complete result disk)
unfolding incorporated
incorporated-Reports round review observation_complete none disk = tt
incorporated-Reports round review observation_complete (some (ok attention, w)) disk =
    conclude-Reports round attention observation_complete w disk
incorporated-Reports round review observation_complete (some (err error, w)) disk =
    elim (Bool-cases (is_stop error)) [
      | inl t ↦ simp (t) (end_with-Reports round 23 (at_stop error w) disk refl)
      | inr f ↦ simp (f) (
          give_up-Reports round review round.unanalyzed_ms round.unanalyzed_review_ms w
            (at_analyzer_error error w) disk refl)
    ]

module _ (vt : Vt100) (from_slice : Bytes → Result Text AnalyzerOutput)
    (sha256 : Bytes → Bytes) where
  sampled-Reports :
      (round : Round) (review : Option ℕ) (result : Option (Result Text (WatchState × Sample)))
      (w disk : WatchState)
      → Reports (sampled vt from_slice sha256 round review result w disk)
  unfolding sampled
  sampled-Reports round review none w disk = tt
  sampled-Reports round review (some (ok (w', sample))) w disk =
      incorporated-Reports round review sample.reliable
        (incorporate_sample vt from_slice sha256 (tried w') sample (needs_analyzer sample.job)
          (remaining_ms round.limit_ms w'.deadline_ms review w'.attempt_timeout_ms) round.sampled_ms
          round.analyzer_run)
        disk
  sampled-Reports round review (some (err error)) w disk = elim (Bool-cases (is_stop error)) [
    | inl t ↦ simp (t) (end_with-Reports round 23 (at_stop error (tried w)) disk refl)
    | inr f ↦ simp (f) (
        give_up-Reports round review round.failed_ms round.failed_review_ms (lost (tried w))
          (at_error error (lost (tried w))) disk refl)
  ]

  sample_round-Reports :
      (round : Round) (review : Option ℕ) (w disk : WatchState)
      → Reports (sample_round vt from_slice sha256 round review w disk)
  unfolding sample_round attempt
  sample_round-Reports round review w disk =
      elim (Result-cases (
        validate_sampling_cost w.source_kind (is_some w.analyzer) w.sample_every_ms
        >> (reject (is_some w.no_progress_after_ms && not (is_some w.analyzer))
            no_progress_error))) [
              | inl (why, e) ↦ simp (sample_round, e) (no_code why w disk)
              | inr (u, e) ↦ elim (Result-cases round.start_written) [
                | inl (why, e') ↦ simp (sample_round, e, e') (no_code why (started round w) disk)
                | inr (v, e') ↦
                    simp (sample_round, e, e')
                      (sampled-Reports round review
                        (collect (started round w)
                          (remaining_ms round.now w.deadline_ms review w.attempt_timeout_ms)
                          round.probe_run round.store)
                        (started round w) (started round w))
              ]
            ]

  controlled_round-Reports :
      (round : Round) (review : Option ℕ) (w disk : WatchState)
      → Reports (controlled_round vt from_slice sha256 round review w disk)
  unfolding controlled_round
  controlled_round-Reports round review w disk = elim (Bool-cases (is_stopped w.monitor)) [
    | inl t ↦ simp (t) (end_with-Reports round 23 w disk (stopped_code w.monitor w.job t))
    | inr f ↦ elim (Bool-cases (leb w.deadline_ms round.now)) [
      | inl t ↦ simp (f, t) (end_with-Reports round 21 (at_deadline w) disk refl)
      | inr f' ↦ elim (Bool-cases (is_due review round.now)) [
        | inl t ↦ simp (f, f', t) (end_with-Reports round 10 (at_review w) disk refl)
        | inr f'' ↦ elim (Bool-cases (ltb round.now w.next_sample_ms)) [
          | inl t ↦ simp (f, f', f'', t) (slept-Reports disk _)
          | inr f3 ↦ simp (f, f', f'', f3) (sample_round-Reports round review w disk)
        ]
      ]
    ]
  ]

  pub own_round-Reports :
      (round : Round) (review : Option ℕ) (w disk : WatchState)
      → Reports (own_round vt from_slice sha256 round review w disk)
  unfolding own_round
  own_round-Reports round review w disk = elim (Bool-cases (terminal w)) [
    | inl t ↦ simp (t) (end_with-Reports round (exit_code w) w disk refl)
    | inr f ↦ elim (Result-cases (take_control round.read w)) [
      | inl (why, e) ↦ simp (f, e) (no_code why w disk)
      | inr (w', e) ↦ simp (f, e) (controlled_round-Reports round review w' disk)
    ]
  ]
