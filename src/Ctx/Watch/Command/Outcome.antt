-- ===== src/Ctx/Watch/Command/Outcome.antt =====
-- What the command that owns a watch returns (`own` of tools/src/pira_ctx/watch/mod.rs).
use pira.Common.{
  ℕ, ◌≤◌, ◌≡◌, refl, sym, ap, ◌∙◌, subst, Bool, true, false, List, [], ◌∷◌, ◌++◌, All, Option, some,
  if◌then◌else◌, Text, Bytes, Result, ok, err, ◌>>◌, >>=-eq-ok, ok-injective, Result-cases, inl,
  inr,
}
use pira.Ctx.Watch.View.{Vt100}
use pira.Ctx.Watch.State.{MonitorStatus, stopped, paused, WatchState, terminal, exit_code}
use pira.Ctx.Watch.Analyzer.{AnalyzerOutput}
use pira.Ctx.Watch.Own.{Round, report_result, Ending}
use pira.Ctx.Watch.Own.Keeps.{fixed, err_not_ok}
use pira.Ctx.Watch.Own.Ends.{Reported, no_code, end_with-Reported}
use pira.Ctx.Watch.Own.Progress.{IsTimedRound}
use pira.Ctx.Watch.Own.Returns.{own_loop-Reported, own_loop-returns}
use pira.Ctx.Watch.Command.{
  Entry, validate, resumed, resume_from, cwd_checked, take_up, review_deadline, own_taken, own,
}

-- What `own` comes to.
data Course (entry : Entry) (disk : WatchState) (taken : Option Ending)
    : Option Ending → Type 0 where
  refused : (why : Text) → Course entry disk taken (some (err why, disk, disk))
  final : Course entry disk taken (some (report_result entry.reported (exit_code disk), disk, disk))
  goes : Course entry disk taken taken

if-Course :
    (b : Bool) (entry : Entry) (disk : WatchState) (taken : Option Ending)
    → Course entry disk taken
        (if b then some (report_result entry.reported (exit_code disk), disk, disk) else taken)
if-Course true entry disk taken = final
if-Course false entry disk taken = goes

the_ending : {a b : Ending} → ◌≡◌ {A = Option Ending} (some a) (some b) → a ≡ b
the_ending h = cc

-- Taking a watch up leaves its time.
ok-fixed :
    (w w' v : WatchState)
    → fixed v ≡ fixed w
    → ◌≡◌ {A = Result Text WatchState} (ok v) (ok w')
    → fixed w' ≡ fixed w
ok-fixed w w' v e h = ap fixed (sym (ok-injective h)) ∙ e

resume_from-err :
    (entry : Entry) (w : WatchState) (why : Text)
    → entry.control_written ≡ err why
    → resume_from stopped entry w ≡ err why
unfolding resume_from
resume_from-err entry w why e = simp (resume_from, e) refl

resume_from-ok :
    (entry : Entry) (w : WatchState)
    → entry.control_written ≡ ok tt
    → resume_from stopped entry w ≡ ok (resumed w)
unfolding resume_from
resume_from-ok entry w e = simp (resume_from, e) refl

resume_from-fixed :
    (m : MonitorStatus) (entry : Entry) (w w' : WatchState)
    → resume_from m entry w ≡ ok w'
    → fixed w' ≡ fixed w
unfolding resume_from
resume_from-fixed stopped entry w w' h = elim (Result-cases entry.control_written) [
  | inl (why, e) ↦ absurd (err_not_ok (sym (resume_from-err entry w why e) ∙ h))
  | inr (u, e) ↦ ok-fixed w w' (resumed w) refl (sym (resume_from-ok entry w e) ∙ h)
]
resume_from-fixed paused entry w w' h = ok-fixed w w' (resumed w) refl h
resume_from-fixed _ entry w w' h = ok-fixed w w' w refl h

take_up-fixed : (entry : Entry) (w w' : WatchState) → take_up entry w ≡ ok w' → fixed w' ≡ fixed w
unfolding take_up
take_up-fixed entry w w' h =
    let (cwd, checked, rest) = >>=-eq-ok (cwd_checked w) (λ cwd. resume_from w.monitor entry w) h in
    resume_from-fixed w.monitor entry w w' rest

module _ (vt : Vt100) (from_slice : Bytes → Result Text AnalyzerOutput)
    (sha256 : Bytes → Bytes) where
  own_taken-Reported :
      (entry : Entry) (review : Option ℕ) (rounds : List Round) (disk : WatchState)
      (taken : Result Text WatchState) (end : Ending)
      → own_taken vt from_slice sha256 entry review rounds disk taken ≡ some end
      → Reported end.0 end.1 end.2
  unfolding own_taken
  own_taken-Reported entry review rounds disk (err why) end h =
      subst (λ o. Reported o.0 o.1 o.2) (the_ending h) (no_code why disk disk)
  own_taken-Reported entry review rounds disk (ok w) end h =
      own_loop-Reported vt from_slice sha256 rounds (review_deadline entry.now review) w disk end h

  own-Course :
      (entry : Entry) (id : Text) (review : Option ℕ) (rounds : List Round) (disk : WatchState)
      → Course entry disk
          (own_taken vt from_slice sha256 entry review rounds disk (take_up entry disk))
          (own vt from_slice sha256 entry id review rounds disk)
  unfolding own
  own-Course entry id review rounds disk =
      let taken = own_taken vt from_slice sha256 entry review rounds disk (take_up entry disk) in
      elim (Result-cases (entry.acquired >> validate disk id)) [
        | inl (why, e) ↦ simp (own, e) (refused why)
        | inr (u, e) ↦ simp (own, e) (if-Course (terminal disk) entry disk taken)
      ]

  Course-Reported :
      (entry : Entry) (disk : WatchState) (taken outcome : Option Ending) (end : Ending)
      → Course entry disk taken outcome
      → (taken ≡ some end → Reported end.0 end.1 end.2)
      → outcome ≡ some end
      → Reported end.0 end.1 end.2
  Course-Reported entry disk taken _ end (refused why) k h =
      subst (λ o. Reported o.0 o.1 o.2) (the_ending h) (no_code why disk disk)
  Course-Reported entry disk taken _ end final k h =
      subst (λ o. Reported o.0 o.1 o.2) (the_ending h)
        (end_with-Reported entry.reported disk (exit_code disk) refl)
  Course-Reported entry disk taken _ end goes k h = k h

  -- A command that returns a code has left the state on disk that it is the exit code of, which is
  -- the one that it has reported.
  pub own-Reported :
      (entry : Entry) (id : Text) (review : Option ℕ) (rounds : List Round) (disk : WatchState)
      (end : Ending)
      → own vt from_slice sha256 entry id review rounds disk ≡ some end
      → Reported end.0 end.1 end.2
  unfolding own
  own-Reported entry id review rounds disk end h =
      Course-Reported entry disk _ _ end (own-Course entry id review rounds disk)
        (own_taken-Reported entry review rounds disk (take_up entry disk) end) h

  Course-returns :
      (entry : Entry) (disk : WatchState) (taken outcome : Option Ending)
      → Course entry disk taken outcome
      → ((end : Ending) × (taken ≡ some end))
      → (end : Ending) × (outcome ≡ some end)
  Course-returns entry disk taken _ (refused why) k = ((err why, disk, disk), refl)
  Course-returns entry disk taken _ final k =
      ((report_result entry.reported (exit_code disk), disk, disk), refl)
  Course-returns entry disk taken _ goes k = k

  own_taken-returns :
      (entry : Entry) (review : Option ℕ) (rounds : List Round) (last : Round) (disk : WatchState)
      (taken : Result Text WatchState)
      → ((w : WatchState) → taken ≡ ok w → fixed w ≡ fixed disk)
      → All (IsTimedRound (fixed disk)) rounds
      → disk.deadline_ms ≤ last.now
      → (end : Ending) × (own_taken vt from_slice sha256 entry review
            (rounds ++ last ∷ [])
            disk
            taken
          ≡ some end)
  unfolding own_taken
  own_taken-returns entry review rounds last disk (err why) same timed late =
      ((err why, disk, disk), refl)
  own_taken-returns entry review rounds last disk (ok w) same timed late =
      own_loop-returns vt from_slice sha256 rounds last (review_deadline entry.now review) w disk
        (subst (λ t. All (IsTimedRound t) rounds) (sym (same w refl)) timed)
        (subst (λ t. t.0 ≤ last.now) (sym (same w refl)) late)

  -- The command returns: where in each round the turns of the processes reach the time of an attempt,
  -- and those of the sleep reach the deadline of the watch, it does at the latest in a round that
  -- begins at the deadline.
  pub own-returns :
      (entry : Entry) (id : Text) (review : Option ℕ) (rounds : List Round) (last : Round)
      (disk : WatchState)
      → All (IsTimedRound (fixed disk)) rounds
      → disk.deadline_ms ≤ last.now
      → (end : Ending) × (own vt from_slice sha256 entry id review (rounds ++ last ∷ []) disk
          ≡ some end)
  unfolding own
  own-returns entry id review rounds last disk timed late =
      Course-returns entry disk _ _ (own-Course entry id review (rounds ++ last ∷ []) disk) (
        own_taken-returns entry review rounds last disk (take_up entry disk)
          (take_up-fixed entry disk) timed late)
