-- ===== src/Ctx/Watch/View/Replay.antt =====
-- A view of tools/src/pira_ctx/watch/render.rs that is saved and restored is the same view.
use pira.Common.{
  ◌-◌, ◌≤◌, ◌≡◌, refl, ◌∙◌, Bool, true, false, ◌&&◌, List, [], ◌∷◌, ◌++◌, Option, none, some, ltb,
  ◌==◌, Text, Bytes, length, length-append, take-append, All, Bool-cases, Option-cases, ◌⊎◌, inl,
  inr, arith,
}
use pira.Common.Chars.{trim_end_by}
use pira.Ctx.Watch.View.{
  max_replay_bytes, Failure, Vt100, TerminalView, default, or_failure, no_failure, join_rows,
  unsupported_encoding, has_string_escape, render_from, render, feed, restore, save,
}

-- Documented of the terminal: it starts with empty rows, and no control sequence is in no bytes.
pub record StartsBlank (vt : Vt100) : Type 0 where
  pub rows : All (λ row. row ≡ []) (vt.rows vt.new)
  pub csi : vt.csi [] ≡ []

-- The views of a stream: fed from the start, with a gap in the stream made known.
pub data Viewed (vt : Vt100) : TerminalView → Type 0 where
  start : Viewed vt default
  fed : {v : TerminalView} (bytes : Bytes) → Viewed vt v → Viewed vt (feed vt v bytes)
  gap : {v : TerminalView} → Viewed vt v → Viewed vt (record v { reliable = false })

-- The text is what the bytes show, which are not too many.
pub record Replays (vt : Vt100) (v : TerminalView) : Type 0 where
  pub bounded : length v.transcript ≤ max_replay_bytes
  pub rendered : Option Failure
  pub shows : render vt v.transcript ≡ some (v.text, rendered)
  pub kept : (rendered ≡ none) ⊎ (rendered ≡ v.failure)
  pub unfailed : v.reliable ≡ true → v.failure ≡ none

no_failure-none : (f : Option Failure) → no_failure f ≡ true → f ≡ none
no_failure-none none e = refl
no_failure-none (some f) e = absurd cc

or_failure_self : (f : Option Failure) → or_failure f f ≡ f
or_failure_self none = refl
or_failure_self (some f) = refl

and_false : (b : Bool) → (b && false) ≡ false
and_false true = refl
and_false false = refl

module _ (vt : Vt100) where
  blank_rows :
      (rows : List Text)
      → All (λ row. row ≡ []) rows
      → trim_end_by (λ c. c == 0xA) (join_rows rows) ≡ []
  unfolding join_rows trim_end_by
  blank_rows [] a = refl
  blank_rows (row ∷ []) a = rw a.0 refl
  blank_rows (row ∷ next ∷ rows) a =
      let rest = blank_rows (next ∷ rows) a.1 in rw (a.0, trim_end_by, rest) refl

  render-nil : StartsBlank vt → render vt [] ≡ some ([], none)
  unfolding render render_from unsupported_encoding has_string_escape
  render-nil b = rw (b.csi, blank_rows (vt.rows vt.new) b.rows) refl

  default-Replays : StartsBlank vt → Replays vt default
  default-Replays b = record {
    bounded = omega arith;
    rendered = none;
    shows = render-nil b;
    kept = inl refl;
    unfailed = λ _. refl;
  }

  unfailed_rendered : (v : TerminalView) (r : Replays vt v) → v.reliable ≡ true → r.rendered ≡ none
  unfailed_rendered v r on = elim r.kept [ inl e ↦ e | inr e ↦ e ∙ r.unfailed on ]

  feed-Replays : (v : TerminalView) (bytes : Bytes) → Replays vt v → Replays vt (feed vt v bytes)
  unfolding feed
  feed-Replays v bytes r = elim (Bool-cases v.reliable) [
    | inr lost ↦ simp lost r
    | inl on ↦
        let clean : r.rendered ≡ none = unfailed_rendered v r on in
        elim (Bool-cases (ltb (max_replay_bytes - length v.transcript) (length bytes))) [
          | inl long ↦
              simp (on, long)
                (record {
                  bounded = r.bounded;
                  rendered = r.rendered;
                  shows = r.shows;
                  kept = inl clean;
                  unfailed = λ e. cc;
                })
          | inr fits ↦
              let short = length-append v.transcript bytes in
              let bounded = r.bounded in
              elim (Option-cases (render vt (v.transcript ++ bytes))) [
                | inl e ↦
                    simp (on, fits, e, take-append)
                      (record {
                        bounded = r.bounded;
                        rendered = r.rendered;
                        shows = r.shows;
                        kept = inl clean;
                        unfailed = λ e'. cc;
                      })
                | inr ((text, failure), e) ↦
                    simp (on, fits, e)
                      (record {
                        bounded = ground arith;
                        rendered = failure;
                        shows = e;
                        kept = inr refl;
                        unfailed = no_failure-none failure;
                      })
              ]
        ]
  ]

  Viewed-Replays : {v : TerminalView} → StartsBlank vt → Viewed vt v → Replays vt v
  Viewed-Replays b start = default-Replays b
  Viewed-Replays b (fed {v} bytes r) = feed-Replays v bytes (Viewed-Replays b r)
  Viewed-Replays b (gap r) =
      let old = Viewed-Replays b r in
      record {
        bounded = old.bounded;
        rendered = old.rendered;
        shows = old.shows;
        kept = old.kept;
        unfailed = λ e. cc;
      }

  restored_failure :
      (v : TerminalView) (r : Replays vt v) → or_failure r.rendered v.failure ≡ v.failure
  restored_failure v r = elim r.kept [
    | inl e ↦ rw e refl
    | inr e ↦ rw e (or_failure_self v.failure)
  ]

  restored_reliable :
      (v : TerminalView) (r : Replays vt v)
      → (no_failure r.rendered && (v.reliable && no_failure v.failure)) ≡ v.reliable
  restored_reliable v r = elim (Bool-cases v.reliable) [
    | inl on ↦ simp (on, r.unfailed on, unfailed_rendered v r on)
    | inr lost ↦ simp (lost, and_false)
  ]

  restore_replayed : (v : TerminalView) → Replays vt v → restore vt (save v) ≡ some v
  unfolding restore feed
  restore_replayed v r =
      let bounded = r.bounded in
      let short : ltb max_replay_bytes (length v.transcript) ≡ false = ground arith in
      rw (short, r.shows)
        (λ i.
          some (record v { reliable = restored_reliable v r i; failure = restored_failure v r i }))

  -- If the terminal starts with empty rows, then a view of any stream, with gaps or without, is
  -- restored as it was from what is saved of it.
  pub restore-save :
      {v : TerminalView} → StartsBlank vt → Viewed vt v → restore vt (save v) ≡ some v
  restore-save {v} b r = restore_replayed v (Viewed-Replays b r)
