-- ===== src/Dec/Browse/Shown.antt =====
-- What a listing and an export of records show (run_list and load_export_records of
-- tools/src/pira_dec/lib.rs).
use pira.Common.{
  ℕ, ◌≡◌, refl, sym, ap, ◌∙◌, Bool, true, false, List, [], ◌∷◌, ◌++◌, append_assoc, append-nil,
  Option, none, some, ltb, Result, ok, err, ◌>>=◌, length, take,
}
use pira.Dec.Error.{Error}
use pira.Dec.Model.{DecisionRecord}
use pira.Dec.Browse.{
  ReadResult, found, vanished, invalid, SkippedRecord, visit_records, time_matches,
  sort_records_newest_first, matches_time, push_if, load_export_records,
}
use pira.Dec.Browse.Newest.{cons_if, selected, skipped_of, load_bounded_records-newest}

abbrev pub Exported : Type 0
Exported = List DecisionRecord × List SkippedRecord

abbrev Loaded : Type 0
Loaded = List DecisionRecord × List SkippedRecord × Bool

abbrev with_skipped : List SkippedRecord → List DecisionRecord → Result Error Exported
with_skipped skipped records = ok (records, skipped)

abbrev in_order : Exported → Result Error Exported
in_order visited = ok (sort_records_newest_first visited.0, visited.1)

abbrev exported : Loaded → Result Error Exported
exported loaded = ok (loaded.0, loaded.1)

-- The first records of an export.
abbrev pub firsts : ℕ → Exported → Result Error Exported
firsts limit export = ok (take limit export.0, export.1)

module _ (since_ms until_ms : Option ℕ) where
  abbrev in_window : List ReadResult → Result Error (List DecisionRecord)
  in_window = selected (matches_time since_ms until_ms)

  abbrev keeper : List DecisionRecord → DecisionRecord → Result Error (List DecisionRecord)
  keeper records r = ok (push_if records r (time_matches r since_ms until_ms))

  push_if-cons_if :
      (records behind : List DecisionRecord) (r : DecisionRecord) (b : Bool)
      → push_if records r b ++ behind ≡ records ++ cons_if r b behind
  push_if-cons_if records behind r true = append_assoc records (r ∷ []) behind
  push_if-cons_if records behind r false = refl

  kept_in_front :
      (records : List DecisionRecord) (r : DecisionRecord) (b : Bool)
      (behind : Result Error (List DecisionRecord)) (skipped : List SkippedRecord)
      → (behind >>= λ rs. with_skipped skipped (push_if records r b ++ rs))
        ≡ ((behind >>= λ rs. ok (cons_if r b rs)) >>= λ rs. with_skipped skipped (records ++ rs))
  kept_in_front records r b (err why) skipped = refl
  kept_in_front records r b (ok rs) skipped =
      ap (with_skipped skipped) (push_if-cons_if records rs r b)

  visit-all :
      (reads : List ReadResult) (records : List DecisionRecord) (skipped : List SkippedRecord)
      → visit_records keeper records skipped reads
        ≡ (in_window reads >>= λ rs. with_skipped (skipped ++ skipped_of reads) (records ++ rs))
  unfolding visit_records
  visit-all [] records skipped = rw (append-nil skipped, append-nil records) refl
  visit-all (vanished ∷ reads) records skipped = visit-all reads records skipped
  visit-all (invalid filename error ∷ reads) records skipped =
      visit-all reads records (skipped ++ record { filename = filename; error = error } ∷ [])
      ∙ rw
          (append_assoc skipped (record { filename = filename; error = error } ∷ [])
            (skipped_of reads))
          refl
  visit-all (found r ∷ reads) records skipped =
      let b = time_matches r since_ms until_ms in
      visit-all reads (push_if records r b) skipped
      ∙ kept_in_front records r b (in_window reads) (skipped ++ skipped_of reads)

  load_export_records-none :
      (reads : List ReadResult)
      → load_export_records since_ms until_ms none reads
        ≡ (in_window reads >>= λ rs. with_skipped (skipped_of reads) (sort_records_newest_first rs))
  unfolding load_export_records
  load_export_records-none reads =
      ap (λ visited. visited >>= in_order) (visit-all reads [] [])
      ∙ told (in_window reads) (skipped_of reads)
    where
      told :
          (rs : Result Error (List DecisionRecord)) (skipped : List SkippedRecord)
          → ((rs >>= with_skipped skipped) >>= in_order)
            ≡ (rs >>= λ l. with_skipped skipped (sort_records_newest_first l))
      told (err why) skipped = refl
      told (ok l) skipped = refl

  -- An export with a limit has the first records of the export without one.
  pub load_export_records-limit :
      (limit : ℕ) (reads : List ReadResult)
      → load_export_records since_ms until_ms (some limit) reads
        ≡ (load_export_records since_ms until_ms none reads >>= firsts limit)
  unfolding load_export_records
  load_export_records-limit limit reads =
      ap (λ loaded. loaded >>= exported)
        (load_bounded_records-newest limit (matches_time since_ms until_ms) reads)
      ∙ (cut (in_window reads) (skipped_of reads)
          ∙ ap (λ e. e >>= firsts limit) (sym (load_export_records-none reads)))
    where
      loaded : List DecisionRecord → List SkippedRecord → Result Error Loaded
      loaded l skipped =
          ok (take limit (sort_records_newest_first l), skipped, ltb limit (length l))

      cut :
          (rs : Result Error (List DecisionRecord)) (skipped : List SkippedRecord)
          → ((rs >>= λ l. loaded l skipped) >>= exported)
            ≡ ((rs >>= λ l. with_skipped skipped (sort_records_newest_first l)) >>= firsts limit)
      cut (err why) skipped = refl
      cut (ok l) skipped = refl
