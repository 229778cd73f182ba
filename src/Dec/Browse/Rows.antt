-- ===== src/Dec/Browse/Rows.antt =====
-- The rows of a listing (run_list of tools/src/pira_dec/lib.rs).
use pira.Common.{
  ℕ, suc, ◌+◌, ◌≤◌, ◌≡◌, refl, sym, ap, ◌∙◌, Bool, true, false, List, [], ◌∷◌, ◌++◌, append_assoc,
  append-nil, All, All-take, Option, ltb, ◌==◌, Result, ok, err, ◌>>=◌, length, length-append,
  length-take, take, Bool-cases, inl, inr, arith,
}
use pira.Dec.Error.{Error}
use pira.Dec.Model.{DecisionRecord}
use pira.Dec.Browse.{
  ReadResult, found, vanished, invalid, SkippedRecord, time_matches, insert_newest, sort_onto,
  sort_records_newest_first, load_bounded_records, matches_time, ListDecision, list_decision,
  collect_from_rows, collect_list_decisions, run_list,
}
use pira.Dec.Browse.Ordered.{All-insert_newest}
use pira.Dec.Browse.Newest.{cons_if, selected, skipped_of, load_bounded_records-newest}

-- The rows of all of some records.
abbrev pub all_rows : List DecisionRecord → Result Error (List ListDecision)
all_rows [] = ok []
all_rows (r ∷ records) = list_decision r >>= λ row. all_rows records >>= λ rows. ok (row ∷ rows)

abbrev behind : List ListDecision → List ListDecision → Result Error (List ListDecision)
behind rows new = ok (rows ++ new)

module _ (since_ms until_ms : Option ℕ) (limit : ℕ) where
  abbrev Matches : DecisionRecord → Type 0
  Matches r = time_matches r since_ms until_ms ≡ true

  -- One round of the loop, on a record that has a row.
  abbrev next_rows : List ListDecision → List DecisionRecord → Result Error (List ListDecision)
  next_rows rows records = elim (length rows == limit) [
    | true ↦ ok rows
    | false ↦ collect_from_rows since_ms until_ms limit rows records
  ]

  full-nil :
      (rows : List ListDecision) (records : List DecisionRecord)
      → length rows + length records ≤ limit
      → (length rows == limit) ≡ true
      → all_rows records >>= behind rows ≡ ok rows
  full-nil rows [] h e = ap ok (append-nil rows)
  full-nil rows (r ∷ records) h e = absurd (ground arith)

  next_rows-all_rows :
      (rows : List ListDecision) (records : List DecisionRecord)
      → length rows + length records ≤ limit
      → collect_from_rows since_ms until_ms limit rows records ≡ all_rows records >>= behind rows
      → next_rows rows records ≡ all_rows records >>= behind rows
  next_rows-all_rows rows records h ih = elim (Bool-cases (length rows == limit)) [
    | inl t ↦ rw (next_rows, t) (sym (full-nil rows records h t))
    | inr f ↦ rw (next_rows, f) ih
  ]

  row_in_front :
      (rows : List ListDecision) (row : ListDecision) (new : Result Error (List ListDecision))
      → new >>= behind (rows ++ row ∷ []) ≡ (new >>= λ l. ok (row ∷ l)) >>= behind rows
  row_in_front rows row (err why) = refl
  row_in_front rows row (ok l) = ap ok (append_assoc rows (row ∷ []) l)

  round :
      (made : Result Error ListDecision) (rows : List ListDecision) (records : List DecisionRecord)
      → length rows + suc (length records) ≤ limit
      → ((row : ListDecision)
          → collect_from_rows since_ms until_ms limit (rows ++ row ∷ []) records
            ≡ all_rows records >>= behind (rows ++ row ∷ []))
      → made >>= (λ row. next_rows (rows ++ row ∷ []) records)
        ≡ (made >>= λ row. all_rows records >>= λ l. ok (row ∷ l)) >>= behind rows
  round (err why) rows records h ih = refl
  round (ok row) rows records h ih =
      next_rows-all_rows (rows ++ row ∷ []) records
        (rw (length-append rows (row ∷ [])) (omega arith)) (ih row)
      ∙ row_in_front rows row (all_rows records)

  collect_from_rows-all_rows :
      (rows : List ListDecision) (records : List DecisionRecord)
      → length rows + length records ≤ limit
      → All Matches records
      → collect_from_rows since_ms until_ms limit rows records ≡ all_rows records >>= behind rows
  unfolding collect_from_rows
  collect_from_rows-all_rows rows [] h a = ap ok (sym (append-nil rows))
  collect_from_rows-all_rows rows (r ∷ records) h a =
      rw (collect_from_rows, a.0)
        (round (list_decision r) rows records h λ row.
          collect_from_rows-all_rows (rows ++ row ∷ []) records
            (rw (length-append rows (row ∷ [])) (omega arith)) a.1)

  -- All records that are read match.
  cons_if-Matches :
      (r : DecisionRecord) (records : List DecisionRecord)
      → All Matches records
      → All Matches (cons_if r (time_matches r since_ms until_ms) records)
  cons_if-Matches r records a = elim (Bool-cases (time_matches r since_ms until_ms)) [
    | inl t ↦ rw (cons_if, t) (t, a)
    | inr f ↦ rw (cons_if, f) a
  ]

  selected-Matches :
      (reads : List ReadResult)
      → (records : List DecisionRecord) × (selected (matches_time since_ms until_ms) reads
          ≡ ok records)
        × All Matches records
  selected-Matches [] = ([], refl, tt)
  selected-Matches (vanished ∷ reads) = selected-Matches reads
  selected-Matches (invalid filename error ∷ reads) = selected-Matches reads
  selected-Matches (found r ∷ reads) =
      let (records, e, a) = selected-Matches reads in
      (cons_if r (time_matches r since_ms until_ms) records, rw e refl, cons_if-Matches r records a)

  sort_onto-Matches :
      (sorted records : List DecisionRecord)
      → All Matches sorted
      → All Matches records
      → All Matches (sort_onto sorted records)
  unfolding sort_onto
  sort_onto-Matches sorted [] a b = a
  sort_onto-Matches sorted (r ∷ records) a b =
      sort_onto-Matches (insert_newest r sorted) records (All-insert_newest Matches r sorted b.0 a)
        b.1

  abbrev pub listing :
      List SkippedRecord
      → Bool
      → List ListDecision
      → Result Error (List ListDecision × List SkippedRecord × Bool)
  listing skipped has_more rows = ok (rows, skipped, has_more)

  -- What `run_list` does with what is loaded.
  abbrev rows_of :
      List DecisionRecord × List SkippedRecord × Bool
      → Result Error (List ListDecision × List SkippedRecord × Bool)
  rows_of loaded = collect_list_decisions loaded.0 since_ms until_ms limit >>= λ decisions.
      listing loaded.1 loaded.2 decisions

  from_none :
      (rows : Result Error (List ListDecision)) (skipped : List SkippedRecord) (has_more : Bool)
      → (rows >>= behind []) >>= listing skipped has_more ≡ rows >>= listing skipped has_more
  from_none (err why) skipped has_more = refl
  from_none (ok l) skipped has_more = refl

  -- A listing has a row for each of the newest records in the window, up to the limit, in the order of
  -- the newest, and it tells what was skipped and whether there are more records in the window.
  pub run_list-all_rows :
      (reads : List ReadResult)
      → (records : List DecisionRecord) × (selected (matches_time since_ms until_ms) reads
          ≡ ok records)
        × (run_list since_ms until_ms limit reads ≡ (
            all_rows (take limit (sort_records_newest_first records))
            >>= listing (skipped_of reads) (ltb limit (length records))))
  unfolding run_list collect_list_decisions sort_records_newest_first
  run_list-all_rows reads =
      let (records, e, a) = selected-Matches reads in
      let shown = take limit (sort_onto [] records) in
      let fits : 0 + length shown ≤ limit =
        rw (length-take limit (sort_onto [] records)) (omega arith) in
      let loaded : load_bounded_records limit (matches_time since_ms until_ms) reads
          ≡ ok (shown, skipped_of reads, ltb limit (length records)) =
        load_bounded_records-newest limit (matches_time since_ms until_ms) reads ∙ rw e refl in
      let rows : collect_from_rows since_ms until_ms limit [] shown ≡ all_rows shown >>= behind [] =
        collect_from_rows-all_rows [] shown fits
          (All-take Matches limit (sort_onto [] records) (sort_onto-Matches [] records tt a)) in
      (
        records,
        e,
        ap (λ l. l >>= rows_of) loaded
            ∙ (ap (λ l. l >>= listing (skipped_of reads) (ltb limit (length records))) rows
                ∙ from_none (all_rows shown) (skipped_of reads) (ltb limit (length records))),
      )
