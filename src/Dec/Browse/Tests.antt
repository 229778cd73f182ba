-- ===== src/Dec/Browse/Tests.antt =====
-- The selection of decision records (tools/src/pira_dec/lib.rs) on three records.
use mathlib.Core.List.{Perm}
use pira.Common.{ℕ, ◌≡◌, refl, true, List, [], ◌∷◌, none, some, ltb, length, take, ok, ◌>>=◌, codes}
use pira.Dec.Model.{human, DecisionRecord}
use pira.Dec.Browse.{
  ReadResult, found, vanished, invalid, time_matches, matches_time, sort_records_newest_first,
  load_bounded_records, load_export_records, run_list,
}
use pira.Dec.Browse.Newest.{selected, skipped_of, load_bounded_records-newest}
use pira.Dec.Browse.Ordered.{Descending, sort_records_newest_first-Descending}
use pira.Dec.Browse.Rows.{all_rows, listing, run_list-all_rows}
use pira.Dec.Browse.Shown.{firsts, load_export_records-limit}

abbrev at : ℕ → DecisionRecord
at timestamp_ms = record {
  id = codes "D";
  timestamp_ms = timestamp_ms;
  context = codes "Choose.";
  choices = codes "This." ∷ codes "That." ∷ [];
  decision = 1;
  maker = human;
  supersedes = none;
  related = [];
}

-- The directory is in no order.
abbrev three_reads : List ReadResult
three_reads =
    found (at 2_000)
    ∷ invalid (codes "D-1.piradec") (codes "not a file")
    ∷ found (at 3_000)
    ∷ vanished
    ∷ found (at 1_000)
    ∷ []

two_newest :
    load_bounded_records 2 (matches_time none none) three_reads
    ≡ ok (at 3_000 ∷ at 2_000 ∷ [], skipped_of three_reads, true)
unfolding load_bounded_records time_matches
two_newest = refl

load_bounded_records-newest_example :
    load_bounded_records 2 (matches_time none none) three_reads ≡ (
      selected (matches_time none none) three_reads >>= λ records.
      ok (
        take 2 (sort_records_newest_first records),
        skipped_of three_reads,
        ltb 2 (length records),
      ))
load_bounded_records-newest_example =
    load_bounded_records-newest 2 (matches_time none none) three_reads

load_export_records-limit_example :
    load_export_records (some 1_500) none (some 1) three_reads
    ≡ load_export_records (some 1_500) none none three_reads >>= firsts 1
load_export_records-limit_example = load_export_records-limit (some 1_500) none 1 three_reads

run_list-all_rows_example :
    (records : List DecisionRecord) × (selected (matches_time (some 1_500) none) three_reads
      ≡ ok records)
    × (run_list (some 1_500) none 1 three_reads
        ≡ all_rows (take 1 (sort_records_newest_first records))
          >>= listing (some 1_500) none 1 (skipped_of three_reads) (ltb 1 (length records)))
run_list-all_rows_example = run_list-all_rows (some 1_500) none 1 three_reads

sort_records_newest_first-Descending_example :
    Descending (sort_records_newest_first (at 1_000 ∷ at 2_000 ∷ []))
    × Perm (sort_records_newest_first (at 1_000 ∷ at 2_000 ∷ [])) (at 1_000 ∷ at 2_000 ∷ [])
sort_records_newest_first-Descending_example =
    sort_records_newest_first-Descending (at 1_000 ∷ at 2_000 ∷ [])
