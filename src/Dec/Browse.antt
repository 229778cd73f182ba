-- ===== src/Dec/Browse.antt =====
-- The selection of records for list, search and export, tools/src/pira_dec/lib.rs. What is read of each
-- path of the store is an input, in the order of the directory; a regular expression is its match
-- test. The heap is the list of what it holds, the newest first.
pub mod Ordered
pub mod Newest
pub mod Shown
pub mod Rows
mod Tests
use pira.Common.{
  ℕ, zero, suc, ◌+◌, Bool, true, false, ◌&&◌, ◌||◌, List, [], ◌∷◌, ◌++◌, Option, none, some, ltb,
  leb, ◌==◌, any, if◌then◌else◌, Text, Result, ok, err, ◌>>=◌, codes, length,
}
use pira.Dec.Error.{Error}
use pira.Dec.Model.{Maker, human, agent, DecisionRecord, selected_text}
use pira.Dec.Time.{format_rfc3339}

-- What `visit_records` has of a path: a record, a file that has gone, or one that is no record, with its
-- name and the error clipped as they are reported.
pub data ReadResult : Type 0 where
  found : DecisionRecord → ReadResult
  vanished : ReadResult
  invalid : Text → Text → ReadResult

pub record SkippedRecord : Type 0 where
  pub filename : Text
  pub error : Text

-- `visit_records`, behind the records that have been skipped. Its warnings are left out.
module _ {S : Type 0} (visit : S → DecisionRecord → Result Error S) where
  unfoldable pub visit_records :
      S → List SkippedRecord → List ReadResult → Result Error (S × List SkippedRecord)
  visit_records s skipped [] = ok (s, skipped)
  visit_records s skipped (found r ∷ reads) = visit s r >>= λ s'. visit_records s' skipped reads
  visit_records s skipped (vanished ∷ reads) = visit_records s skipped reads
  visit_records s skipped (invalid filename error ∷ reads) =
      visit_records s (skipped ++ record { filename = filename; error = error } ∷ []) reads

unfoldable pub time_matches : DecisionRecord → Option ℕ → Option ℕ → Bool
time_matches r since_ms until_ms =
    elim since_ms [ none ↦ true | some since ↦ leb since r.timestamp_ms ]
    && elim until_ms [ none ↦ true | some until ↦ ltb r.timestamp_ms until ]

-- `<` on strings.
unfoldable pub text_lt : Text → Text → Bool
text_lt s [] = false
text_lt [] (d ∷ t) = true
text_lt (c ∷ s) (d ∷ t) = ltb c d || c == d && text_lt s t

-- The order of `RankedRecord`, by time and then by the identifier.
unfoldable pub newer : DecisionRecord → DecisionRecord → Bool
unfolding text_lt
newer r s =
    ltb s.timestamp_ms r.timestamp_ms || s.timestamp_ms == r.timestamp_ms && text_lt s.id r.id

unfoldable pub insert_newest : DecisionRecord → List DecisionRecord → List DecisionRecord
unfolding newer
insert_newest r [] = r ∷ []
insert_newest r (s ∷ records) =
    let rest = insert_newest r records in if newer r s then r ∷ s ∷ records else s ∷ rest

-- A stable sort: a record comes behind those before it that are not older.
unfoldable pub sort_onto : List DecisionRecord → List DecisionRecord → List DecisionRecord
unfolding insert_newest
sort_onto sorted [] = sorted
sort_onto sorted (r ∷ records) = sort_onto (insert_newest r sorted) records

unfoldable pub sort_records_newest_first : List DecisionRecord → List DecisionRecord
unfolding sort_onto
sort_records_newest_first = sort_onto []

-- `heap.pop()`
unfoldable pub pop_oldest : List DecisionRecord → List DecisionRecord
pop_oldest [] = []
pop_oldest (r ∷ []) = []
pop_oldest (r ∷ s ∷ records) = r ∷ pop_oldest (s ∷ records)

unfoldable pub retain_newest : List DecisionRecord → DecisionRecord → ℕ → List DecisionRecord
unfolding insert_newest pop_oldest
retain_newest heap r limit =
    let pushed = insert_newest r heap in
    if ltb limit (length pushed) then pop_oldest pushed else pushed

-- The heap and the number of matches.
abbrev pub retain_if : ℕ → List DecisionRecord × ℕ → DecisionRecord → Bool → List DecisionRecord × ℕ
retain_if limit (heap, total) r true = (retain_newest heap r limit, total + 1)
retain_if limit (heap, total) r false = (heap, total)

-- The records, what was skipped, and whether there are more.
unfoldable pub load_bounded_records :
    ℕ
    → (DecisionRecord → Result Error Bool)
    → List ReadResult
    → Result Error (List DecisionRecord × List SkippedRecord × Bool)
unfolding visit_records retain_newest sort_records_newest_first
load_bounded_records limit matches reads =
    visit_records (λ state r. matches r >>= λ b. ok (retain_if limit state r b)) ([], 0) [] reads
    >>= λ visited. ok (sort_records_newest_first visited.0.0, visited.1, ltb limit visited.0.1)

abbrev pub matches_time : Option ℕ → Option ℕ → DecisionRecord → Result Error Bool
matches_time since_ms until_ms r = ok (time_matches r since_ms until_ms)

abbrev pub push_if : List DecisionRecord → DecisionRecord → Bool → List DecisionRecord
push_if records r true = records ++ r ∷ []
push_if records r false = records

unfoldable pub load_export_records :
    Option ℕ
    → Option ℕ
    → Option ℕ
    → List ReadResult
    → Result Error (List DecisionRecord × List SkippedRecord)
unfolding load_bounded_records time_matches visit_records sort_records_newest_first
load_export_records since_ms until_ms (some limit) reads =
    load_bounded_records limit (matches_time since_ms until_ms) reads >>= λ loaded.
    ok (loaded.0, loaded.1)
load_export_records since_ms until_ms none reads =
    visit_records (λ records r. ok (push_if records r (time_matches r since_ms until_ms))) [] []
      reads
    >>= λ visited. ok (sort_records_newest_first visited.0, visited.1)

pub record ListDecision : Type 0 where
  pub id : Text
  pub timestamp : Text
  pub decision : Text

abbrev pub list_decision : DecisionRecord → Result Error ListDecision
list_decision r = do
  timestamp ← format_rfc3339 r.timestamp_ms
  decision ← selected_text r
  ok (record { id = r.id; timestamp = timestamp; decision = decision })

-- The loop, behind the rows that there are.
unfoldable pub collect_from_rows :
    Option ℕ
    → Option ℕ
    → ℕ
    → List ListDecision
    → List DecisionRecord
    → Result Error (List ListDecision)
unfolding time_matches selected_text format_rfc3339
collect_from_rows since_ms until_ms limit rows [] = ok rows
collect_from_rows since_ms until_ms limit rows (r ∷ records) =
    elim (time_matches r since_ms until_ms) [
      | false ↦ collect_from_rows since_ms until_ms limit rows records
      | true ↦ list_decision r >>= λ row.
          let rows' = rows ++ row ∷ [] in
          elim (length rows' == limit) [
            | true ↦ ok rows'
            | false ↦ collect_from_rows since_ms until_ms limit rows' records
          ]
    ]

unfoldable pub collect_list_decisions :
    List DecisionRecord → Option ℕ → Option ℕ → ℕ → Result Error (List ListDecision)
unfolding collect_from_rows
collect_list_decisions records since_ms until_ms limit =
    collect_from_rows since_ms until_ms limit [] records

-- `run_list` from the window that `parse_time_window` gives: the rows, what was skipped, and whether there
-- are more.
unfoldable pub run_list :
    Option ℕ
    → Option ℕ
    → ℕ
    → List ReadResult
    → Result Error (List ListDecision × List SkippedRecord × Bool)
unfolding load_bounded_records collect_list_decisions
run_list since_ms until_ms limit reads = do
  loaded ← load_bounded_records limit (matches_time since_ms until_ms) reads
  decisions ← collect_list_decisions loaded.0 since_ms until_ms limit
  ok (decisions, loaded.1, loaded.2)

-- `DecisionMaker::as_str`
abbrev pub maker_text : Maker → Text
maker_text human = codes "human"
maker_text agent = codes "agent"

pub data SearchField : Type 0 where
  id_field context_field choice_field decision_field maker_field relation_field timestamp_field :
      SearchField

-- `as_deref().is_some_and(…)`
abbrev pub some_and : Option Text → (Text → Bool) → Bool
some_and none is_match = false
some_and (some id) is_match = is_match id

unfoldable pub record_matches : DecisionRecord → SearchField → (Text → Bool) → Result Error Bool
unfolding selected_text format_rfc3339
record_matches r id_field is_match = ok (is_match r.id)
record_matches r context_field is_match = ok (is_match r.context)
record_matches r choice_field is_match = ok (any is_match r.choices)
record_matches r decision_field is_match = selected_text r >>= λ text. ok (is_match text)
record_matches r maker_field is_match = ok (is_match (maker_text r.maker))
record_matches r relation_field is_match =
    ok (some_and r.supersedes is_match || any is_match r.related)
record_matches r timestamp_field is_match =
    format_rfc3339 r.timestamp_ms >>= λ text. ok (is_match text)

-- What `run_search` asks of a record, of a field, of the context and the choices, or of nothing.
unfoldable pub search_matches :
    Option (Option SearchField × (Text → Bool))
    → Option ℕ
    → Option ℕ
    → DecisionRecord
    → Result Error Bool
unfolding time_matches record_matches
search_matches expression since_ms until_ms r =
    let asked : Result Error Bool = elim expression [
      | none ↦ ok true
      | some (some field, is_match) ↦ record_matches r field is_match
      | some (none, is_match) ↦ ok (is_match r.context || any is_match r.choices)
    ] in
    if time_matches r since_ms until_ms then asked else ok false
