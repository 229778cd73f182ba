-- ===== src/Dec/Browse/Newest.antt =====
-- The records that a limit leaves are the newest (load_bounded_records and load_export_records of
-- tools/src/pira_dec/lib.rs).
use pira.Common.{
  ℕ, zero, suc, ◌+◌, min, ◌≤◌, ◌≡◌, refl, sym, ap, ap₂, ◌∙◌, subst, Bool, true, false, List, [],
  ◌∷◌, ◌++◌, append_assoc, append-nil, ltb, Result, ok, err, ◌>>=◌, length, length-take, take,
  Bool-cases, inl, inr, arith,
}
use pira.Dec.Error.{Error}
use pira.Dec.Model.{DecisionRecord}
use pira.Dec.Browse.{
  ReadResult, found, vanished, invalid, SkippedRecord, visit_records, newer, insert_newest,
  sort_onto, sort_records_newest_first, pop_oldest, retain_newest, retain_if, load_bounded_records,
}
use pira.Dec.Browse.Ordered.{sort_onto-Descending, sort_onto-same, take-Descending}

length-insert_newest :
    (r : DecisionRecord) (records : List DecisionRecord)
    → length (insert_newest r records) ≡ suc (length records)
unfolding insert_newest
length-insert_newest r [] = refl
length-insert_newest r (s ∷ records) = elim (Bool-cases (newer r s)) [
  | inl t ↦ rw (insert_newest, t) refl
  | inr f ↦ rw (insert_newest, f) (ap suc (length-insert_newest r records))
]

take-take_suc :
    (n : ℕ) (s : DecisionRecord) (records : List DecisionRecord)
    → take n (s ∷ take n records) ≡ take n (s ∷ records)
take-take_suc zero s records = refl
take-take_suc (suc n) s [] = refl
take-take_suc (suc n) s (r ∷ records) = ap (◌∷◌ s) (take-take_suc n r records)

-- What is not among the first of a list is not after a record is inserted.
take-insert_newest :
    (n : ℕ) (r : DecisionRecord) (records : List DecisionRecord)
    → take n (insert_newest r (take n records)) ≡ take n (insert_newest r records)
unfolding insert_newest
take-insert_newest zero r records = refl
take-insert_newest (suc n) r [] = refl
take-insert_newest (suc n) r (s ∷ records) = elim (Bool-cases (newer r s)) [
  | inl t ↦ rw (insert_newest, t) (ap (◌∷◌ r) (take-take_suc n s records))
  | inr f ↦ rw (insert_newest, f) (ap (◌∷◌ s) (take-insert_newest n r records))
]

pop_oldest-take :
    (n : ℕ) (records : List DecisionRecord)
    → length records ≡ suc n
    → pop_oldest records ≡ take n records
unfolding pop_oldest
pop_oldest-take n [] h = absurd (omega arith)
pop_oldest-take zero (r ∷ []) h = refl
pop_oldest-take (suc n) (r ∷ []) h = absurd (omega arith)
pop_oldest-take zero (r ∷ s ∷ records) h = absurd (omega arith)
pop_oldest-take (suc n) (r ∷ s ∷ records) h =
    ap (◌∷◌ r) (pop_oldest-take n (s ∷ records) (omega arith))

take_all : (n : ℕ) (records : List DecisionRecord) → length records ≤ n → take n records ≡ records
take_all zero [] h = refl
take_all zero (r ∷ records) h = absurd (omega arith)
take_all (suc n) [] h = refl
take_all (suc n) (r ∷ records) h = ap (◌∷◌ r) (take_all n records (omega arith))

retain_newest-take :
    (limit : ℕ) (r : DecisionRecord) (sorted : List DecisionRecord)
    → retain_newest (take limit sorted) r limit ≡ take limit (insert_newest r sorted)
unfolding retain_newest
retain_newest-take limit r sorted =
    let pushed = insert_newest r (take limit sorted) in
    let size : length pushed ≡ suc (min limit (length sorted)) =
      length-insert_newest r (take limit sorted) ∙ ap suc (length-take limit sorted) in
    elim (Bool-cases (ltb limit (length pushed))) [
      | inl t ↦
          rw (retain_newest, t)
            (pop_oldest-take limit pushed (ground (arith, size))
              ∙ take-insert_newest limit r sorted)
      | inr f ↦
          rw (retain_newest, f)
            (sym (take_all limit pushed (ground arith)) ∙ take-insert_newest limit r sorted)
    ]

-- The matching records, in the order in which they are read.
abbrev pub cons_if : DecisionRecord → Bool → List DecisionRecord → List DecisionRecord
cons_if r true records = r ∷ records
cons_if r false records = records

abbrev pub selected :
    (DecisionRecord → Result Error Bool) → List ReadResult → Result Error (List DecisionRecord)
selected matches [] = ok []
selected matches (found r ∷ reads) =
    matches r >>= λ b. selected matches reads >>= λ records. ok (cons_if r b records)
selected matches (vanished ∷ reads) = selected matches reads
selected matches (invalid filename error ∷ reads) = selected matches reads

abbrev pub skipped_of : List ReadResult → List SkippedRecord
skipped_of [] = []
skipped_of (found r ∷ reads) = skipped_of reads
skipped_of (vanished ∷ reads) = skipped_of reads
skipped_of (invalid filename error ∷ reads) =
    record { filename = filename; error = error } ∷ skipped_of reads

-- A record is put in front of the ones selected behind it.
put_in_front {ℓ} :
    {Y : Type ℓ} (r : DecisionRecord) (b : Bool) (behind : Result Error (List DecisionRecord))
    (f g : List DecisionRecord → Result Error Y)
    → ((records : List DecisionRecord) → f records ≡ g (cons_if r b records))
    → (behind >>= f) ≡ ((behind >>= λ records. ok (cons_if r b records)) >>= g)
put_in_front r b (err why) f g h = refl
put_in_front r b (ok records) f g h = h records

abbrev bounded_end :
    ℕ
    → List DecisionRecord
    → ℕ
    → List SkippedRecord
    → List DecisionRecord
    → Result Error ((List DecisionRecord × ℕ) × List SkippedRecord)
bounded_end limit sorted total skipped records =
    ok ((take limit (sort_onto sorted records), total + length records), skipped)

module _ (limit : ℕ) (matches : DecisionRecord → Result Error Bool) where
  abbrev visitor : List DecisionRecord × ℕ → DecisionRecord → Result Error (List DecisionRecord × ℕ)
  visitor state r = matches r >>= λ b. ok (retain_if limit state r b)

  retain_if-take :
      (sorted : List DecisionRecord) (total : ℕ) (r : DecisionRecord) (b : Bool)
      → retain_if limit (take limit sorted, total) r b
        ≡ (take limit (sort_onto sorted (cons_if r b [])), total + length (cons_if r b []))
  unfolding sort_onto
  retain_if-take sorted total r true =
      ap₂ (λ heap n. (heap, n)) (retain_newest-take limit r sorted) refl
  retain_if-take sorted total r false = ap₂ (λ heap n. (heap, n)) refl (omega arith)

  bounded_end-cons_if :
      (sorted : List DecisionRecord) (total : ℕ) (skipped : List SkippedRecord) (r : DecisionRecord)
      (b : Bool) (records : List DecisionRecord)
      → bounded_end limit
          (sort_onto sorted (cons_if r b []))
          (total + length (cons_if r b []))
          skipped
          records
        ≡ bounded_end limit sorted total skipped (cons_if r b records)
  unfolding sort_onto
  bounded_end-cons_if sorted total skipped r true records =
      let sum : total + 1 + length records ≡ total + suc (length records) = omega arith in
      rw sum refl
  bounded_end-cons_if sorted total skipped r false records =
      let sum : total + 0 + length records ≡ total + length records = omega arith in rw sum refl

  visit-found :
      (r : DecisionRecord) (m : Result Error Bool) (reads : List ReadResult)
      (sorted : List DecisionRecord) (total : ℕ) (skipped : List SkippedRecord)
      → ((b : Bool)
          → visit_records visitor
              (take limit (sort_onto sorted (cons_if r b [])), total + length (cons_if r b []))
              skipped
              reads
            ≡ (selected matches reads
                >>= bounded_end limit
                    (sort_onto sorted (cons_if r b []))
                    (total + length (cons_if r b []))
                    (skipped ++ skipped_of reads)))
      → ((m >>= λ b. ok (retain_if limit (take limit sorted, total) r b)) >>= λ state.
          visit_records visitor state skipped reads)
        ≡ ((m >>= λ b. selected matches reads >>= λ records. ok (cons_if r b records))
            >>= bounded_end limit sorted total (skipped ++ skipped_of reads))
  visit-found r (err why) reads sorted total skipped rest = refl
  visit-found r (ok b) reads sorted total skipped rest =
      ap (λ state. visit_records visitor state skipped reads) (retain_if-take sorted total r b)
      ∙ (rest b
          ∙ put_in_front r b (selected matches reads) _ _
              (bounded_end-cons_if sorted total (skipped ++ skipped_of reads) r b))

  visit-bounded :
      (reads : List ReadResult) (sorted : List DecisionRecord) (total : ℕ)
      (skipped : List SkippedRecord)
      → visit_records visitor (take limit sorted, total) skipped reads
        ≡ (selected matches reads >>= bounded_end limit sorted total (skipped ++ skipped_of reads))
  unfolding visit_records sort_onto
  visit-bounded [] sorted total skipped =
      let none_more : total + 0 ≡ total = omega arith in rw (append-nil skipped, none_more) refl
  visit-bounded (vanished ∷ reads) sorted total skipped = visit-bounded reads sorted total skipped
  visit-bounded (invalid filename error ∷ reads) sorted total skipped =
      visit-bounded reads sorted total
        (skipped ++ record { filename = filename; error = error } ∷ [])
      ∙ rw
          (append_assoc skipped (record { filename = filename; error = error } ∷ [])
            (skipped_of reads))
          refl
  visit-bounded (found r ∷ reads) sorted total skipped =
      visit-found r (matches r) reads sorted total skipped λ b.
        visit-bounded reads (sort_onto sorted (cons_if r b [])) (total + length (cons_if r b []))
          skipped

  abbrev told :
      (List DecisionRecord × ℕ) × List SkippedRecord
      → Result Error (List DecisionRecord × List SkippedRecord × Bool)
  told visited = ok (sort_records_newest_first visited.0.0, visited.1, ltb limit visited.0.1)

  told-first :
      (records : Result Error (List DecisionRecord)) (skipped : List SkippedRecord)
      → ((records >>= bounded_end limit [] 0 skipped) >>= told) ≡ (
          records >>= λ rs.
          ok (take limit (sort_records_newest_first rs), skipped, ltb limit (length rs)))
  unfolding sort_records_newest_first
  told-first (err why) skipped = refl
  told-first (ok records) skipped =
      let same : sort_onto [] (take limit (sort_onto [] records))
          ≡ take limit (sort_onto [] records) =
        sort_onto-same [] (take limit (sort_onto [] records))
          (take-Descending limit (sort_onto [] records) (sort_onto-Descending [] records tt)) in
      let all : 0 + length records ≡ length records = omega arith in rw (same, all) refl

  -- Whatever the limit, the records that are loaded are the first of all that match, in the order of
  -- the newest; what is skipped and whether there are more is told; and the first record for which
  -- the test fails is the error.
  pub load_bounded_records-newest :
      (reads : List ReadResult)
      → load_bounded_records limit matches reads ≡ (
          selected matches reads >>= λ records. ok (
            take limit (sort_records_newest_first records),
            skipped_of reads,
            ltb limit (length records),
          ))
  unfolding load_bounded_records sort_records_newest_first
  load_bounded_records-newest reads =
      let start : take limit [] ≡ [] = take_all limit [] (omega arith) in
      ap (λ visited. visited >>= told)
        (subst
          (λ heap.
            visit_records visitor (heap, 0) [] reads
            ≡ (selected matches reads >>= bounded_end limit [] 0 (skipped_of reads)))
          start (visit-bounded reads [] 0 []))
      ∙ told-first (selected matches reads) (skipped_of reads)
