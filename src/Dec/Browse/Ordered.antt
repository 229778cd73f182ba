-- ===== src/Dec/Browse/Ordered.antt =====
-- The order of decision records (tools/src/pira_dec/lib.rs): newest first, no record lost or made.
use mathlib.Core.List.{Perm, perm_middle}
use mathlib.Core.List.Perm
use pira.Common.{
  ℕ, zero, suc, ◌≡◌, refl, sym, ap, ◌∙◌, subst, Bool, true, false, List, [], ◌∷◌, ◌++◌,
  append_assoc, append-nil, All, All-take, take, Text, Bool-cases, inl, inr, arith,
}
use pira.Dec.Model.{DecisionRecord}
use pira.Dec.Browse.{text_lt, newer, insert_newest, sort_onto, sort_records_newest_first}

pub text_lt_asym : (s t : Text) → text_lt s t ≡ true → text_lt t s ≡ false
unfolding text_lt
text_lt_asym [] (d ∷ t) h = refl
text_lt_asym s [] h = absurd cc
text_lt_asym (c ∷ s) (d ∷ t) h = ground (arith, text_lt_asym s t)

pub text_lt_trans : (s t u : Text) → text_lt s t ≡ true → text_lt t u ≡ true → text_lt s u ≡ true
unfolding text_lt
text_lt_trans s t [] h k = absurd cc
text_lt_trans s [] u h k = absurd cc
text_lt_trans [] (d ∷ t) (e ∷ u) h k = refl
text_lt_trans (c ∷ s) (d ∷ t) (e ∷ u) h k = ground (arith, text_lt_trans s t u)

newer_asym : (r s : DecisionRecord) → newer r s ≡ true → newer s r ≡ false
unfolding newer
newer_asym r s h = ground (arith, text_lt_asym s.id r.id)

newer_trans : (r s t : DecisionRecord) → newer r s ≡ true → newer s t ≡ true → newer r t ≡ true
unfolding newer
newer_trans r s t h k = ground (arith, text_lt_trans t.id s.id r.id)

-- No later record is newer.
abbrev pub Descending : List DecisionRecord → Type 0
Descending [] = Unit {0}
Descending (r ∷ records) = All (λ s. newer s r ≡ false) records × Descending records

-- A record that is newer than one is newer than all that are not newer than that one.
behind_newer : (r s t : DecisionRecord) → newer r s ≡ true → newer t s ≡ false → newer t r ≡ false
behind_newer r s t h k = elim (Bool-cases (newer t r)) [
  | inl n ↦ absurd (clash (newer_trans t r s n h) k)
  | inr n ↦ n
]
  where
    clash : {b : Bool} → b ≡ true → b ≡ false → ⊥
    clash h k = cc

All-newer :
    (r s : DecisionRecord) (records : List DecisionRecord)
    → newer r s ≡ true
    → All (λ t. newer t s ≡ false) records
    → All (λ t. newer t r ≡ false) records
All-newer r s [] h a = tt
All-newer r s (t ∷ records) h a = (behind_newer r s t h a.0, All-newer r s records h a.1)

pub All-insert_newest :
    (P : DecisionRecord → Type 0) (r : DecisionRecord) (records : List DecisionRecord)
    → P r
    → All P records
    → All P (insert_newest r records)
unfolding insert_newest
All-insert_newest P r [] p a = (p, tt)
All-insert_newest P r (s ∷ records) p a = elim (Bool-cases (newer r s)) [
  | inl t ↦ rw (insert_newest, t) (p, a)
  | inr f ↦ rw (insert_newest, f) (a.0, All-insert_newest P r records p a.1)
]

insert_newest-Descending :
    (r : DecisionRecord) (records : List DecisionRecord)
    → Descending records
    → Descending (insert_newest r records)
unfolding insert_newest
insert_newest-Descending r [] d = (tt, tt)
insert_newest-Descending r (s ∷ records) d = elim (Bool-cases (newer r s)) [
  | inl t ↦ rw (insert_newest, t) ((newer_asym r s t, All-newer r s records t d.0), d)
  | inr f ↦
      rw (insert_newest, f)
        (
          All-insert_newest (λ t. newer t s ≡ false) r records f d.0,
          insert_newest-Descending r records d.1,
        )
]

pub sort_onto-Descending :
    (sorted records : List DecisionRecord)
    → Descending sorted
    → Descending (sort_onto sorted records)
unfolding sort_onto
sort_onto-Descending sorted [] d = d
sort_onto-Descending sorted (r ∷ records) d =
    sort_onto-Descending (insert_newest r sorted) records (insert_newest-Descending r sorted d)

insert_newest-perm :
    (r : DecisionRecord) (records : List DecisionRecord)
    → Perm (insert_newest r records) (r ∷ records)
unfolding insert_newest
insert_newest-perm r [] = Perm.refl (r ∷ [])
insert_newest-perm r (s ∷ records) = elim (Bool-cases (newer r s)) [
  | inl t ↦ rw (insert_newest, t) (Perm.refl (r ∷ s ∷ records))
  | inr f ↦
      rw (insert_newest, f)
        (Perm.trans (Perm.cons s (insert_newest-perm r records)) (Perm.swap r s records))
]

sort_onto-perm :
    (sorted records : List DecisionRecord) → Perm (sort_onto sorted records) (records ++ sorted)
unfolding sort_onto
sort_onto-perm sorted [] = Perm.refl sorted
sort_onto-perm sorted (r ∷ records) = Perm.trans (sort_onto-perm (insert_newest r sorted) records) (
    Perm.trans (Perm.append_left records (insert_newest-perm r sorted))
      (perm_middle records sorted))

-- The sort reorders the records, so that no later one is newer.
pub sort_records_newest_first-Descending :
    (records : List DecisionRecord)
    → Descending (sort_records_newest_first records)
      × Perm (sort_records_newest_first records) records
unfolding sort_records_newest_first
sort_records_newest_first-Descending records = (
  sort_onto-Descending [] records tt,
  subst (Perm (sort_onto [] records)) (append-nil records) (sort_onto-perm [] records),
)

-- A list in order is sorted to itself.
insert_newest-last :
    (r : DecisionRecord) (records : List DecisionRecord)
    → All (λ s. newer r s ≡ false) records
    → insert_newest r records ≡ records ++ r ∷ []
unfolding insert_newest
insert_newest-last r [] a = refl
insert_newest-last r (s ∷ records) a =
    rw (insert_newest, a.0) (ap (◌∷◌ s) (insert_newest-last r records a.1))

All-middle :
    (P : DecisionRecord → Type 0) (firsts : List DecisionRecord) (r : DecisionRecord)
    (records : List DecisionRecord)
    → All P (firsts ++ r ∷ records)
    → P r
All-middle P [] r records a = a.0
All-middle P (s ∷ firsts) r records a = All-middle P firsts r records a.1

Descending-middle :
    (firsts : List DecisionRecord) (r : DecisionRecord) (records : List DecisionRecord)
    → Descending (firsts ++ r ∷ records)
    → All (λ s. newer r s ≡ false) firsts
Descending-middle [] r records d = tt
Descending-middle (s ∷ firsts) r records d = (
  All-middle (λ t. newer t s ≡ false) firsts r records d.0,
  Descending-middle firsts r records d.1,
)

pub sort_onto-same :
    (firsts records : List DecisionRecord)
    → Descending (firsts ++ records)
    → sort_onto firsts records ≡ firsts ++ records
unfolding sort_onto
sort_onto-same firsts [] d = sym (append-nil firsts)
sort_onto-same firsts (r ∷ records) d =
    let next : (firsts ++ r ∷ []) ++ records ≡ firsts ++ r ∷ records =
      append_assoc firsts (r ∷ []) records in
    rw (insert_newest-last r firsts (Descending-middle firsts r records d))
      (sort_onto-same (firsts ++ r ∷ []) records (subst Descending (sym next) d) ∙ next)

pub take-Descending :
    (n : ℕ) (records : List DecisionRecord) → Descending records → Descending (take n records)
take-Descending zero records d = tt
take-Descending (suc n) [] d = tt
take-Descending (suc n) (r ∷ records) d =
    (All-take (λ s. newer s r ≡ false) n records d.0, take-Descending n records d.1)
