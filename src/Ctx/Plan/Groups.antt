-- ===== src/Ctx/Plan/Groups.antt =====
-- The step `group_count` of a plan (tools/src/pira_ctx/transform.rs): its counts, and their order.
use pira.Common.{
  ℕ, suc, ◌+◌, ◌≡◌, refl, sym, subst, true, false, List, [], ◌∷◌, if◌then◌else◌, Text, list_eq,
  list_eq_iff, Bool-cases, inl, inr, arith,
}
use pira.Dec.Browse.{text_lt}
use pira.Dec.Browse.Ordered.{text_lt_asym, text_lt_trans}
use pira.Ctx.Plan.Rows.{Row, texts_of, Counts, add_one, count_texts}

-- How often a text stands in a list.
abbrev pub occurrences : Text → List Text → ℕ
occurrences t [] = 0
occurrences t (s ∷ texts) = let rest = occurrences t texts in if list_eq t s then suc rest else rest

-- What the counts hold for a text.
abbrev pub count_of : Text → Counts → ℕ
count_of t [] = 0
count_of t ((key, n) ∷ counts) = let rest = count_of t counts in if list_eq t key then n else rest

-- Every key is behind a text.
abbrev pub Above : Text → Counts → Type 0
Above t [] = Unit {0}
Above t ((key, n) ∷ counts) = (text_lt t key ≡ true) × Above t counts

abbrev pub Ascending : Counts → Type 0
Ascending [] = Unit {0}
Ascending ((key, n) ∷ counts) = Above key counts × Ascending counts

text_lt_total : (s t : Text) → list_eq s t ≡ false → text_lt s t ≡ false → text_lt t s ≡ true
unfolding text_lt list_eq
text_lt_total [] [] e h = absurd cc
text_lt_total [] (d ∷ t) e h = absurd cc
text_lt_total (c ∷ s) [] e h = refl
text_lt_total (c ∷ s) (d ∷ t) e h = ground (arith, text_lt_total s t)

text_lt-ne : (s t : Text) → text_lt s t ≡ true → list_eq s t ≡ false
text_lt-ne s t h = elim (Bool-cases (list_eq s t)) [
  | inl e ↦ absurd (clash ((list_eq_iff s t).0 e))
  | inr f ↦ f
]
  where
    clash : s ≡ t → ⊥
    clash e =
        let same : text_lt s s ≡ true = subst (λ x. text_lt s x ≡ true) (sym e) h in
        let other = text_lt_asym s s same in cc

Above-trans : (s t : Text) (counts : Counts) → text_lt s t ≡ true → Above t counts → Above s counts
Above-trans s t [] h a = tt
Above-trans s t ((key, n) ∷ counts) h a =
    (text_lt_trans s t key h a.0, Above-trans s t counts h a.1)

count_of-Above : (t : Text) (counts : Counts) → Above t counts → count_of t counts ≡ 0
count_of-Above t [] a = refl
count_of-Above t ((key, n) ∷ counts) a = rw (text_lt-ne t key a.0) (count_of-Above t counts a.1)

add_one-Above :
    (s t : Text) (counts : Counts)
    → text_lt s t ≡ true
    → Above s counts
    → Above s (add_one t counts)
unfolding add_one
add_one-Above s t [] h a = (h, tt)
add_one-Above s t ((key, n) ∷ counts) h a = elim (Bool-cases (list_eq t key)) [
  | inl e ↦ rw (add_one, e) a
  | inr e ↦ elim (Bool-cases (text_lt t key)) [
    | inl l ↦ rw (add_one, e, l) (h, a)
    | inr l ↦ rw (add_one, e, l) (a.0, add_one-Above s t counts h a.1)
  ]
]

add_one-Ascending : (t : Text) (counts : Counts) → Ascending counts → Ascending (add_one t counts)
unfolding add_one
add_one-Ascending t [] a = (tt, tt)
add_one-Ascending t ((key, n) ∷ counts) a = elim (Bool-cases (list_eq t key)) [
  | inl e ↦ rw (add_one, e) a
  | inr e ↦ elim (Bool-cases (text_lt t key)) [
    | inl l ↦ rw (add_one, e, l) ((l, Above-trans t key counts l a.0), a)
    | inr l ↦
        rw (add_one, e, l)
          (add_one-Above key t counts (text_lt_total t key e l) a.0, add_one-Ascending t counts a.1)
  ]
]

count_of-add_one :
    (t s : Text) (counts : Counts)
    → Ascending counts
    → count_of t (add_one s counts)
      ≡ (if list_eq t s then suc (count_of t counts) else count_of t counts)
unfolding add_one
count_of-add_one t s [] a = refl
count_of-add_one t s ((key, n) ∷ counts) a =
    let rest = count_of-add_one t s counts a.1 in
    let none_yet : text_lt s key ≡ true → count_of s ((key, n) ∷ counts) ≡ 0 =
      λ l. count_of-Above s ((key, n) ∷ counts) (l, Above-trans s key counts l a.0) in
    ground (arith, list_eq_iff t s, list_eq_iff t key, list_eq_iff s key, rest, none_yet)

-- The counts that the rows are added to grow by how often each text stands in the rows.
count_texts-occurrences :
    (rows : List Row) (counts : Counts)
    → Ascending counts
    → Ascending (count_texts rows counts)
      × ((t : Text)
          → count_of t (count_texts rows counts)
            ≡ count_of t counts + occurrences t (texts_of rows))
unfolding count_texts
count_texts-occurrences [] counts a = (a, λ t. omega arith)
count_texts-occurrences (r ∷ rows) counts a =
    let (up, same) =
      count_texts-occurrences rows (add_one r.text counts) (add_one-Ascending r.text counts a) in
    (up, λ t. ground (arith, same t, count_of-add_one t r.text counts a))

-- The groups stand in ascending order, each text once, and the number of a text is how often it
-- stands in the rows.
pub count_texts-Ascending :
    (rows : List Row) (t : Text)
    → Ascending (count_texts rows [])
      × (count_of t (count_texts rows []) ≡ occurrences t (texts_of rows))
count_texts-Ascending rows t =
    let (up, same) = count_texts-occurrences rows [] tt in (up, omega (arith, same t))
