-- ===== src/Ctx/Plan/Rows.antt =====
-- What the steps of a plan do with rows, tools/src/pira_ctx/transform.rs.
use pira.Common.{
  ℕ, zero, suc, ◌+◌, ◌-◌, min, Bool, false, ◌&&◌, ◌||◌, List, [], ◌∷◌, ◌++◌, map, Option, none,
  some, leb, if◌then◌else◌, Text, length, drop, starts_with, list_eq,
}
use pira.Common.Chars.{decimal}
use pira.Dec.Browse.{text_lt}
use pira.Dec.Model.{contains}
use pira.Ctx.Stdout.{StreamKind}

pub record Row : Type 0 where
  pub text : Text
  pub stream : StreamKind

-- `rows.into_iter().map(|r| r.text).collect()`
abbrev pub texts_of : List Row → List Text
texts_of [] = []
texts_of (r ∷ rows) = r.text ∷ texts_of rows

-- `Vec::into_iter().filter`, also of `retain`.
unfoldable pub select : (Row → Bool) → List Row → List Row
select p [] = []
select p (r ∷ rows) = let rest = select p rows in if p r then r ∷ rest else rest

unfoldable pub unique_from : List Text → List Row → List Row
unfolding contains
unique_from seen [] = []
unique_from seen (r ∷ rows) =
    let fresh = unique_from (r.text ∷ seen) rows in
    let rest = unique_from seen rows in if contains r.text seen then rest else r ∷ fresh

unfoldable pub unique : List Row → List Row
unfolding unique_from
unique rows = unique_from [] rows

-- `rows.drain(..rows.len().saturating_sub(n))`
abbrev pub last_rows : ℕ → List Row → List Row
last_rows n rows = drop (length rows - n) rows

-- The indices that the matches put into `keep`, from one match's range to the next.
abbrev pub in_range : ℕ → ℕ → ℕ → Bool
in_range first last i = leb first i && leb i last

-- Whether the loop over the rows from an index on keeps row `i` of `count` rows.
unfoldable pub is_kept : (Row → Bool) → ℕ → ℕ → ℕ → ℕ → List Row → ℕ → Bool
is_kept p before after count index [] i = false
is_kept p before after count index (r ∷ rows) i =
    (p r && in_range (index - before) (min (index + after) (count - 1)) i)
    || is_kept p before after count (suc index) rows i

-- The rows whose index is kept.
unfoldable pub keep_indices : (ℕ → Bool) → ℕ → List Row → List Row
keep_indices keep index [] = []
keep_indices keep index (r ∷ rows) =
    let rest = keep_indices keep (suc index) rows in if keep index then r ∷ rest else rest

unfoldable pub context_rows : (Row → Bool) → ℕ → ℕ → List Row → List Row
unfolding keep_indices is_kept
context_rows p before after rows = keep_indices (is_kept p before after (length rows) 0 rows) 0 rows

-- A stable sort, by a test whether one row belongs behind another.
unfoldable pub insert_row : (Row → Row → Bool) → Row → List Row → List Row
insert_row behind r [] = r ∷ []
insert_row behind r (s ∷ rows) =
    let rest = insert_row behind r rows in if behind r s then s ∷ rest else r ∷ s ∷ rows

unfoldable pub sort_rows : (Row → Row → Bool) → List Row → List Row
unfolding insert_row
sort_rows behind [] = []
sort_rows behind (r ∷ rows) = insert_row behind r (sort_rows behind rows)

-- `*counts.entry(text).or_insert(0) += 1` of a map that is kept in order.
abbrev pub Counts : Type 0
Counts = List (Text × ℕ)

unfoldable pub add_one : Text → Counts → Counts
unfolding text_lt
add_one text [] = (text, 1) ∷ []
add_one text ((key, n) ∷ counts) =
    let rest = add_one text counts in
    if list_eq text key
    then (key, suc n) ∷ counts
    else if text_lt text key
    then (text, 1) ∷ (key, n) ∷ counts
    else (key, n) ∷ rest

unfoldable pub count_texts : List Row → Counts → Counts
unfolding add_one
count_texts [] counts = counts
count_texts (r ∷ rows) counts = count_texts rows (add_one r.text counts)

abbrev pub count_line : Text × ℕ → Text
count_line (text, n) = decimal n ++ 9 ∷ text

-- `str::split` with a delimiter that is not empty; what is left of a delimiter is passed over.
abbrev pub onto_first : ℕ → List Text → List Text
onto_first c [] = (c ∷ []) ∷ []
onto_first c (s ∷ pieces) = (c ∷ s) ∷ pieces

unfoldable pub split_by : Text → ℕ → Text → List Text
split_by delimiter n [] = [] ∷ []
split_by delimiter (suc n) (c ∷ s) = split_by delimiter n s
split_by delimiter zero (c ∷ s) =
    let behind = split_by delimiter (length delimiter - 1) s in
    let within = split_by delimiter 0 s in
    if starts_with delimiter (c ∷ s) then [] ∷ behind else onto_first c within

-- The empty delimiter splits in front of every character and at the end.
unfoldable pub split : Text → Text → List Text
unfolding split_by
split [] s = [] ∷ (map (λ c. c ∷ []) s ++ [] ∷ [])
split (d ∷ delimiter) s = split_by (d ∷ delimiter) 0 s

abbrev pub or_empty : Option Text → Text
or_empty none = []
or_empty (some s) = s
