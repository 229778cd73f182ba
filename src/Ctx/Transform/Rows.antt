-- ===== src/Ctx/Transform/Rows.antt =====
-- What a transform selects, said on all lines at once: the lines that the expressions let through, each
-- text once if so asked, the first ones, and of these the last ones or their number. It is the order of
-- `run` in tools/src/pira_ctx/transform.rs, where it materializes the lines.
use pira.Common.{
  ℕ, suc, ◌-◌, ◌≡◌, refl, Bool, true, false, List, [], ◌∷◌, Option, none, some, if◌then◌else◌, Text,
  length, take, drop, take-nil, arith,
}
use pira.Common.Chars.{decimal}
use pira.Dec.Model.{contains}
use pira.Ctx.Transform.{TransformOptions, Pattern, is_picked, reaches_head}

-- The texts that the expressions let through.
unfoldable pub picked : List Pattern → List Pattern → List Text → List Text
picked matches excludes [] = []
picked matches excludes (t ∷ texts) =
    let rest = picked matches excludes texts in
    if is_picked matches excludes t then t ∷ rest else rest

-- The texts that have not been seen.
unfoldable pub unseen : List Text → List Text → List Text
unfolding contains
unseen seen [] = []
unseen seen (t ∷ texts) =
    let fresh = unseen (t ∷ seen) texts in
    let rest = unseen seen texts in if contains t seen then rest else t ∷ fresh

-- Both, on the texts behind those that have been seen.
unfoldable pub candidates : Bool → List Pattern → List Pattern → List Text → List Text → List Text
unfolding picked unseen
candidates unique matches excludes seen texts =
    if unique then unseen seen (picked matches excludes texts) else picked matches excludes texts

-- As many as the head still lets through behind a number of lines.
abbrev pub heads : Option ℕ → ℕ → List Text → List Text
heads none selected texts = texts
heads (some n) selected texts = take (n - selected) texts

abbrev pub lasts : Option ℕ → List Text → List Text
lasts none texts = texts
lasts (some n) texts = drop (length texts - n) texts

-- The lines that a transform selects.
abbrev pub selection : TransformOptions → List Pattern → List Pattern → List Text → List Text
selection options matches excludes texts =
    lasts options.tail (heads options.head 0 (candidates options.unique matches excludes [] texts))

unfoldable pub chosen : TransformOptions → List Pattern → List Pattern → List Text → List Text
unfolding candidates decimal
chosen options matches excludes texts =
    let rows = selection options matches excludes texts in
    if options.count then decimal (length rows) ∷ [] else rows

-- A text in front, in each case.
module _ (matches excludes : List Pattern) (seen : List Text) (t : Text) (ts : List Text) where
  pub candidates_passed :
      (unique : Bool)
      → is_picked matches excludes t ≡ false
      → candidates unique matches excludes seen (t ∷ ts)
        ≡ candidates unique matches excludes seen ts
  unfolding candidates picked
  candidates_passed unique f = rw (candidates, picked, f) refl

  pub candidates_all :
      is_picked matches excludes t ≡ true
      → candidates false matches excludes seen (t ∷ ts)
        ≡ t ∷ candidates false matches excludes seen ts
  unfolding candidates picked
  candidates_all p = rw (candidates, picked, p) refl

  pub candidates_again :
      is_picked matches excludes t ≡ true
      → contains t seen ≡ true
      → candidates true matches excludes seen (t ∷ ts) ≡ candidates true matches excludes seen ts
  unfolding candidates picked unseen
  candidates_again p c = rw (candidates, picked, p, unseen, c) refl

  pub candidates_fresh :
      is_picked matches excludes t ≡ true
      → contains t seen ≡ false
      → candidates true matches excludes seen (t ∷ ts)
        ≡ t ∷ candidates true matches excludes (t ∷ seen) ts
  unfolding candidates picked unseen
  candidates_fresh p c = rw (candidates, picked, p, unseen, c) refl

pub heads_done :
    (head : Option ℕ) (selected : ℕ) (texts : List Text)
    → reaches_head head selected ≡ true
    → heads head selected texts ≡ []
heads_done none selected texts h = absurd cc
heads_done (some n) selected texts h = let e : n - selected ≡ 0 = ground arith in rw e refl

pub heads_more :
    (head : Option ℕ) (selected : ℕ) (t : Text) (texts : List Text)
    → reaches_head head selected ≡ false
    → heads head selected (t ∷ texts) ≡ t ∷ heads head (suc selected) texts
heads_more none selected t texts h = refl
heads_more (some n) selected t texts h =
    let e : n - selected ≡ suc (n - suc selected) = ground arith in rw e refl

pub heads_nothing :
    (head : Option ℕ) (selected : ℕ) (unique : Bool) (matches excludes : List Pattern)
    (seen : List Text)
    → heads head selected (candidates unique matches excludes seen []) ≡ []
unfolding candidates picked unseen
heads_nothing none selected true matches excludes seen = refl
heads_nothing none selected false matches excludes seen = refl
heads_nothing (some n) selected true matches excludes seen = take-nil (n - selected)
heads_nothing (some n) selected false matches excludes seen = take-nil (n - selected)
