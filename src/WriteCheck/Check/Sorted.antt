-- ===== src/WriteCheck/Check/Sorted.antt =====
-- `sort_hits` only reorders, and its result is in the order of the starts.
use mathlib.Core.List.{Perm}
use mathlib.Core.List.Perm
use pira.Common.{ℕ, ◌≤◌, ◌<◌, ◌≡◌, true, false, List, [], ◌∷◌, All, Bool-cases, inl, inr, arith}
use pira.WriteCheck.Groups.{Hit}
use pira.WriteCheck.Groups.Overlap.{Ascending}
use pira.WriteCheck.Check.{hit_lt, insert_hit, sort_hits}

abbrev pub IsHit : Hit → Type 0
IsHit h = h.start < h.end

lt-start : (h k : Hit) → hit_lt h k ≡ true → h.start ≤ k.start
unfolding hit_lt
lt-start h k e = ground arith

not_lt-start : (h k : Hit) → hit_lt h k ≡ false → k.start ≤ h.start
unfolding hit_lt
not_lt-start h k e = ground arith

insert_hit-Ascending :
    (h : Hit) (hits : List Hit) (from : ℕ)
    → from ≤ h.start
    → IsHit h
    → Ascending from hits
    → Ascending from (insert_hit h hits)
unfolding insert_hit
insert_hit-Ascending h [] from p q s = (p, q, tt)
insert_hit-Ascending h (k ∷ hits) from p q s = elim (Bool-cases (hit_lt k h)) [
  | inl t ↦ rw t (s.0, s.1, insert_hit-Ascending h hits k.start (lt-start k h t) q s.2)
  | inr t ↦ rw t (p, q, (not_lt-start k h t, s.1, s.2))
]

pub sort_hits-Ascending : (hits : List Hit) → All IsHit hits → Ascending 0 (sort_hits hits)
unfolding sort_hits
sort_hits-Ascending [] a = tt
sort_hits-Ascending (h ∷ hits) a =
    insert_hit-Ascending h (sort_hits hits) 0 (omega arith) a.0 (sort_hits-Ascending hits a.1)

insert_hit-perm : (h : Hit) (hits : List Hit) → Perm (insert_hit h hits) (h ∷ hits)
unfolding insert_hit
insert_hit-perm h [] = Perm.refl (h ∷ [])
insert_hit-perm h (k ∷ hits) = elim (Bool-cases (hit_lt k h)) [
  | inl t ↦ rw t (Perm.trans (Perm.cons k (insert_hit-perm h hits)) (Perm.swap h k hits))
  | inr t ↦ rw t (Perm.refl (h ∷ k ∷ hits))
]

pub sort_hits-perm : (hits : List Hit) → Perm (sort_hits hits) hits
unfolding sort_hits
sort_hits-perm [] = Perm.refl []
sort_hits-perm (h ∷ hits) =
    Perm.trans (insert_hit-perm h (sort_hits hits)) (Perm.cons h (sort_hits-perm hits))
