-- ===== src/WriteCheck/Groups/Slices.antt =====
-- Slices of a line, put together and counted.
use pira.Common.{
  ℕ, ◌+◌, ◌-◌, ◌≤◌, ◌≡◌, sym, ap, ◌∙◌, [], ◌∷◌, ◌++◌, Bytes, take, drop, take-add, drop-add, arith,
}
use pira.WriteCheck.Groups.{slice, char_count}

pub slice-append :
    (line : Bytes) (a b c : ℕ) → a ≤ b → b ≤ c → slice line a b ++ slice line b c ≡ slice line a c
unfolding slice
slice-append line a b c p q =
    let at_b : drop (b - a) (drop a line) ≡ drop b line =
      sym (drop-add a (b - a) line) ∙ ap (λ k. drop k line) (omega arith) in
    let whole : b - a + (c - b) ≡ c - a = omega arith in
    rw (← at_b)
      (sym (take-add (b - a) (c - b) (drop a line)) ∙ ap (λ k. take k (drop a line)) whole)

pub char_count-append : (xs ys : Bytes) → char_count (xs ++ ys) ≡ char_count xs + char_count ys
unfolding char_count
char_count-append [] ys = omega arith
char_count-append (x ∷ xs) ys = omega (arith, char_count-append xs ys)

-- The one-based column of an offset.
abbrev pub column_at : Bytes → ℕ → ℕ
column_at line a = 1 + char_count (slice line 0 a)

pub column_at-slice :
    (line : Bytes) (a b : ℕ)
    → a ≤ b
    → column_at line a + char_count (slice line a b) ≡ column_at line b
column_at-slice line a b p = omega (
  arith,
  char_count-append (slice line 0 a) (slice line a b),
  ap char_count (slice-append line 0 a b (omega arith) p),
)
