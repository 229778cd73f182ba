-- ===== src/Common/Utf8.antt =====
-- The UTF-8 form of a `str`: `as_bytes`, `len`, `std::str::from_utf8` and
-- `String::from_utf8_lossy` with the table of
-- well-formed sequences (Unicode, table 3-7), one byte at a time.
use pira.Common.Lists.{All}
use pira.Common.Tests.{ltb, if◌then◌else◌, within, Bytes, Text, Bool-cases, lt→ltb}
use Prim.Native.Nat.{ℕ, zero, suc, ◌+◌, ◌-◌, ◌*◌, ◌/◌, ◌%◌, ◌≤◌, ◌<◌}
use mathlib.Core.Bool.{true, false, ◌||◌}
use mathlib.Core.List.{[], ◌∷◌, ◌++◌}
use mathlib.Core.Logic.{◌⊎◌, inl, inr}
use mathlib.Core.Option.{Option, none, some}
use mathlib.Core.Path.{◌≡◌, refl, ap, ◌∙◌}
use native.Mathlib.Omega.{arith}

-- A Rust `char`: a code point that is no surrogate.
abbrev pub IsScalar : ℕ → Type 0
IsScalar c = (c < 0xD800) ⊎ ((0xE000 ≤ c) × (c < 0x110000))

abbrev pub IsText : Text → Type 0
IsText = All IsScalar

-- `char::encode_utf8`.
unfoldable pub encode_char : ℕ → Bytes
encode_char c =
    if ltb c 0x80
    then c ∷ []
    else if ltb c 0x800
    then (0xC0 + c / 64) ∷ (0x80 + c % 64) ∷ []
    else if ltb c 0x10000
    then (0xE0 + c / 4096) ∷ (0x80 + c / 64 % 64) ∷ (0x80 + c % 64) ∷ []
    else (0xF0 + c / 262144) ∷ (0x80 + c / 4096 % 64) ∷ (0x80 + c / 64 % 64) ∷ (0x80 + c % 64) ∷ []

-- `str::as_bytes`.
unfoldable pub utf8 : Text → Bytes
utf8 [] = []
utf8 (c ∷ s) = encode_char c ++ utf8 s

-- What a first byte announces: a whole character, or how many bytes follow, the bits that it
-- holds, and the range of the next byte.
pub data Start : Type 0 where
  invalid : Start
  whole : ℕ → Start
  more : ℕ → ℕ → ℕ → ℕ → Start

start : ℕ → Start
start b =
    if ltb b 0x80
    then whole b
    else if within 0xC2 0xDF b
    then more 1 (b - 0xC0) 0x80 0xBF
    else if within 0xE0 0xE0 b
    then more 2 0 0xA0 0xBF
    else if within 0xE1 0xEC b || within 0xEE 0xEF b
    then more 2 (b - 0xE0) 0x80 0xBF
    else if within 0xED 0xED b
    then more 2 0xD 0x80 0x9F
    else if within 0xF0 0xF0 b
    then more 3 0 0x90 0xBF
    else if within 0xF1 0xF3 b
    then more 3 (b - 0xF0) 0x80 0xBF
    else if within 0xF4 0xF4 b
    then more 3 4 0x80 0x8F
    else invalid

abbrev pub cons? : ℕ → Option Text → Option Text
cons? c none = none
cons? c (some s) = some (c ∷ s)

-- `need` bytes are still to come, `acc` holds the bits so far, the next byte is in `lo..=hi`.
run : ℕ → ℕ → ℕ → ℕ → Bytes → Option Text
run zero acc lo hi [] = some []
run (suc need) acc lo hi [] = none
run zero acc lo hi (b ∷ bs) = elim (start b) [
  | invalid ↦ none
  | whole c ↦ cons? c (run 0 0 0 0 bs)
  | more n a l h ↦ run n a l h bs
]
run (suc zero) acc lo hi (b ∷ bs) = elim (within lo hi b) [
  | true ↦ cons? (acc * 64 + (b - 0x80)) (run 0 0 0 0 bs)
  | false ↦ none
]
run (suc (suc n)) acc lo hi (b ∷ bs) = elim (within lo hi b) [
  | true ↦ run (suc n) (acc * 64 + (b - 0x80)) 0x80 0xBF bs
  | false ↦ none
]

-- `std::str::from_utf8`; the error value is not used by the program.
unfoldable pub from_utf8 : Bytes → Option Text
unfolding run start
from_utf8 = run 0 0 0 0

-- `String::from_utf8_lossy`: a character that breaks off is one replacement character, and the byte
-- behind it is read again.
lossy_from : ℕ → ℕ → ℕ → ℕ → Bytes → Text
lossy_from zero acc lo hi [] = []
lossy_from (suc need) acc lo hi [] = 0xFFFD ∷ []
lossy_from zero acc lo hi (b ∷ bs) = elim (start b) [
  | invalid ↦ 0xFFFD ∷ lossy_from 0 0 0 0 bs
  | whole c ↦ c ∷ lossy_from 0 0 0 0 bs
  | more n a l h ↦ lossy_from n a l h bs
]
lossy_from (suc need) acc lo hi (b ∷ bs) = elim (within lo hi b) [
  | true ↦ elim need [
    | zero ↦ (acc * 64 + (b - 0x80)) ∷ lossy_from 0 0 0 0 bs
    | suc n ↦ lossy_from (suc n) (acc * 64 + (b - 0x80)) 0x80 0xBF bs
  ]
  | false ↦ elim (start b) [
    | invalid ↦ 0xFFFD ∷ 0xFFFD ∷ lossy_from 0 0 0 0 bs
    | whole c ↦ 0xFFFD ∷ c ∷ lossy_from 0 0 0 0 bs
    | more n a l h ↦ 0xFFFD ∷ lossy_from n a l h bs
  ]
]

unfoldable pub from_utf8_lossy : Bytes → Text
unfolding lossy_from start
from_utf8_lossy = lossy_from 0 0 0 0

-- One byte of each kind.
module _ (b : ℕ) (bs : Bytes) where
  run-whole : b < 0x80 → run 0 0 0 0 (b ∷ bs) ≡ cons? b (run 0 0 0 0 bs)
  unfolding run start
  run-whole h = rw (run, start, lt→ltb b 0x80 h) refl

  run-more : (n a l h : ℕ) → start b ≡ more n a l h → run 0 0 0 0 (b ∷ bs) ≡ run n a l h bs
  unfolding run
  run-more n a l h e = rw (e, run) refl

  run-next :
      (n acc lo hi : ℕ)
      → lo ≤ b
      → b ≤ hi
      → run (suc (suc n)) acc lo hi (b ∷ bs) ≡ run (suc n) (acc * 64 + (b - 0x80)) 0x80 0xBF bs
  unfolding run
  run-next n acc lo hi p q = ground arith

  run-last :
      (acc lo hi c : ℕ)
      → lo ≤ b
      → b ≤ hi
      → acc * 64 + (b - 0x80) ≡ c
      → run 1 acc lo hi (b ∷ bs) ≡ cons? c (run 0 0 0 0 bs)
  unfolding run
  run-last acc lo hi c p q e = ground arith

start_two : (e : ℕ) → 2 ≤ e → e < 32 → start (0xC0 + e) ≡ more 1 e 0x80 0xBF
unfolding start
start_two e p q = ground arith

abbrev low3 : ℕ → ℕ
low3 e = if ltb e 1 then 0xA0 else 0x80

abbrev high3 : ℕ → ℕ
high3 e = if within 13 13 e then 0x9F else 0xBF

start_three : (e : ℕ) → e < 16 → start (0xE0 + e) ≡ more 2 e (low3 e) (high3 e)
unfolding start
start_three e p = ground arith

abbrev low4 : ℕ → ℕ
low4 e = if ltb e 1 then 0x90 else 0x80

abbrev high4 : ℕ → ℕ
high4 e = if within 4 4 e then 0x8F else 0xBF

start_four : (e : ℕ) → e < 5 → start (0xF0 + e) ≡ more 3 e (low4 e) (high4 e)
unfolding start
start_four e p = ground arith

run_two :
    (c : ℕ) (bs : Bytes)
    → 0x80 ≤ c
    → c < 0x800
    → run 0 0 0 0 ((0xC0 + c / 64) ∷ (0x80 + c % 64) ∷ bs) ≡ cons? c (run 0 0 0 0 bs)
run_two c bs p q =
    run-more _ _ _ _ _ _ (start_two (c / 64) (omega arith) (omega arith))
    ∙ run-last _ bs _ _ _ c (omega arith) (omega arith) (omega arith)

second_three :
    (c : ℕ)
    → 0x800 ≤ c
    → c < 0x10000
    → IsScalar c
    → (low3 (c / 4096) ≤ 0x80 + c / 64 % 64) × (0x80 + c / 64 % 64 ≤ high3 (c / 4096))
second_three c p q h = ground arith

run_three :
    (c : ℕ) (bs : Bytes)
    → 0x800 ≤ c
    → c < 0x10000
    → IsScalar c
    → run 0 0 0 0 ((0xE0 + c / 4096) ∷ (0x80 + c / 64 % 64) ∷ (0x80 + c % 64) ∷ bs)
      ≡ cons? c (run 0 0 0 0 bs)
run_three c bs p q h =
    let (lo, hi) = second_three c p q h in
    run-more _ _ _ _ _ _ (start_three (c / 4096) (omega arith))
    ∙ run-next _ _ _ _ _ _ lo hi
    ∙ run-last _ bs _ _ _ c (omega arith) (omega arith) (omega arith)

second_four :
    (c : ℕ)
    → 0x10000 ≤ c
    → IsScalar c
    → (low4 (c / 262144) ≤ 0x80 + c / 4096 % 64) × (0x80 + c / 4096 % 64 ≤ high4 (c / 262144))
second_four c p h = ground arith

run_four :
    (c : ℕ) (bs : Bytes)
    → 0x10000 ≤ c
    → IsScalar c
    → run 0 0 0 0
        ((0xF0 + c / 262144) ∷ (0x80 + c / 4096 % 64) ∷ (0x80 + c / 64 % 64) ∷ (0x80 + c % 64) ∷ bs)
      ≡ cons? c (run 0 0 0 0 bs)
run_four c bs p h =
    let (lo, hi) = second_four c p h in
    run-more _ _ _ _ _ _ (start_four (c / 262144) (omega arith))
    ∙ run-next _ _ _ _ _ _ lo hi
    ∙ run-next _ _ _ _ _ _ (omega arith) (omega arith)
    ∙ run-last _ bs _ _ _ c (omega arith) (omega arith) (omega arith)

run-encode_char :
    (c : ℕ) (bs : Bytes) → IsScalar c → run 0 0 0 0 (encode_char c ++ bs) ≡ cons? c (run 0 0 0 0 bs)
unfolding encode_char
run-encode_char c bs h = elim (Bool-cases (ltb c 0x80)) [
  | inl p ↦ rw p (run-whole c bs (ground arith))
  | inr p ↦ rw p (elim (Bool-cases (ltb c 0x800)) [
    | inl q ↦ rw q (run_two c bs (ground arith) (ground arith))
    | inr q ↦ rw q (elim (Bool-cases (ltb c 0x10000)) [
      | inl r ↦ rw r (run_three c bs (ground arith) (ground arith) h)
      | inr r ↦ rw r (run_four c bs (ground arith) h)
    ])
  ])
]

-- What `as_bytes` wrote, `from_utf8` reads back.
pub from_utf8-utf8 : (s : Text) → IsText s → from_utf8 (utf8 s) ≡ some s
unfolding utf8 from_utf8
from_utf8-utf8 [] h = unfold run in refl
from_utf8-utf8 (c ∷ s) h = run-encode_char c (utf8 s) h.0 ∙ ap (cons? c) (from_utf8-utf8 s h.1)
