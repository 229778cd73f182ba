-- ===== src/Common/Chars.antt =====
-- Rust's `char::is_whitespace`, `char::is_control`, `str::trim`, and decimal formatting.
use Prim.Native.Nat.{ℕ, zero, suc, ◌+◌, ◌-◌, ◌/◌, ◌%◌}
use mathlib.Core.Bool.{Bool, ◌||◌}
use mathlib.Core.List.{[], ◌∷◌}
use pira.Common.Int.{ℤ, pos, negsuc}
use pira.Common.Lists.{length}
use pira.Common.Tests.{ltb, ◌==◌, if◌then◌else◌, within, Text}

-- The Unicode property White_Space.
unfoldable pub is_whitespace : ℕ → Bool
is_whitespace c =
    within 0x9 0xD c
    || c == 0x20
    || c == 0x85
    || c == 0xA0
    || c == 0x1680
    || within 0x2000 0x200A c
    || within 0x2028 0x2029 c
    || c == 0x202F
    || c == 0x205F
    || c == 0x3000

-- The general category Cc.
unfoldable pub is_control : ℕ → Bool
is_control c = ltb c 0x20 || within 0x7F 0x9F c

-- `trim_start_matches`, `trim_end_matches` and `trim_matches` with a test.
unfoldable pub trim_start_by : (ℕ → Bool) → Text → Text
trim_start_by p [] = []
trim_start_by p (c ∷ s) = let rest = trim_start_by p s in if p c then rest else c ∷ s

abbrev pub cons_kept : Bool → ℕ → Text → Text
cons_kept drops c [] = if drops then [] else c ∷ []
cons_kept drops c (d ∷ s) = c ∷ d ∷ s

unfoldable pub trim_end_by : (ℕ → Bool) → Text → Text
trim_end_by p [] = []
trim_end_by p (c ∷ s) = cons_kept (p c) c (trim_end_by p s)

unfoldable pub trim : Text → Text
unfolding trim_start_by trim_end_by is_whitespace
trim s = trim_end_by is_whitespace (trim_start_by is_whitespace s)

unfoldable pub replicate_onto : ℕ → ℕ → Text → Text
replicate_onto zero c s = s
replicate_onto (suc n) c s = c ∷ replicate_onto n c s

-- Decimal digits, the last first put on. A round divides by ten, so `suc n` rounds are enough.
decimal_onto : ℕ → ℕ → Text → Text
decimal_onto zero n s = s
decimal_onto (suc fuel) n s =
    let rest = decimal_onto fuel (n / 10) ((b'0' + n % 10) ∷ s) in
    if ltb n 10 then (b'0' + n) ∷ s else rest

-- `{}` of an unsigned number.
unfoldable pub decimal : ℕ → Text
unfolding decimal_onto
decimal n = decimal_onto (suc n) n []

-- `{:0w}` of an unsigned number.
unfoldable pub padded : ℕ → ℕ → Text
unfolding decimal replicate_onto
padded w n = let s = decimal n in replicate_onto (w - length s) b'0' s

-- `{:0w}` of a signed number: the sign counts to the width and stands in front of the zeros.
unfoldable pub padded_int : ℕ → ℤ → Text
unfolding padded
padded_int w (pos n) = padded w n
padded_int w (negsuc n) = b'-' ∷ padded (w - 1) (suc n)
