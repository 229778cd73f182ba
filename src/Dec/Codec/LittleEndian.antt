-- ===== src/Dec/Codec/LittleEndian.antt =====
-- `to_le_bytes` and `from_le_bytes` of an unsigned integer of a given number of bytes.
use native.Mathlib.Nat.{pow-suc}
use pira.Common.{
  ℕ, zero, suc, ◌+◌, ◌*◌, ◌/◌, ◌%◌, ◌^◌, ◌<◌, ◌≡◌, refl, [], ◌∷◌, arith, Bytes, length, All, ap,
}

unfoldable pub to_le : ℕ → ℕ → Bytes
to_le zero n = []
to_le (suc width) n = (n % 256) ∷ to_le width (n / 256)

unfoldable pub from_le : Bytes → ℕ
from_le [] = 0
from_le (b ∷ bytes) = b + 256 * from_le bytes

pub length-to_le : (width n : ℕ) → length (to_le width n) ≡ width
unfolding to_le
length-to_le zero n = refl
length-to_le (suc width) n = ap suc (length-to_le width (n / 256))

pub from_le-to_le : (width n : ℕ) → n < 256 ^ width → from_le (to_le width n) ≡ n
unfolding to_le from_le
from_le-to_le zero n h = omega arith
from_le-to_le (suc width) n h =
    omega (arith, from_le-to_le width (n / 256) (omega (arith, pow-suc 256 width)))

pub to_le-from_le :
    (bytes : Bytes) → All (λ b. b < 256) bytes → to_le (length bytes) (from_le bytes) ≡ bytes
unfolding to_le from_le
to_le-from_le [] h = refl
to_le-from_le (b ∷ bytes) h =
    let low : (b + 256 * from_le bytes) % 256 ≡ b = omega arith in
    let high : (b + 256 * from_le bytes) / 256 ≡ from_le bytes = omega arith in
    rw (low, high, to_le-from_le bytes h.1) refl
