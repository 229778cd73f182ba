-- ===== src/Dec/Codec/Total.antt =====
-- The loop of `decode` ends: the fuel that it is given is enough.
use pira.Common.{
  ℕ, zero, suc, ◌≤◌, ◌≡◌, ◌≢◌, refl, [], ◌∷◌, Bytes, Text, Bool, true, false, Option, none, some,
  ◌==◌, if◌then◌else◌, Result, ok, err, reject, ok_or, ◌>>=◌, ◌>>◌, arith, length, length-drop,
  take, drop,
}
use pira.Dec.Codec.{from_le, Fields, parse_string, maker_from_byte, accept, read_fields}
use pira.Dec.Error.{
  Error, out_of_fuel, out_of_order, truncated_tlv, invalid_tlv_length, string_too_long, not_utf8,
}

abbrev is_out_of_fuel : Error → Bool
is_out_of_fuel out_of_fuel = true
is_out_of_fuel _ = false

-- The result of a step is not the model's own error.
data Ends {ℓ} {A : Type ℓ} : Result Error A → Type ℓ where
  with_ok : (a : A) → Ends (ok a)
  with_err : (e : Error) → is_out_of_fuel e ≡ false → Ends (err e)

bind-Ends {ℓ κ} :
    {A : Type ℓ} {B : Type κ} {m : Result Error A} {k : A → Result Error B}
    → Ends m
    → ((a : A) → Ends (k a))
    → Ends (m >>= k)
bind-Ends (with_ok a) q = q a
bind-Ends (with_err e h) q = with_err e h

then-Ends {ℓ} :
    {B : Type ℓ} {m : Result Error (Unit {0})} {k : Result Error B}
    → Ends m
    → Ends k
    → Ends (m >> k)
then-Ends m k = bind-Ends m (λ _. k)

if-Ends {ℓ} :
    {A : Type ℓ} (b : Bool) {x y : Result Error A} → Ends x → Ends y → Ends (if b then x else y)
if-Ends true p q = p
if-Ends false p q = q

reject-Ends : (b : Bool) (e : Error) → is_out_of_fuel e ≡ false → Ends (reject b e)
reject-Ends true e h = with_err e h
reject-Ends false e h = with_ok tt

ok_or-Ends {ℓ} :
    {A : Type ℓ} (o : Option A) (e : Error) → is_out_of_fuel e ≡ false → Ends (ok_or o e)
ok_or-Ends none e h = with_err e h
ok_or-Ends (some a) e h = with_ok a

parse_string-Ends : (value : Bytes) (maximum : ℕ) → Ends (parse_string value maximum)
unfolding parse_string
parse_string-Ends value maximum =
    then-Ends (reject-Ends _ string_too_long refl) (ok_or-Ends _ not_utf8 refl)

text-Ends :
    (value : Bytes) (maximum : ℕ) (k : Text → Fields)
    → Ends (parse_string value maximum >>= λ s. ok (k s))
text-Ends value maximum k = bind-Ends (parse_string-Ends value maximum) (λ s. with_ok (k s))

maker_from_byte-Ends : (b : ℕ) → Ends (maker_from_byte b)
maker_from_byte-Ends b =
    if-Ends (b == 1) (with_ok _) (if-Ends (b == 2) (with_ok _) (with_err _ refl))

accept-Ends : (st : Fields) (tag : ℕ) (value : Bytes) → Ends (accept st tag value)
unfolding accept
accept-Ends st tag value =
    search (if-Ends, text-Ends, bind-Ends, maker_from_byte-Ends, with_ok, with_err) depth 14

-- With as much fuel as there are bytes the loop is not stopped by the model's bound.
read_fields-Ends :
    (fuel : ℕ) (bytes : Bytes) (st : Fields)
    → length bytes ≤ fuel
    → Ends (read_fields fuel bytes st)
unfolding read_fields
read_fields-Ends fuel [] st h = with_ok st
read_fields-Ends zero (tag ∷ bytes) st h = absurd (omega arith)
read_fields-Ends (suc fuel) (tag ∷ bytes) st h = then-Ends (reject-Ends _ truncated_tlv refl) (
    then-Ends (reject-Ends _ invalid_tlv_length refl) (
      then-Ends (reject-Ends _ out_of_order refl) (
        bind-Ends (accept-Ends _ tag _) λ st'.
          let rest = drop 4 bytes in
          let size = from_le (take 4 bytes) in
          read_fields-Ends fuel (drop size rest) st'
            (omega (arith, length-drop size rest, length-drop 4 bytes)))))

not_fuel : {r : Result Error Fields} → Ends r → r ≢ err out_of_fuel
not_fuel (with_ok a) e = cc
not_fuel (with_err x h) e = cc

-- The loop of `decode`, with as many rounds as there are bytes, ends by itself: with its own result
-- or with one of the program's errors.
pub read_fields-ne-out_of_fuel :
    (fuel : ℕ) (bytes : Bytes) (st : Fields)
    → length bytes ≤ fuel
    → read_fields fuel bytes st ≢ err out_of_fuel
read_fields-ne-out_of_fuel fuel bytes st h e = not_fuel (read_fields-Ends fuel bytes st h) e
