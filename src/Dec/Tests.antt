-- ===== src/Dec/Tests.antt =====
-- Runs of the decision record codec, after the tests of model.rs, and the theorems at one record.
use pira.Common.{
  ◌≤◌, ◌≡◌, refl, ◌≢◌, inl, inr, List, [], ◌∷◌, ◌++◌, none, some, Bytes, ok, err, arith, length,
  length-take, length-append, list_eq, starts_with, codes, replicate, take,
}
use pira.Common.Chars.{trim}
use pira.Common.Int.{pos, ◌+ℤ◌, ◌-ℤ◌, ◌*ℤ◌, div_trunc}
use pira.Common.Utf8.{utf8, encode_char, from_utf8}
use pira.Dec.Codec.Accepted.{decode-frame_valid}
use pira.Dec.Codec.Render.{Field, render, fields_of}
use pira.Dec.Codec.RoundTrip.{HasText, frame, decode-encode}
use pira.Dec.Codec.Sticky.{decode-human}
use pira.Dec.Codec.Total.{read_fields-ne-out_of_fuel}
use pira.Dec.Codec.{
  encode_body, encode, decode, read_fields, finish, parse_string, no_fields, to_le,
}
use pira.Dec.Error.{out_of_fuel}
use pira.Dec.Model.{
  human, DecisionRecord, validate, validate_id, validate_id_syntax, validate_fields,
  validate_relationships, check_choices, check_related, check_supersedes, max_record_bytes,
}
use pira.Dec.Time.Parts.{Splits, utc_parts-Splits}
use pira.Dec.Time.Successor.{nth_date, civil_from_days-nth_date}
use pira.Dec.Time.{UtcParts, civil_of_era, civil_from_days, utc_parts, format_id_timestamp}

abbrev sample : DecisionRecord
sample = record {
  id = codes "D-20260717-063012-a3f921c84d77e102";
  timestamp_ms = 1_784_269_812_000;
  context = codes "Choose storage.";
  choices = codes "Use SQL." ∷ codes "Use checked files." ∷ [];
  decision = 2;
  maker = human;
  supersedes = some (codes "D-20260716-063012-a3f921c84d77e102");
  related = codes "D-20260715-063012-a3f921c84d77e102" ∷ [];
}

-- A digest of 32 bytes: the first bytes of the input, filled up with zeros.
abbrev prefix : Bytes → Bytes
prefix body = take 32 (body ++ replicate 32 0)

abbrev sample_bytes : Bytes
sample_bytes = frame prefix (render (fields_of sample))

sample_encodes : encode prefix sample ≡ ok sample_bytes
unfolding encode encode_body validate validate_id validate_id_syntax validate_fields check_choices
    check_supersedes validate_relationships check_related format_id_timestamp civil_from_days
    civil_of_era ◌+ℤ◌ ◌-ℤ◌ ◌*ℤ◌ div_trunc trim list_eq starts_with utf8 encode_char to_le
sample_encodes = refl

sample-HasText : HasText sample
sample-HasText = omega arith

length-prefix : (body : Bytes) → length (prefix body) ≡ 32
length-prefix body =
    omega
      (arith, length-take {0} 32 (body ++ replicate 32 0), length-append {0} body (replicate 32 0))

sample_decodes : decode prefix sample_bytes ≡ ok sample
sample_decodes =
    decode-encode prefix sample sample_bytes length-prefix sample-HasText sample_encodes

decode-encode_example : decode prefix sample_bytes ≡ ok sample
decode-encode_example =
    decode-encode prefix sample sample_bytes length-prefix sample-HasText sample_encodes

decode-frame_valid_example :
    (b : Bytes) × (sample_bytes ≡ frame prefix b)
    × (length sample_bytes ≤ max_record_bytes)
    × (validate sample ≡ ok tt)
unfolding utf8 encode_char to_le
decode-frame_valid_example =
    decode-frame_valid prefix sample_bytes sample (omega arith) sample_decodes

-- A body in which an agent's maker field follows a human's.
abbrev legacy_fields : List Field
legacy_fields = fields_of (record sample { supersedes = none; related = [] }) ++ (6, 2 ∷ []) ∷ []

abbrev legacy : DecisionRecord
legacy = record sample { supersedes = none; related = [] }

legacy_decodes : decode prefix (frame prefix (render legacy_fields)) ≡ ok legacy
unfolding decode read_fields finish parse_string from_utf8 validate validate_id validate_id_syntax
    validate_fields check_choices check_supersedes validate_relationships check_related
    format_id_timestamp civil_from_days civil_of_era ◌+ℤ◌ ◌-ℤ◌ ◌*ℤ◌ div_trunc trim list_eq
    starts_with utf8 encode_char to_le
legacy_decodes = refl

decode-human_example : legacy.maker ≡ human
unfolding utf8 encode_char to_le
decode-human_example =
    decode-human prefix legacy_fields legacy refl (omega arith) (omega arith)
      (inr (inr (inr (inr (inr (inr (inl (refl, refl)))))))) legacy_decodes

read_fields-ne-out_of_fuel_example : read_fields 3 (1 ∷ 9 ∷ 0 ∷ []) no_fields ≢ err out_of_fuel
read_fields-ne-out_of_fuel_example =
    read_fields-ne-out_of_fuel 3 (1 ∷ 9 ∷ 0 ∷ []) no_fields (omega arith)

civil_from_days-nth_date_example : civil_from_days (pos 60) ≡ nth_date 60
civil_from_days-nth_date_example = civil_from_days-nth_date 60

utc_parts-Splits_example :
    (p : UtcParts) × (utc_parts 1_784_269_812_345 ≡ ok p) × Splits 1_784_269_812_345 20_651 p
utc_parts-Splits_example = utc_parts-Splits 1_784_269_812_345 (omega arith)
