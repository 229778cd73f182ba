-- ===== src/Dec/Codec.antt =====
-- The binary form of a decision record, tools/src/pira_dec/model.rs: a magic, the length of a body
-- of tag-length-value fields, the body, and its SHA-256 digest, a parameter. `usize` has 64 bits,
-- so a length read from four bytes does not overflow where it is added to.
mod LittleEndian
pub mod Render
pub mod Read
pub mod Collect
pub mod RoundTrip
pub mod Accepted
pub mod Total
pub mod Sticky
unfoldable pub use LittleEndian.*
use pira.Common.{
  ℕ, zero, suc, ◌+◌, ◌-◌, ◌^◌, Bool, true, false, not, ◌&&◌, ◌||◌, List, [], ◌∷◌, ◌++◌, Option,
  none, some, ltb, ◌==◌, if◌then◌else◌, within, Text, Bytes, Result, ok, err, reject, ok_or, ◌>>=◌,
  ◌>>◌, codes, length, take, drop, list_eq,
}
use pira.Common.Utf8.{utf8, from_utf8}
use pira.Dec.Error.{
  Error, field_too_large, body_too_large, record_too_large, size_limit, invalid_header,
  length_mismatch, checksum_mismatch, truncated_tlv, invalid_tlv_length, out_of_order,
  malformed_singleton, unknown_tag, unknown_maker, string_too_long, not_utf8, missing_maker,
  missing_id, missing_timestamp, missing_context, missing_decision, out_of_fuel,
}
use pira.Dec.Model.{
  Maker, human, agent, DecisionRecord, validate, max_record_bytes, max_id_bytes, max_context_bytes,
  max_choice_bytes,
}

abbrev pub magic : Bytes
magic = codes "PIRADEC1"

-- `Maker::byte`.
abbrev pub maker_byte : Maker → ℕ
maker_byte human = 1
maker_byte agent = 2

-- `Maker::from_byte`.
abbrev pub maker_from_byte : ℕ → Result Error Maker
maker_from_byte b = if b == 1 then ok human else if b == 2 then ok agent else err unknown_maker

-- Appends a field to the body, which it returns.
unfoldable pub put_tlv : Bytes → ℕ → Bytes → Result Error Bytes
unfolding to_le
put_tlv body tag value = do
  reject (not (ltb (length value) (2 ^ 32))) field_too_large
  ok (body ++ (tag ∷ (to_le 4 (length value) ++ value)))

-- `for item in items { put_tlv(body, tag, item.as_bytes())?; }`
unfoldable pub put_each : Bytes → ℕ → List Text → Result Error Bytes
unfolding put_tlv utf8
put_each body tag [] = ok body
put_each body tag (s ∷ items) = do body' ← put_tlv body tag (utf8 s); put_each body' tag items

unfoldable pub put_option : Bytes → ℕ → Option Text → Result Error Bytes
unfolding put_tlv utf8
put_option body tag none = ok body
put_option body tag (some s) = put_tlv body tag (utf8 s)

unfoldable pub encode_body : DecisionRecord → Result Error Bytes
unfolding put_tlv put_each put_option to_le utf8
encode_body r = do
  with_id ← put_tlv [] 1 (utf8 r.id)
  with_timestamp ← put_tlv with_id 2 (to_le 8 r.timestamp_ms)
  with_context ← put_tlv with_timestamp 3 (utf8 r.context)
  with_choices ← put_each with_context 4 r.choices
  with_decision ← put_tlv with_choices 5 (to_le 4 r.decision)
  with_maker ← put_tlv with_decision 6 (maker_byte r.maker ∷ [])
  with_supersedes ← put_option with_maker 7 r.supersedes
  put_each with_supersedes 8 r.related

unfoldable pub encode : (Bytes → Bytes) → DecisionRecord → Result Error Bytes
encode sha256 r = do
  validate r
  body ← encode_body r
  reject (not (ltb (length body) (2 ^ 32))) body_too_large
  let total = 8 + 4 + length body + 32
  reject (ltb max_record_bytes total) record_too_large
  ok (magic ++ (to_le 4 (length body) ++ (body ++ sha256 body)))

-- The local variables of the loop in `decode`.
pub record Fields : Type 0 where
  pub id : Option Text
  pub timestamp_ms : Option ℕ
  pub context : Option Text
  pub choices : List Text
  pub decision : Option ℕ
  pub maker : Option Maker
  pub supersedes : Option Text
  pub related : List Text
  pub previous_tag : ℕ

abbrev pub no_fields : Fields
no_fields = record {
  id = none;
  timestamp_ms = none;
  context = none;
  choices = [];
  decision = none;
  maker = none;
  supersedes = none;
  related = [];
  previous_tag = 0;
}

abbrev pub is_none {ℓ} : {A : Type ℓ} → Option A → Bool
is_none none = true
is_none (some _) = false

unfoldable pub parse_string : Bytes → ℕ → Result Error Text
parse_string value maximum = do
  reject (ltb maximum (length value)) string_too_long
  ok_or (from_utf8 value) not_utf8

-- Human authority is sticky.
abbrev pub next_maker : Option Maker → Maker → Option Maker
next_maker (some human) next = some human
next_maker (some agent) next = some next
next_maker none next = some next

-- The `match tag` of the loop.
unfoldable pub accept : Fields → ℕ → Bytes → Result Error Fields
unfolding from_le
accept st tag value =
    if tag == 1 && is_none st.id
    then (do s ← parse_string value max_id_bytes; ok (record st { id = some s }))
    else if tag == 2 && is_none st.timestamp_ms && length value == 8
    then ok (record st { timestamp_ms = some (from_le value) })
    else if tag == 3 && is_none st.context
    then (do s ← parse_string value max_context_bytes; ok (record st { context = some s }))
    else if tag == 4
    then (do
      s ← parse_string value max_choice_bytes
      ok (record st { choices = st.choices ++ s ∷ [] }))
    else if tag == 5 && is_none st.decision && length value == 4
    then ok (record st { decision = some (from_le value) })
    else if tag == 6 && length value == 1
    then (do m ← maker_from_byte (from_le value); ok (record st { maker = next_maker st.maker m }))
    else if tag == 7 && is_none st.supersedes
    then (do s ← parse_string value max_id_bytes; ok (record st { supersedes = some s }))
    else if tag == 8
    then (do s ← parse_string value max_id_bytes; ok (record st { related = st.related ++ s ∷ [] }))
    else if within 1 8 tag
    then err malformed_singleton
    else err unknown_tag

-- The loop of `decode`, over `body[position..]`. A round takes five bytes at least.
unfoldable pub read_fields : ℕ → Bytes → Fields → Result Error Fields
unfolding accept from_le
read_fields fuel [] st = ok st
read_fields zero (tag ∷ bytes) st = err out_of_fuel
read_fields (suc fuel) (tag ∷ bytes) st = do
  reject (ltb (length (tag ∷ bytes)) 5) truncated_tlv
  let size = from_le (take 4 bytes)
  let rest = drop 4 bytes
  reject (ltb (length rest) size) invalid_tlv_length
  reject (ltb tag st.previous_tag) out_of_order
  st' ← accept (record st { previous_tag = tag }) tag (take size rest)
  read_fields fuel (drop size rest) st'

-- The part of `decode` behind the loop.
unfoldable pub finish : Fields → Result Error DecisionRecord
finish st = do
  maker ← ok_or st.maker missing_maker
  id ← ok_or st.id missing_id
  timestamp_ms ← ok_or st.timestamp_ms missing_timestamp
  context ← ok_or st.context missing_context
  decision ← ok_or st.decision missing_decision
  let r : DecisionRecord = record {
    id = id;
    timestamp_ms = timestamp_ms;
    context = context;
    choices = st.choices;
    decision = decision;
    maker = maker;
    supersedes = st.supersedes;
    related = st.related;
  }
  validate r
  ok r

unfoldable pub decode : (Bytes → Bytes) → Bytes → Result Error DecisionRecord
decode sha256 bytes = do
  reject (ltb max_record_bytes (length bytes)) size_limit
  reject (ltb (length bytes) 44 || not (list_eq (take 8 bytes) magic)) invalid_header
  let body_len = from_le (take 4 (drop 8 bytes))
  reject (not (length bytes == 8 + 4 + body_len + 32)) length_mismatch
  let body = take body_len (drop 12 bytes)
  reject (not (list_eq (sha256 body) (drop (12 + body_len) bytes))) checksum_mismatch
  st ← read_fields (length body) body no_fields
  finish st
