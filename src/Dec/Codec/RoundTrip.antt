-- ===== src/Dec/Codec/RoundTrip.antt =====
-- `decode` reads back what `encode` wrote.
use pira.Common.{
  ℕ, ◌+◌, ◌^◌, ◌≤◌, ◌≡◌, refl, sym, List, [], ◌∷◌, ◌++◌, Bytes, Text, not, Option, none, some, ltb,
  within, ok, reject, ◌>>=◌, >>=-eq-ok, >>-eq-ok, reject-eq-ok, ok-injective, arith, length,
  length-append, list_eq_refl, drop-add, take-append, drop-append, ==_iff, All, le→ltb_false,
}
use pira.Common.Utf8.{IsText}
use pira.Dec.Codec.{
  Fields, no_fields, to_le, from_le-to_le, length-to_le, encode_body, encode, decode, finish,
  read_fields, magic,
}
use pira.Dec.Codec.Collect.{
  IsStored, IsStoredOption, Fits, with_supersedes, before_relations, collected,
  accept_all-fields_of,
}
use pira.Dec.Codec.Render.{encode_body-Puts, render, fields_of}
use pira.Dec.Codec.Read.{take-to_le, drop-to_le, read_fields-render}
use pira.Dec.Error.{
  context_empty, context_too_long, choice_count, choice_empty, choice_too_long, choice_duplicate,
  superseded_and_related, related_duplicate, too_many_related, body_too_large, record_too_large,
}
use pira.Dec.Model.{
  DecisionRecord, validate, validate_id_syntax, validate_id, bad_id, validate_fields, check_choices,
  validate_relationships, check_related, check_supersedes, max_id_bytes, max_context_bytes,
  max_choices, max_choice_bytes, is_empty, contains, len, is_superseded, max_related_decisions,
  max_record_bytes,
}
use pira.Dec.Time.{validate_timestamp, max_timestamp_ms}

-- The strings of a record are Rust strings.
abbrev pub IsTextOption : Option Text → Type 0
IsTextOption none = Unit
IsTextOption (some s) = IsText s

pub record HasText (r : DecisionRecord) : Type 0 where
  pub id : IsText r.id
  pub context : IsText r.context
  pub choices : All IsText r.choices
  pub supersedes : IsTextOption r.supersedes
  pub related : All IsText r.related

id_bounded : (s : Text) → IsText s → validate_id_syntax s ≡ ok tt → IsStored max_id_bytes s
unfolding validate_id_syntax bad_id
id_bounded s t h = record { text = t; bounded = ground arith }

choices_bounded :
    (seen items : List Text)
    → All IsText items
    → check_choices seen items ≡ ok tt
    → All (IsStored max_choice_bytes) items
unfolding check_choices
choices_bounded seen [] t h = tt
choices_bounded seen (s ∷ items) t h =
    let (a, h1) = >>-eq-ok (reject (is_empty s) choice_empty) _ h in
    let (b, h2) = >>-eq-ok (reject (ltb max_choice_bytes (len s)) choice_too_long) _ h1 in
    let (c, h3) = >>-eq-ok (reject (contains s seen) choice_duplicate) _ h2 in
    (
      record { text = t.0; bounded = ground (arith, reject-eq-ok _ _ b) },
      choices_bounded (s ∷ seen) items t.1 h3,
    )

related_bounded :
    (supersedes : Option Text) (seen items : List Text)
    → All IsText items
    → check_related supersedes seen items ≡ ok tt
    → All (IsStored max_id_bytes) items
unfolding check_related
related_bounded supersedes seen [] t h = tt
related_bounded supersedes seen (s ∷ items) t h =
    let (a, h1) = >>-eq-ok (validate_id_syntax s) _ h in
    let (b, h2) = >>-eq-ok (reject (is_superseded s supersedes) superseded_and_related) _ h1 in
    let (c, h3) = >>-eq-ok (reject (contains s seen) related_duplicate) _ h2 in
    (id_bounded s t.0 a, related_bounded supersedes (s ∷ seen) items t.1 h3)

supersedes_bounded :
    (item : Option Text)
    → IsTextOption item
    → check_supersedes item ≡ ok tt
    → IsStoredOption max_id_bytes item
unfolding check_supersedes
supersedes_bounded none t h = tt
supersedes_bounded (some s) t h = id_bounded s t h

timestamp_bounded : (n : ℕ) → validate_timestamp n ≡ ok tt → n ≤ max_timestamp_ms
unfolding validate_timestamp
timestamp_bounded n h = ground arith

record FieldsFit (c : Text) (items : List Text) (n : ℕ) : Type 0 where
  context : len c ≤ max_context_bytes
  choices : All (IsStored max_choice_bytes) items
  decision : n ≤ max_choices

fields_bounded :
    (context : Text) (choices : List Text) (decision : ℕ)
    → All IsText choices
    → validate_fields context choices decision ≡ ok tt
    → FieldsFit context choices decision
unfolding validate_fields
fields_bounded context choices decision t h =
    let (a, h1) = >>-eq-ok (reject (is_empty context) context_empty) _ h in
    let (b, h2) = >>-eq-ok (reject (ltb max_context_bytes (len context)) context_too_long) _ h1 in
    let (c, h3) =
      >>-eq-ok (reject (not (within 2 max_choices (length choices))) choice_count) _ h2 in
    let (d, h4) = >>-eq-ok (check_choices [] choices) _ h3 in
    record {
      context = ground (arith, reject-eq-ok _ _ b);
      choices = choices_bounded [] choices t d;
      decision = ground (arith, reject-eq-ok _ _ c, reject-eq-ok _ _ h4);
    }

-- A record that passes validation can be stored.
pub validate-Fits : (r : DecisionRecord) → HasText r → validate r ≡ ok tt → Fits r
unfolding validate validate_id validate_relationships
validate-Fits r t h =
    let (a, h1) = >>-eq-ok (validate_id r.id r.timestamp_ms) _ h in
    let (i, _) = >>-eq-ok (validate_id_syntax r.id) _ a in
    let (b, h2) = >>-eq-ok (validate_timestamp r.timestamp_ms) _ h1 in
    let (c, h3) = >>-eq-ok (validate_fields r.context r.choices r.decision) _ h2 in
    let (d, _) = >>-eq-ok (validate_relationships r.supersedes r.related) _ h3 in
    let (e, d1) = >>-eq-ok (check_supersedes r.supersedes) _ d in
    let (_, d2) =
      >>-eq-ok (reject (ltb max_related_decisions (length r.related)) too_many_related) _ d1 in
    let f = fields_bounded r.context r.choices r.decision t.choices c in
    record {
      id = id_bounded r.id t.id i;
      timestamp_ms = omega (arith, timestamp_bounded r.timestamp_ms b);
      context = record { text = t.context; bounded = f.context };
      choices = f.choices;
      decision = omega (arith, f.decision);
      supersedes = supersedes_bounded r.supersedes t.supersedes e;
      related = related_bounded r.supersedes [] r.related t.related d2;
    }

-- The state behind the loop has the parts of the record, whether or not it supersedes another.
with_supersedes_lem :
    (st : Fields) (item : Option Text)
    → st.supersedes ≡ none
    → with_supersedes st item
      ≡ record st { supersedes = item; previous_tag = (with_supersedes st item).previous_tag }
with_supersedes_lem st none e = λ i. record st { supersedes = e i }
with_supersedes_lem st (some s) e = refl

finish-collected : (r : DecisionRecord) → validate r ≡ ok tt → finish (collected r) ≡ ok r
unfolding finish
finish-collected r h = rw (with_supersedes_lem (before_relations r) r.supersedes refl, h) refl

-- What `encode` puts round a body.
abbrev pub frame : (Bytes → Bytes) → Bytes → Bytes
frame sha256 body = magic ++ (to_le 4 (length body) ++ (body ++ sha256 body))

module _ (sha256 : Bytes → Bytes) where
  length-frame :
      (body : Bytes)
      → length (sha256 body) ≡ 32
      → length (frame sha256 body) ≡ 8 + 4 + length body + 32
  length-frame body d = omega (
    arith,
    d,
    length-append {0} magic (to_le 4 (length body) ++ (body ++ sha256 body)),
    length-append {0} (to_le 4 (length body)) (body ++ sha256 body),
    length-append {0} body (sha256 body),
    length-to_le 4 (length body),
  )

  pub decode-frame :
      (body : Bytes)
      → length (sha256 body) ≡ 32
      → 8 + 4 + length body + 32 ≤ max_record_bytes
      → decode sha256 (frame sha256 body) ≡ (read_fields (length body) body no_fields >>= finish)
  unfolding decode
  decode-frame body d small =
      let n = length body in
      rw
        (
          length-frame body d,
          le→ltb_false max_record_bytes (8 + 4 + n + 32) small,
          le→ltb_false (8 + 4 + n + 32) 44 (omega arith),
          list_eq_refl magic,
          take-to_le n (body ++ sha256 body),
          from_le-to_le 4 n (omega arith),
          (==_iff (8 + 4 + n + 32) (8 + 4 + n + 32)).1 refl,
          drop-add 12 n (frame sha256 body),
          drop-to_le n (body ++ sha256 body),
          take-append body (sha256 body),
          drop-append body (sha256 body),
          list_eq_refl (sha256 body),
        )
        refl

  -- What a successful `encode` returned, and what it had checked.
  record Encoded (r : DecisionRecord) (bytes : Bytes) : Type 0 where
    body : Bytes
    valid : validate r ≡ ok tt
    written : encode_body r ≡ ok body
    bounded : 8 + 4 + length body + 32 ≤ max_record_bytes
    framed : bytes ≡ frame sha256 body

  encode-Encoded :
      (r : DecisionRecord) {bytes : Bytes} → encode sha256 r ≡ ok bytes → Encoded r bytes
  unfolding encode
  encode-Encoded r h =
      let (valid, h1) = >>-eq-ok (validate r) _ h in
      let (body, written, h2) = >>=-eq-ok (encode_body r) _ h1 in
      let (_, h3) = >>-eq-ok (reject (not (ltb (length body) (2 ^ 32))) body_too_large) _ h2 in
      let total = 8 + 4 + length body + 32 in
      let (b, e) = >>-eq-ok (reject (ltb max_record_bytes total) record_too_large) _ h3 in
      record {
        body = body;
        valid = valid;
        written = written;
        bounded = ground (arith, reject-eq-ok _ _ b);
        framed = sym (ok-injective e);
      }

  -- Decoding what `encode` returned gives the record back, whatever the digest function of 32 bytes.
  pub decode-encode :
      (r : DecisionRecord) (bytes : Bytes)
      → ((body : Bytes) → length (sha256 body) ≡ 32)
      → HasText r
      → encode sha256 r ≡ ok bytes
      → decode sha256 bytes ≡ ok r
  decode-encode r bytes d t h =
      let e = encode-Encoded r h in
      let puts = encode_body-Puts r e.written in
      let fits = validate-Fits r t e.valid in
      let fs = fields_of r in
      rw
        (
          e.framed,
          decode-frame e.body (d e.body) e.bounded,
          puts.grown,
          read_fields-render fs (length (render fs)) (omega arith) puts.small no_fields,
          accept_all-fields_of r fits,
        )
        (finish-collected r e.valid)
