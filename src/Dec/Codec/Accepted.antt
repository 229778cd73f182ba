-- ===== src/Dec/Codec/Accepted.antt =====
-- What a successful `decode` says of its input and of its result.
use pira.Common.{
  ℕ, ◌+◌, ◌≤◌, ◌<◌, ◌≡◌, sym, ◌∙◌, ap, ap₂, ◌++◌, Bytes, not, ◌||◌, ltb, ◌==◌, ok, reject, ok_or,
  >>=-eq-ok, >>-eq-ok, reject-eq-ok, ok-injective, arith, length, length-take, length-drop, take,
  drop, drop-add, take-append-drop, All, All-take, All-drop, list_eq, list_eq_iff, subst,
}
use pira.Dec.Codec.{
  to_le, from_le, to_le-from_le, Fields, no_fields, read_fields, finish, decode, magic,
}
use pira.Dec.Codec.RoundTrip.{frame}
use pira.Dec.Error.{
  size_limit, invalid_header, length_mismatch, checksum_mismatch, missing_maker, missing_id,
  missing_timestamp, missing_context, missing_decision,
}
use pira.Dec.Model.{DecisionRecord, validate, max_record_bytes}

finish-valid : (st : Fields) (r : DecisionRecord) → finish st ≡ ok r → validate r ≡ ok tt
unfolding finish
finish-valid st r h =
    let (maker, _, h1) = >>=-eq-ok (ok_or st.maker missing_maker) _ h in
    let (id, _, h2) = >>=-eq-ok (ok_or st.id missing_id) _ h1 in
    let (timestamp_ms, _, h3) = >>=-eq-ok (ok_or st.timestamp_ms missing_timestamp) _ h2 in
    let (context, _, h4) = >>=-eq-ok (ok_or st.context missing_context) _ h3 in
    let (decision, _, h5) = >>=-eq-ok (ok_or st.decision missing_decision) _ h4 in
    let (valid, same) = >>-eq-ok (validate _) _ h5 in rw (← ok-injective same) valid

abbrev IsByte : ℕ → Type 0
IsByte b = b < 256

-- Bytes that pass the checks in front of the loop are a frame.
module _ (sha256 : Bytes → Bytes) (bytes : Bytes) where
  abbrev size : ℕ
  size = from_le (take 4 (drop 8 bytes))

  abbrev body : Bytes
  body = take size (drop 12 bytes)

  framed :
      All IsByte bytes
      → length bytes ≡ 8 + 4 + size + 32
      → take 8 bytes ≡ magic
      → sha256 body ≡ drop (12 + size) bytes
      → bytes ≡ frame sha256 body
  framed b l m d =
      let four : length (take 4 (drop 8 bytes)) ≡ 4 =
        omega (arith, length-take 4 (drop 8 bytes), length-drop 8 bytes) in
      let same : length body ≡ size =
        omega (arith, length-take size (drop 12 bytes), length-drop 12 bytes) in
      let digits : to_le 4 (length body) ≡ take 4 (drop 8 bytes) = rw same (
        subst (λ k. to_le k size ≡ take 4 (drop 8 bytes)) four
          (to_le-from_le (take 4 (drop 8 bytes)) (All-take _ 4 _ (All-drop _ 8 bytes b)))) in
      let tail : drop size (drop 12 bytes) ≡ sha256 body = sym (drop-add 12 size bytes) ∙ sym d in
      sym (take-append-drop 8 bytes)
      ∙ ap₂ ◌++◌ m (
          sym (take-append-drop 4 (drop 8 bytes))
          ∙ ap₂ ◌++◌ (sym digits) (
              sym (drop-add 8 4 bytes)
              ∙ sym (take-append-drop size (drop 12 bytes))
              ∙ ap (◌++◌ body) tail))

-- Whatever `decode` accepts is a frame round some body, with the body's own digest behind it, and
-- the record that it returns is valid.
pub decode-frame_valid :
    (sha256 : Bytes → Bytes) (bytes : Bytes) (r : DecisionRecord)
    → All IsByte bytes
    → decode sha256 bytes ≡ ok r
    → (b : Bytes) × (bytes ≡ frame sha256 b)
      × (length bytes ≤ max_record_bytes)
      × (validate r ≡ ok tt)
unfolding decode
decode-frame_valid sha256 bytes r b h =
    let n = size sha256 bytes in
    let (c0, h1) = >>-eq-ok (reject (ltb max_record_bytes (length bytes)) size_limit) _ h in
    let (c1, h2) =
      >>-eq-ok (reject (ltb (length bytes) 44 || not (list_eq (take 8 bytes) magic)) invalid_header)
        _ h1 in
    let (c2, h3) = >>-eq-ok (reject (not (length bytes == 8 + 4 + n + 32)) length_mismatch) _ h2 in
    let (c3, h4) =
      >>-eq-ok
        (reject (not (list_eq (sha256 (body sha256 bytes)) (drop (12 + n) bytes)))
          checksum_mismatch)
        _ h3 in
    let (st, _, h5) = >>=-eq-ok (read_fields _ _ no_fields) _ h4 in
    (
      body sha256 bytes,
      framed sha256 bytes b (ground (arith, reject-eq-ok _ _ c2))
          ((list_eq_iff _ _).0 (ground (arith, reject-eq-ok _ _ c1)))
          ((list_eq_iff _ _).0 (ground (arith, reject-eq-ok _ _ c3))),
      ground (arith, reject-eq-ok _ _ c0),
      finish-valid st r h5,
    )
