-- ===== src/Ctx/Blocks/Accepted.antt =====
-- What the decoders of a block table accept (tools/src/pira_ctx/storage.rs).
use pira.Common.{
  ℕ, zero, suc, ◌+◌, ◌*◌, ◌^◌, ◌≡◌, refl, ap, ◌∙◌, subst, false, not, ◌||◌, List, Option, ltb, ◌==◌,
  Bytes, ok, reject, >>-eq-ok, >>=-eq-ok, reject-eq-ok, ok-injective, length, take, drop, arith,
}
use pira.Dec.Codec.{from_le}
use pira.Ctx.Section.{BlockDescriptor}
use pira.Ctx.Blocks.{
  unsupported_block_codec, non_contiguous_block_table, block_overflow, block_table_totals_disagree,
  corrupt_block_table, block_table_overflow, corrupt_block_table_length, is_misplaced, checked_add,
  read_entry, Sums, follow, decode_blocks, decode_block_table,
}
use pira.Ctx.Blocks.Table.{IsPlaced, IsPlaced-of_is_misplaced, IsTable, nothing_read}

checked_add-eq-ok : (a b c : ℕ) → checked_add a b ≡ ok c → a + b ≡ c
checked_add-eq-ok a b c h =
    ok-injective (>>-eq-ok (reject (not (ltb (a + b) (2 ^ 64))) block_overflow) (ok (a + b)) h).1

-- A block that is followed is in its place, and the sums grow by it.
follow-eq-ok :
    (sums sums' : Sums) (b : BlockDescriptor)
    → follow sums b ≡ ok sums'
    → IsPlaced sums.logical sums.payload b
      × (sums.logical + b.uncompressed_length ≡ sums'.logical)
      × (sums.payload + b.stored_length ≡ sums'.payload)
unfolding follow
follow-eq-ok sums sums' b h =
    let (codec, h1) = >>-eq-ok (reject (ltb 1 b.codec) unsupported_block_codec) _ h in
    let (placed, h2) =
      >>-eq-ok (reject (is_misplaced sums.logical sums.payload b) non_contiguous_block_table) _
        h1 in
    let (logical, l, h3) = >>=-eq-ok (checked_add sums.logical b.uncompressed_length) _ h2 in
    let (payload, p, h4) = >>=-eq-ok (checked_add sums.payload b.stored_length) _ h3 in
    (
      IsPlaced-of_is_misplaced sums.logical sums.payload b (reject-eq-ok _ _ codec)
          (reject-eq-ok _ _ placed),
      checked_add-eq-ok _ _ logical l ∙ ap (λ (s : Sums). s.logical) (ok-injective h4),
      checked_add-eq-ok _ _ payload p ∙ ap (λ (s : Sums). s.payload) (ok-injective h4),
    )

module _ (width : ℕ) (digest_of : Bytes → Option Bytes) (logical_length payload_length : ℕ) where
  decode_blocks-IsTable :
      (count : ℕ) (bytes : Bytes) (sums : Sums) (table : List BlockDescriptor)
      → decode_blocks width digest_of logical_length payload_length count bytes sums ≡ ok table
      → IsTable sums.logical sums.payload table logical_length payload_length
        × (length table ≡ count)
  unfolding decode_blocks
  decode_blocks-IsTable zero bytes sums table h =
      let wrong = not (sums.logical == logical_length) || not (sums.payload == payload_length) in
      let (same, last) = >>-eq-ok (reject wrong block_table_totals_disagree) _ h in
      let right : wrong ≡ false = reject-eq-ok _ _ same in
      subst
        (λ t. IsTable sums.logical sums.payload t logical_length payload_length × (length t ≡ 0))
        (ok-injective last) ((ground (arith, right), ground (arith, right)), refl)
  decode_blocks-IsTable (suc count) bytes sums table h =
      let b = read_entry digest_of bytes in
      let (sums', f, h1) = >>=-eq-ok (follow sums b) _ h in
      let (rest, r, h2) =
        >>=-eq-ok
          (decode_blocks width digest_of logical_length payload_length count (drop width bytes)
            sums')
          _ h1 in
      let (placed, l, p) = follow-eq-ok sums sums' b f in
      let (t, n) = decode_blocks-IsTable count (drop width bytes) sums' rest r in
      subst
        (λ t.
          IsTable sums.logical sums.payload t logical_length payload_length
          × (length t ≡ suc count))
        (ok-injective h2) ((placed, rw (l, p) t), ap suc n)

  -- A table that is accepted has its blocks one behind the other, decoded and in the file, from the
  -- beginning to the lengths that the header names, each in its bounds, and its bytes are those of its
  -- entries behind a count of eight bytes.
  pub decode_block_table-IsTable :
      (bytes : Bytes) (table : List BlockDescriptor)
      → decode_block_table width digest_of logical_length payload_length bytes ≡ ok table
      → IsTable 0 0 table logical_length payload_length × (length bytes ≡ 8 + length table * width)
  unfolding decode_block_table
  decode_block_table-IsTable bytes table h =
      let count = from_le (take 8 bytes) in
      let (c0, h1) = >>-eq-ok (reject (ltb (length bytes) 8) corrupt_block_table) _ h in
      let (c1, h2) =
        >>-eq-ok (reject (not (ltb (count * width) (2 ^ 64))) block_table_overflow) _ h1 in
      let (c2, h3) =
        >>-eq-ok (reject (not (length bytes == 8 + count * width)) corrupt_block_table_length) _
          h2 in
      let (t, n) = decode_blocks-IsTable count (drop 8 bytes) nothing_read table h3 in
      (t, rw n (ground (arith, reject-eq-ok _ _ c2)))
