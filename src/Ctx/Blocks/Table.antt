-- ===== src/Ctx/Blocks/Table.antt =====
-- The table of a stored stream's blocks, `encode_block_table_v4` and `decode_block_table_v4`
-- (tools/src/pira_ctx/storage.rs): what is written is read back, and what is read is in order.
use pira.Common.{
  ℕ, suc, ◌+◌, ◌*◌, ◌^◌, ◌≤◌, ◌<◌, ◌≡◌, refl, sym, ap, ◌∙◌, subst, false, List, [], ◌∷◌, ◌++◌, some,
  ltb, Bytes, ok, ◌>>=◌, length, take, drop, take-append, drop-append, length-append, All, lt→ltb,
  arith,
}
use pira.Dec.Codec.{to_le, from_le, from_le-to_le, length-to_le}
use pira.Ctx.Section.{BlockDescriptor}
use pira.Ctx.Blocks.{
  block_bytes, encode_block, encode_blocks, encode_block_table_v4, read_entry, entry_digest,
  is_misplaced, Sums, follow, decode_blocks, decode_block_table, decode_block_table_v4,
}

-- A block that follows on the blocks in front of it, which take up two sums of bytes.
pub record IsPlaced (logical payload : ℕ) (b : BlockDescriptor) : Type 0 where
  pub codec : b.codec ≤ 1
  pub logical_offset : b.logical_offset ≡ logical
  pub payload_offset : b.payload_offset ≡ payload
  pub uncompressed : 0 < b.uncompressed_length
  pub bounded : b.uncompressed_length ≤ block_bytes
  pub stored : 0 < b.stored_length
  pub plain : b.codec ≡ 0 → b.stored_length ≡ b.uncompressed_length
  pub smaller : b.codec ≡ 1 → b.stored_length < b.uncompressed_length

-- Blocks without a gap, from two sums to two sums.
abbrev pub IsTable : ℕ → ℕ → List BlockDescriptor → ℕ → ℕ → Type 0
IsTable logical payload [] logical_length payload_length =
    (logical ≡ logical_length) × (payload ≡ payload_length)
IsTable logical payload (b ∷ table) logical_length payload_length =
    IsPlaced logical payload b
    × IsTable (logical + b.uncompressed_length) (payload + b.stored_length) table logical_length
        payload_length

-- A block with a digest of 32 bytes.
abbrev pub HasDigest : BlockDescriptor → Type 0
HasDigest b = (digest : Bytes) × (b.content_sha256 ≡ some digest) × (length digest ≡ 32)

is_misplaced-false :
    (logical payload : ℕ) (b : BlockDescriptor)
    → IsPlaced logical payload b
    → is_misplaced logical payload b ≡ false
is_misplaced-false logical payload b h = ground (
  arith, h.codec, h.logical_offset, h.payload_offset, h.uncompressed, h.bounded, h.stored, h.plain,
  h.smaller,
)

pub IsPlaced-of_is_misplaced :
    (logical payload : ℕ) (b : BlockDescriptor)
    → ltb 1 b.codec ≡ false
    → is_misplaced logical payload b ≡ false
    → IsPlaced logical payload b
IsPlaced-of_is_misplaced logical payload b c h = record {
  codec = ground arith;
  logical_offset = ground arith;
  payload_offset = ground arith;
  uncompressed = ground arith;
  bounded = ground arith;
  stored = ground arith;
  plain = λ e. ground arith;
  smaller = λ e. ground arith;
}

IsTable-le :
    (table : List BlockDescriptor) (logical payload logical_length payload_length : ℕ)
    → IsTable logical payload table logical_length payload_length
    → (logical ≤ logical_length) × (payload ≤ payload_length)
IsTable-le [] logical payload logical_length payload_length h =
    (omega (arith, h.0), omega (arith, h.1))
IsTable-le (b ∷ table) logical payload logical_length payload_length h =
    let rest = IsTable-le table _ _ logical_length payload_length h.1 in
    (omega (arith, rest.0), omega (arith, rest.1))

abbrev described : BlockDescriptor → Bytes → BlockDescriptor
described b digest = record b { content_sha256 = some digest }

-- An entry is read back, whatever stands behind it.
module _ (b : BlockDescriptor) (rest digest : Bytes) (whole : length digest ≡ 32) where
  take-digest : take 32 (digest ++ rest) ≡ digest
  take-digest = subst (λ n. take n (digest ++ rest) ≡ digest) whole (take-append digest rest)

  drop-digest : drop 32 (digest ++ rest) ≡ rest
  drop-digest = subst (λ n. drop n (digest ++ rest) ≡ rest) whole (drop-append digest rest)

  read_entry-described :
      b.logical_offset < 2 ^ 64
      → b.uncompressed_length < 2 ^ 64
      → b.stored_length < 2 ^ 64
      → b.payload_offset < 2 ^ 64
      → read_entry entry_digest (encode_block (described b digest) ++ rest) ≡ described b digest
  unfolding read_entry encode_block to_le
  read_entry-described p q r s =
      let first : from_le (b.codec ∷ []) ≡ b.codec = omega arith in
      rw
        (
          first,
          from_le-to_le 8 b.logical_offset p,
          from_le-to_le 8 b.uncompressed_length q,
          from_le-to_le 8 b.stored_length r,
          from_le-to_le 8 b.payload_offset s,
          take-digest,
        )
        refl

  drop-encode_block : drop 72 (encode_block (described b digest) ++ rest) ≡ rest
  unfolding encode_block to_le
  drop-encode_block = drop-digest

-- The same of a descriptor that has a digest.
module _ (b : BlockDescriptor) (rest : Bytes) (h : HasDigest b) where
  same_block : described b h.0 ≡ b
  same_block = ap (λ digest. record b { content_sha256 = digest }) (sym h.1)

  read_entry-encode_block :
      b.logical_offset < 2 ^ 64
      → b.uncompressed_length < 2 ^ 64
      → b.stored_length < 2 ^ 64
      → b.payload_offset < 2 ^ 64
      → read_entry entry_digest (encode_block b ++ rest) ≡ b
  read_entry-encode_block p q r s =
      subst (λ c. read_entry entry_digest (encode_block c ++ rest) ≡ c) same_block
        (read_entry-described b rest h.0 h.2 p q r s)

  drop-entry : drop 72 (encode_block b ++ rest) ≡ rest
  drop-entry =
      subst (λ c. drop 72 (encode_block c ++ rest) ≡ rest) same_block
        (drop-encode_block b rest h.0 h.2)

length-encode_block : (b : BlockDescriptor) → HasDigest b → length (encode_block b) ≡ 72
unfolding encode_block to_le
length-encode_block b h = rw h.1 (omega (arith, h.2))

length-encode_blocks :
    (table : List BlockDescriptor)
    → All HasDigest table
    → length (encode_blocks table) ≡ length table * 72
unfolding encode_blocks
length-encode_blocks [] h = refl
length-encode_blocks (b ∷ table) h = omega (
  arith,
  length-append (encode_block b) (encode_blocks table),
  length-encode_block b h.0,
  length-encode_blocks table h.1,
)

take-to_le8 : (n : ℕ) (xs : Bytes) → take 8 (to_le 8 n ++ xs) ≡ to_le 8 n
unfolding to_le
take-to_le8 n xs = refl

drop-to_le8 : (n : ℕ) (xs : Bytes) → drop 8 (to_le 8 n ++ xs) ≡ xs
unfolding to_le
drop-to_le8 n xs = refl

abbrev pub nothing_read : Sums
nothing_read = record { logical = 0; payload = 0 }

follow-IsPlaced :
    (sums : Sums) (b : BlockDescriptor)
    → IsPlaced sums.logical sums.payload b
    → sums.logical + b.uncompressed_length < 2 ^ 64
    → sums.payload + b.stored_length < 2 ^ 64
    → follow sums b
      ≡ ok (record {
        logical = sums.logical + b.uncompressed_length;
        payload = sums.payload + b.stored_length;
      })
unfolding follow
follow-IsPlaced sums b h l p =
    let codec : ltb 1 b.codec ≡ false = ground (arith, h.codec) in
    rw (codec, is_misplaced-false sums.logical sums.payload b h) (ground arith)

module _ (logical_length payload_length : ℕ) where
  -- The loop on an entry that is known.
  decode_blocks-suc :
      (count : ℕ) (bytes rest : Bytes) (sums : Sums) (b : BlockDescriptor)
      → read_entry entry_digest bytes ≡ b
      → drop 72 bytes ≡ rest
      → decode_blocks 72 entry_digest logical_length payload_length (suc count) bytes sums ≡ (
          follow sums b >>= λ sums'.
          decode_blocks 72 entry_digest logical_length payload_length count rest sums' >>= λ table.
          ok (b ∷ table))
  unfolding decode_blocks
  decode_blocks-suc count bytes rest sums b e d = rw (← e, ← d) refl

  -- The checks in front of the loop.
  decode_block_table-known :
      (bytes rest : Bytes) (count : ℕ)
      → from_le (take 8 bytes) ≡ count
      → drop 8 bytes ≡ rest
      → length bytes ≡ 8 + count * 72
      → count * 72 < 2 ^ 64
      → decode_block_table 72 entry_digest logical_length payload_length bytes
        ≡ decode_blocks 72 entry_digest logical_length payload_length count rest nothing_read
  unfolding decode_block_table
  decode_block_table-known bytes rest count e d size fits =
      rw (decode_block_table, e, d, size, lt→ltb (count * 72) (2 ^ 64) fits) (ground arith)

  module _ (small : logical_length < 2 ^ 64) (small' : payload_length < 2 ^ 64) where
    decode_blocks-encode_blocks :
        (table : List BlockDescriptor) (sums : Sums)
        → IsTable sums.logical sums.payload table logical_length payload_length
        → All HasDigest table
        → decode_blocks 72 entry_digest logical_length payload_length
            (length table)
            (encode_blocks table)
            sums
          ≡ ok table
    unfolding encode_blocks
    decode_blocks-encode_blocks [] sums t h = unfold decode_blocks in ground (arith, t.0, t.1)
    decode_blocks-encode_blocks (b ∷ table) sums t h =
        let rest = encode_blocks table in
        let (l, p) = IsTable-le table _ _ logical_length payload_length t.1 in
        let entry =
          read_entry-encode_block b rest h.0 (omega (arith, t.0.logical_offset)) (omega arith)
            (omega arith) (omega (arith, t.0.payload_offset)) in
        decode_blocks-suc (length table) _ rest sums b entry (drop-entry b rest h.0)
        ∙ rw
            (
              follow-IsPlaced sums b t.0 (omega arith) (omega arith),
              decode_blocks-encode_blocks table _ t.1 h.1,
            )
            refl

    pub decode_block_table_v4-encode :
        (table : List BlockDescriptor)
        → IsTable 0 0 table logical_length payload_length
        → All HasDigest table
        → length table * 72 < 2 ^ 64
        → decode_block_table_v4 (encode_block_table_v4 table) logical_length payload_length
          ≡ ok table
    unfolding decode_block_table_v4 encode_block_table_v4 decode_block_table
    decode_block_table_v4-encode table t h fits =
        let n = length table in
        let size : length (to_le 8 n ++ encode_blocks table) ≡ 8 + n * 72 = omega (
          arith,
          length-append (to_le 8 n) (encode_blocks table),
          length-to_le 8 n,
          length-encode_blocks table h,
        ) in
        decode_block_table-known (to_le 8 n ++ encode_blocks table) (encode_blocks table) n
          (ap from_le (take-to_le8 n (encode_blocks table)) ∙ from_le-to_le 8 n (omega arith))
          (drop-to_le8 n (encode_blocks table)) size fits
        ∙ decode_blocks-encode_blocks table nothing_read t h
