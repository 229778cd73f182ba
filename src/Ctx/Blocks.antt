-- ===== src/Ctx/Blocks.antt =====
-- The blocks of a stored stream, tools/src/pira_ctx/storage.rs: how a captured stream is cut,
-- compressed and described, and the table of the descriptors as bytes, of format 4 and of format 3.
-- What a read of the capture brings, the encoder of LZ4 and the SHA-256 digest are parameters;
-- numbers are `u64`, and `usize` has 64 bits, so that no conversion fails. The writer's sums are
-- not bounded here; what is said of them supposes that they fit. The errors of reading the capture and
-- of writing the payload are not modelled.
pub mod Table
pub mod Accepted
pub mod Saved
mod Tests
use pira.Common.{
  ℕ, zero, suc, ◌+◌, ◌*◌, ◌^◌, Bool, true, false, not, ◌&&◌, ◌||◌, List, [], ◌∷◌, ◌++◌, Option,
  none, some, ltb, leb, ◌==◌, if◌then◌else◌, Bytes, Result, ok, err, reject, ◌>>=◌, ◌>>◌, length,
  take, drop, replicate,
}
use pira.Dec.Codec.{to_le, from_le}
use pira.Ctx.Section.{BlockDescriptor}

pub data TableError : Type 0 where
  corrupt_block_table : TableError
  block_table_overflow : TableError
  corrupt_block_table_length : TableError
  unsupported_block_codec : TableError
  non_contiguous_block_table : TableError
  block_overflow : TableError
  block_table_totals_disagree : TableError

abbrev pub block_bytes : ℕ
block_bytes = 262144

abbrev pub v3_block_descriptor_bytes : ℕ
v3_block_descriptor_bytes = 40

abbrev pub v4_block_descriptor_bytes : ℕ
v4_block_descriptor_bytes = 72

-- What `write_block_stream` has written: the descriptors, and the payload in the file.
pub record Stored : Type 0 where
  pub descriptors : List BlockDescriptor
  pub payload : Bytes

module _ (compress : Bytes → Bytes) where
  abbrev pub is_smaller : Bytes → Bool
  is_smaller chunk = leb (length (compress chunk) * 100) (length chunk * 95)

  -- The codec and the bytes of one chunk.
  abbrev pub codec_of : Bytes → ℕ
  codec_of chunk = if is_smaller chunk then 1 else 0

  abbrev pub stored_bytes : Bytes → Bytes
  stored_bytes chunk = if is_smaller chunk then compress chunk else chunk

  module _ (sha256 : Bytes → Bytes) where
    abbrev pub describe : ℕ → ℕ → Bytes → BlockDescriptor
    describe logical payload chunk = record {
      codec = codec_of chunk;
      logical_offset = logical;
      uncompressed_length = length chunk;
      stored_length = length (stored_bytes chunk);
      payload_offset = payload;
      content_sha256 = some (sha256 chunk);
    }

    -- The loop of `write_block_stream` on the chunks that its reads bring, of which an empty one is the
    -- end of the stream.
    unfoldable pub write_blocks : ℕ → ℕ → List Bytes → Stored
    write_blocks logical payload [] = record { descriptors = []; payload = [] }
    write_blocks logical payload ([] ∷ chunks) = record { descriptors = []; payload = [] }
    write_blocks logical payload ((c ∷ chunk) ∷ chunks) =
        let bytes = stored_bytes (c ∷ chunk) in
        let rest = write_blocks (logical + length (c ∷ chunk)) (payload + length bytes) chunks in
        record {
          descriptors = describe logical payload (c ∷ chunk) ∷ rest.descriptors;
          payload = bytes ++ rest.payload;
        }

    unfoldable pub write_block_stream : List Bytes → Stored
    unfolding write_blocks
    write_block_stream chunks = write_blocks 0 0 chunks

abbrev pub digest_or_zeros : Option Bytes → Bytes
digest_or_zeros (some digest) = digest
digest_or_zeros none = replicate 32 0

-- One entry of `encode_block_table_v4`.
unfoldable pub encode_block : BlockDescriptor → Bytes
unfolding to_le
encode_block b =
    b.codec ∷ replicate 7 0
    ++ to_le 8 b.logical_offset
    ++ to_le 8 b.uncompressed_length
    ++ to_le 8 b.stored_length
    ++ to_le 8 b.payload_offset
    ++ digest_or_zeros b.content_sha256

unfoldable pub encode_blocks : List BlockDescriptor → Bytes
unfolding encode_block
encode_blocks [] = []
encode_blocks (b ∷ table) = encode_block b ++ encode_blocks table

unfoldable pub encode_block_table_v4 : List BlockDescriptor → Bytes
unfolding encode_blocks to_le
encode_block_table_v4 table = to_le 8 (length table) ++ encode_blocks table

-- The number at a place of an entry.
abbrev pub value_at : ℕ → Bytes → ℕ
value_at p bytes = from_le (take 8 (drop p bytes))

-- An entry's codec, its numbers, and, of format 4, its digest.
unfoldable pub read_entry : (Bytes → Option Bytes) → Bytes → BlockDescriptor
unfolding from_le
read_entry digest_of bytes = record {
  codec = from_le (take 1 bytes);
  logical_offset = value_at 8 bytes;
  uncompressed_length = value_at 16 bytes;
  stored_length = value_at 24 bytes;
  payload_offset = value_at 32 bytes;
  content_sha256 = digest_of bytes;
}

abbrev pub no_digest : Bytes → Option Bytes
no_digest bytes = none

abbrev pub entry_digest : Bytes → Option Bytes
entry_digest bytes = some (take 32 (drop 40 bytes))

-- The test whether a block does not follow on the blocks in front of it.
abbrev pub is_misplaced : ℕ → ℕ → BlockDescriptor → Bool
is_misplaced logical payload b =
    not (b.logical_offset == logical)
    || not (b.payload_offset == payload)
    || b.uncompressed_length == 0
    || ltb block_bytes b.uncompressed_length
    || b.stored_length == 0
    || (b.codec == 0 && not (b.stored_length == b.uncompressed_length))
    || (b.codec == 1 && leb b.uncompressed_length b.stored_length)

-- The two sums behind a block, `checked_add`.
abbrev pub checked_add : ℕ → ℕ → Result TableError ℕ
checked_add a b = reject (not (ltb (a + b) (2 ^ 64))) block_overflow >> ok (a + b)

-- What the blocks read so far take up, decoded and in the file.
pub record Sums : Type 0 where
  pub logical : ℕ
  pub payload : ℕ

-- The checks of a block, and the sums behind it.
unfoldable pub follow : Sums → BlockDescriptor → Result TableError Sums
follow sums b = do
  reject (ltb 1 b.codec) unsupported_block_codec
  reject (is_misplaced sums.logical sums.payload b) non_contiguous_block_table
  logical ← checked_add sums.logical b.uncompressed_length
  payload ← checked_add sums.payload b.stored_length
  ok (record { logical = logical; payload = payload })

-- The loop of both decoders: the entries left, their bytes, and the sums so far.
module _ (width : ℕ) (digest_of : Bytes → Option Bytes) (logical_length payload_length : ℕ) where
  abbrev pub check_totals : Sums → Result TableError (List BlockDescriptor)
  check_totals sums =
      reject (not (sums.logical == logical_length) || not (sums.payload == payload_length))
        block_table_totals_disagree
      >> ok []

  unfoldable pub decode_blocks : ℕ → Bytes → Sums → Result TableError (List BlockDescriptor)
  unfolding read_entry follow
  decode_blocks zero bytes sums = check_totals sums
  decode_blocks (suc count) bytes sums =
      let b = read_entry digest_of bytes in
      do sums' ← follow sums b; table ← decode_blocks count (drop width bytes) sums'; ok (b ∷ table)

  -- `8 + count * width` stays below 2 ^ 64 where `count * width` does, for both widths.
  unfoldable pub decode_block_table : Bytes → Result TableError (List BlockDescriptor)
  unfolding decode_blocks from_le
  decode_block_table bytes =
      let count = from_le (take 8 bytes) in
      do
        reject (ltb (length bytes) 8) corrupt_block_table
        reject (not (ltb (count * width) (2 ^ 64))) block_table_overflow
        reject (not (length bytes == 8 + count * width)) corrupt_block_table_length
        decode_blocks count (drop 8 bytes) (record { logical = 0; payload = 0 })

unfoldable pub decode_block_table_v3 : Bytes → ℕ → ℕ → Result TableError (List BlockDescriptor)
unfolding decode_block_table
decode_block_table_v3 bytes logical_length payload_length =
    decode_block_table v3_block_descriptor_bytes no_digest logical_length payload_length bytes

unfoldable pub decode_block_table_v4 : Bytes → ℕ → ℕ → Result TableError (List BlockDescriptor)
unfolding decode_block_table
decode_block_table_v4 bytes logical_length payload_length =
    decode_block_table v4_block_descriptor_bytes entry_digest logical_length payload_length bytes
