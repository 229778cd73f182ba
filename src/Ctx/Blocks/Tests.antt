-- ===== src/Ctx/Blocks/Tests.antt =====
-- Runs of the blocks of a stored stream and of the readers on them, and the theorems at concrete
-- streams. The stand-in for LZ4 packs three zeros at the front into one byte.
use pira.Common.{
  ◌>>=◌, ℕ, zero, suc, ◌+◌, ◌*◌, ◌^◌, ◌≤◌, ◌<◌, ◌≡◌, refl, ap, ◌∙◌, List, [], ◌∷◌, ◌++◌, none, some,
  leb, le→leb, if◌then◌else◌, Bytes, Text, Result, ok, err, codes, list_eq, length, length-append,
  take, drop, drop-add, drop-append, replicate, All, arith,
}
use pira.Ctx.Stdout.{StreamKind, stdout, stderr}
use pira.Ctx.Section.{
  BlockDescriptor, File, LineMeta, range_exceeds_section, SectionReader, raw, blocks, StreamReaders,
  add64, copy_range, read_bounded, read_block,
}
use pira.Ctx.Section.Loop.{concat}
use pira.Ctx.Section.Slice.{
  range_of, Serves, serves_raw, serves_blocks, Answers, copy_range-range_of,
}
use pira.Ctx.Section.Lines.{line_of, ServesAll, Reads}
use pira.Ctx.Section.Excerpt.{shortened, read_bounded-shortened}
use pira.Ctx.Blocks.{
  Stored, write_block_stream, encode_block_table_v4, decode_block_table, decode_block_table_v4,
  entry_digest,
}
use pira.Ctx.Blocks.Table.{IsTable}
use pira.Ctx.Blocks.Accepted.{decode_block_table-IsTable}
use pira.Ctx.Blocks.Saved.{IsChunk, HoldsAt, IsCodec, write_block_stream-read_back}

abbrev pack : Bytes → Bytes
pack (zero ∷ zero ∷ zero ∷ x) = 1 ∷ x
pack x = 0 ∷ x

abbrev unpack : Bytes → ℕ → Result Text Bytes
unpack (suc k ∷ x) n = ok (0 ∷ 0 ∷ 0 ∷ x)
unpack (zero ∷ x) n = ok x
unpack [] n = err (codes "empty")

abbrev digest : Bytes → Bytes
digest x = length x ∷ replicate 31 0

unpack-pack : (x : Bytes) → unpack (pack x) (length x) ≡ ok x
unpack-pack [] = refl
unpack-pack (suc a ∷ x) = refl
unpack-pack (zero ∷ []) = refl
unpack-pack (zero ∷ suc a ∷ x) = refl
unpack-pack (zero ∷ zero ∷ []) = refl
unpack-pack (zero ∷ zero ∷ suc a ∷ x) = refl
unpack-pack (zero ∷ zero ∷ zero ∷ x) = refl

pack_fills : (x : Bytes) → 0 < length x → 0 < length (pack x)
pack_fills [] h = omega arith
pack_fills (suc a ∷ x) h = omega arith
pack_fills (zero ∷ []) h = omega arith
pack_fills (zero ∷ suc a ∷ x) h = omega arith
pack_fills (zero ∷ zero ∷ []) h = omega arith
pack_fills (zero ∷ zero ∷ suc a ∷ x) h = omega arith
pack_fills (zero ∷ zero ∷ zero ∷ x) h = omega arith

pack-IsCodec : IsCodec pack unpack digest
pack-IsCodec = record { turns_back = unpack-pack; fills = pack_fills; digests = λ x. refl }

-- A file of some bytes.
abbrev file_of : Bytes → File
file_of bytes = record {
  read_exact = λ p n.
      if leb (p + n) (length bytes)
      then ok (take n (drop p bytes))
      else err (codes "failed to fill whole buffer");
  copy_taken = λ p n. ok (take n (drop p bytes));
}

file_of-HoldsAt :
    (front payload : Bytes)
    → length front + length payload < 2 ^ 64
    → HoldsAt (file_of (front ++ payload)) (length front) 0 payload
file_of-HoldsAt front payload small p n h =
    let at : add64 (length front) (0 + p) ≡ length front + p = omega arith in
    let fits : length front + p + n ≤ length (front ++ payload) =
      omega (arith, length-append front payload) in
    let same : drop (length front + p) (front ++ payload) ≡ drop p payload =
      drop-add (length front) p (front ++ payload) ∙ ap (drop p) (drop-append front payload) in
    rw (at, le→leb _ _ fits, same) refl

abbrev header : Bytes
header = 80 ∷ 73 ∷ []

abbrev chunks : List Bytes
chunks = (0 ∷ 0 ∷ 0 ∷ 5 ∷ 6 ∷ []) ∷ (7 ∷ 8 ∷ []) ∷ (9 ∷ []) ∷ []

abbrev stored : Stored
stored = write_block_stream pack digest chunks

chunks-IsChunk : All IsChunk chunks
chunks-IsChunk =
    ((omega arith, omega arith), ((omega arith, omega arith), ((omega arith, omega arith), tt)))

stored_payload : stored.payload ≡ 1 ∷ 5 ∷ 6 ∷ 7 ∷ 8 ∷ 9 ∷ []
unfolding write_block_stream
stored_payload = refl

abbrev reader : SectionReader
reader = blocks (file_of (header ++ stored.payload)) 2 8 stored.descriptors none

copy_range_crossing : (copy_range digest unpack reader 3 4).result ≡ ok (5 ∷ 6 ∷ 7 ∷ 8 ∷ [])
unfolding copy_range write_block_stream list_eq
copy_range_crossing = refl

copy_range_outside : (copy_range digest unpack reader 3 6).result ≡ err range_exceeds_section
unfolding copy_range write_block_stream
copy_range_outside = refl

stored-HoldsAt : HoldsAt (file_of (header ++ stored.payload)) 2 0 stored.payload
stored-HoldsAt = file_of-HoldsAt header stored.payload (unfold write_block_stream in omega arith)

write_block_stream-read_back_example :
    (table : List BlockDescriptor) × (decode_block_table_v4
        (encode_block_table_v4 stored.descriptors)
        8
        (length stored.payload)
      ≡ ok table)
    × Answers digest unpack
        (concat chunks)
        (range_of (concat chunks) 3 4)
        (copy_range digest unpack (blocks (file_of (header ++ stored.payload)) 2 8 table none) 3 4)
write_block_stream-read_back_example =
    write_block_stream-read_back pack unpack digest pack-IsCodec
      (file_of (header ++ stored.payload)) 2 chunks 3 4 chunks-IsChunk (omega arith) (omega arith)
      (unfold write_block_stream in omega arith) stored-HoldsAt

-- A reader that has decoded the second block.
abbrev warm : SectionReader
warm = blocks (file_of (header ++ stored.payload)) 2 8 stored.descriptors (some (1, 7 ∷ 8 ∷ []))

warm-Serves : Serves digest unpack (concat chunks) warm
unfolding write_block_stream read_block list_eq
warm-Serves =
    serves_blocks (file_of (header ++ stored.payload)) 2 8 stored.descriptors (some (1, 7 ∷ 8 ∷ []))
      chunks refl refl (omega arith)
      ((refl, refl, refl, (refl, refl, refl, (refl, refl, refl, tt)))) refl

copy_range-range_of_example :
    Answers digest unpack
      (concat chunks)
      (range_of (concat chunks) 4 3)
      (copy_range digest unpack warm 4 3)
copy_range-range_of_example = copy_range-range_of digest unpack (concat chunks) 4 3 warm-Serves

abbrev content : StreamKind → Bytes
content stdout = concat chunks
content stderr = 33 ∷ 10 ∷ []

abbrev readers : StreamReaders
readers = record { stdout_reader = warm; stderr_reader = raw (file_of (33 ∷ 10 ∷ [])) 0 2 }

readers-ServesAll : ServesAll digest unpack content readers
readers-ServesAll stdout = warm-Serves
readers-ServesAll stderr =
    serves_raw (file_of (33 ∷ 10 ∷ [])) 0 2 refl
      λ offset n h. (let at : add64 0 offset ≡ offset = omega (arith, h) in rw at refl)

abbrev second_line : LineMeta
second_line = record { line = 2; stream = stdout; offset = 4; length = 3 }

-- A line of three bytes, of which two may be read: the first and the last.
read_bounded-shortened_example :
    Reads digest unpack content
      (line_of content second_line >>= λ bytes. ok (shortened 2 bytes))
      (read_bounded digest unpack readers second_line 2)
read_bounded-shortened_example =
    read_bounded-shortened digest unpack content readers second_line 2 readers-ServesAll

abbrev table : List BlockDescriptor
table = (write_block_stream pack digest chunks).descriptors

table_decoded : decode_block_table 72 entry_digest 8 6 (encode_block_table_v4 table) ≡ ok table
unfolding decode_block_table encode_block_table_v4 write_block_stream
table_decoded = refl

decode_block_table-IsTable_example :
    IsTable 0 0 table 8 6 × (length (encode_block_table_v4 table) ≡ 8 + length table * 72)
decode_block_table-IsTable_example =
    decode_block_table-IsTable 72 entry_digest 8 6 (encode_block_table_v4 table) table table_decoded
