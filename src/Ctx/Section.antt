-- ===== src/Ctx/Section.antt =====
-- Reading a stored stream, `StreamReaders` and `SectionReader` of tools/src/pira_ctx/model.rs. What
-- the system answers for an open file, the SHA-256 digest and the decoder of LZ4 are parameters. The
-- output is a `Vec<u8>`, which takes every write; a caller drops it behind an error. Numbers are
-- `u64`, which wrap in a release build; `usize` has 64 bits.

pub mod Loop
pub mod Slice
pub mod Lines
pub mod Excerpt
use pira.Common.{
  ℕ, zero, suc, ◌+◌, ◌-◌, ◌/◌, ◌%◌, ◌^◌, min, max, Bool, true, false, not, ◌||◌, List, [], ◌∷◌,
  ◌++◌, Option, none, some, ltb, leb, ◌==◌, if◌then◌else◌, Text, Bytes, Result, ok, err, reject,
  ◌>>=◌, ◌>>◌, codes, length, take, drop, list_eq,
}
use pira.Common.Utf8.{from_utf8_lossy}
use pira.Ctx.Terminal.{sanitize_terminal}
use pira.Ctx.Stdout.{StreamKind, stdout, stderr}

pub data SectionError : Type 0 where
  range_exceeds_section : SectionError
  system : Text → SectionError
  short_stream_read : ℕ → ℕ → SectionError
  lz4_decode : Text → SectionError
  unsupported_codec : SectionError
  decoded_length_mismatch : SectionError
  block_checksum_mismatch : SectionError
  invalid_timeline_offset : ℕ → SectionError
  -- No message of the program: a slice out of range, which panics.
  panicked : SectionError

abbrev pub add64 : ℕ → ℕ → ℕ
add64 a b = (a + b) % 2 ^ 64

-- `offset.checked_add(length).is_none_or(|end| end > limit)`
abbrev pub ends_behind : ℕ → ℕ → ℕ → Bool
ends_behind offset size limit = not (ltb (offset + size) (2 ^ 64)) || ltb limit (offset + size)

-- An entry of the timeline; what summaries note of a line is left out.
pub record LineMeta : Type 0 where
  pub line : ℕ
  pub stream : StreamKind
  pub offset : ℕ
  pub length : ℕ

pub record BlockDescriptor : Type 0 where
  pub codec : ℕ
  pub logical_offset : ℕ
  pub uncompressed_length : ℕ
  pub stored_length : ℕ
  pub payload_offset : ℕ
  pub content_sha256 : Option Bytes

-- `seek` to a position with `read_exact` of a number of bytes, and `seek` with `io::copy` from
-- `take` of a number of bytes.
pub record File : Type 0 where
  pub read_exact : ℕ → ℕ → Result Text Bytes
  pub copy_taken : ℕ → ℕ → Result Text Bytes

-- The block that was decoded last, with its index.
abbrev pub Cache : Type 0
Cache = Option (ℕ × Bytes)

pub data SectionReader : Type 0 where
  raw : File → ℕ → ℕ → SectionReader
  blocks : File → ℕ → ℕ → List BlockDescriptor → Cache → SectionReader

-- `SectionReader::length`.
unfoldable pub section_length : SectionReader → ℕ
section_length (raw reader base size) = size
section_length (blocks file base size table cache) = size

unfoldable pub validate_line : LineMeta → ℕ → Result SectionError (Unit {0})
validate_line l limit =
    reject (ends_behind l.offset l.length limit) (invalid_timeline_offset l.line)

abbrev pub system_error : {A : Type 0} → Result Text A → Result SectionError A
system_error (ok a) = ok a
system_error (err why) = err (system why)

-- `&data[from..to]`
abbrev pub slice : Bytes → ℕ → ℕ → Result SectionError Bytes
slice decoded from to =
    if leb from to
    then if leb to (length decoded) then ok (take (to - from) (drop from decoded)) else err panicked
    else err panicked

-- `partition_point`, on a list that the test divides into a front and a rest.
unfoldable pub partition_point : (BlockDescriptor → Bool) → List BlockDescriptor → ℕ
partition_point p [] = 0
partition_point p (b ∷ table) = let rest = partition_point p table in if p b then suc rest else 0

-- What a copy leaves: the cache, and the bytes put out.
pub record Copied : Type 0 where
  pub cache : Cache
  pub result : Result SectionError Bytes

pub record StreamReaders : Type 0 where
  pub stdout_reader : SectionReader
  pub stderr_reader : SectionReader

-- `parts_mut`, as a look and as a change.
abbrev pub part : StreamKind → StreamReaders → SectionReader
part stdout readers = readers.stdout_reader
part stderr readers = readers.stderr_reader

abbrev pub with_part : StreamKind → SectionReader → StreamReaders → StreamReaders
with_part stdout r readers = record readers { stdout_reader = r }
with_part stderr r readers = record readers { stderr_reader = r }

pub record Read (A : Type 0) : Type 0 where
  pub readers : StreamReaders
  pub result : Result SectionError A

abbrev pub max_display_read_bytes : ℕ
max_display_read_bytes = 65536

abbrev pub read_truncated : Bytes
read_truncated = codes " ... [line read truncated] ... "

-- What a read leaves: the reader, and the bytes.
pub record Taken : Type 0 where
  pub reader : SectionReader
  pub result : Result SectionError Bytes

abbrev checked_size : ℕ → Bytes → Result SectionError Bytes
checked_size size copied =
    reject (not (length copied == size)) (short_stream_read size (length copied)) >> ok copied

abbrev pub differs : Option Bytes → Bytes → Bool
differs none digest = false
differs (some expected) digest = not (list_eq digest expected)

-- The part of a block that the range from `offset` to `end` takes.
abbrev pub part_of : BlockDescriptor → Bytes → ℕ → ℕ → Result SectionError Bytes
part_of b decoded offset end =
    slice decoded (max offset b.logical_offset - b.logical_offset)
      (min end (add64 b.logical_offset b.uncompressed_length) - b.logical_offset)

module _ (sha256 : Bytes → Bytes) (decompress : Bytes → ℕ → Result Text Bytes) where
  abbrev pub decode_block : BlockDescriptor → Bytes → Result SectionError Bytes
  decode_block b stored =
      if b.codec == 0
      then ok stored
      else if b.codec == 1
      then elim (decompress stored b.uncompressed_length) [
        | ok decoded ↦ ok decoded
        | err why ↦ err (lz4_decode why)
      ]
      else err unsupported_codec

  -- A block that is not in the cache.
  unfoldable pub read_block : File → ℕ → BlockDescriptor → Result SectionError Bytes
  read_block file base b = do
    stored ← system_error (file.read_exact (add64 base b.payload_offset) b.stored_length)
    decoded ← decode_block b stored
    reject (not (length decoded == b.uncompressed_length)) decoded_length_mismatch
    reject (differs b.content_sha256 (sha256 decoded)) block_checksum_mismatch
    ok decoded

  unfoldable pub cached_block : File → ℕ → BlockDescriptor → ℕ → Cache → Result SectionError Bytes
  unfolding read_block
  cached_block file base b index none = read_block file base b
  cached_block file base b index (some (i, decoded)) =
      if i == index then ok decoded else read_block file base b

  -- The loop over the blocks from an index on, with what it has put out.
  unfoldable pub copy_blocks : File → ℕ → ℕ → ℕ → List BlockDescriptor → ℕ → Cache → Bytes → Copied
  unfolding cached_block
  copy_blocks file base offset end [] index cache out = record { cache = cache; result = ok out }
  copy_blocks file base offset end (b ∷ table) index cache out =
      if leb end b.logical_offset
      then record { cache = cache; result = ok out }
      else elim (cached_block file base b index cache) [
        | err why ↦ record { cache = cache; result = err why }
        | ok decoded ↦ elim (part_of b decoded offset end) [
          | err why ↦ record { cache = some (index, decoded); result = err why }
          | ok part ↦
              copy_blocks file base offset end table (suc index) (some (index, decoded))
                (out ++ part)
        ]
      ]

  -- The blocks in front of the one that the range starts in are skipped.
  unfoldable pub copy_table : File → ℕ → List BlockDescriptor → Cache → ℕ → ℕ → Copied
  unfolding copy_blocks partition_point
  copy_table file base table cache offset size =
      let first =
        partition_point (λ b. leb (add64 b.logical_offset b.uncompressed_length) offset) table in
      copy_blocks file base offset (offset + size) (drop first table) first cache []

  unfoldable pub copy_range : SectionReader → ℕ → ℕ → Taken
  unfolding copy_table section_length
  copy_range (raw reader base limit) offset size = record {
    reader = raw reader base limit;
    result =
        if ends_behind offset size limit
        then err range_exceeds_section
        else (system_error (reader.copy_taken (add64 base offset) size) >>= checked_size size);
  }
  copy_range (blocks file base limit table cache) offset size =
      let c = copy_table file base table cache offset size in
      if ends_behind offset size limit
      then record {
        reader = blocks file base limit table cache;
        result = err range_exceeds_section;
      }
      else record { reader = blocks file base limit table c.cache; result = c.result }

  -- `read_range` collects what `copy_range` puts out.
  abbrev pub read_range : SectionReader → ℕ → ℕ → Taken
  read_range = copy_range

  -- A read of one stream's section.
  unfoldable pub read_section_range : StreamReaders → StreamKind → ℕ → ℕ → Read Bytes
  unfolding copy_range
  read_section_range readers stream offset size =
      let taken = read_range (part stream readers) offset size in
      record { readers = with_part stream taken.reader readers; result = taken.result }

  unfoldable pub copy_section : StreamReaders → StreamKind → Read Bytes
  unfolding read_section_range section_length
  copy_section readers stream =
      read_section_range readers stream 0 (section_length (part stream readers))

  unfoldable pub read_section_prefix : StreamReaders → StreamKind → ℕ → Read Bytes
  unfolding read_section_range section_length
  read_section_prefix readers stream maximum =
      read_section_range readers stream 0 (min (section_length (part stream readers)) maximum)

  unfoldable pub copy_line : StreamReaders → LineMeta → Read Bytes
  unfolding read_section_range section_length validate_line
  copy_line readers l = elim (validate_line l (section_length (part l.stream readers))) [
    | err why ↦ record { readers = readers; result = err why }
    | ok u ↦ read_section_range readers l.stream l.offset l.length
  ]

  -- The end of a line behind its beginning.
  abbrev pub with_end : StreamReaders → LineMeta → ℕ → Bytes → Read Bytes
  with_end readers l suffix_length first =
      let last =
        read_section_range readers l.stream (l.offset + l.length - suffix_length) suffix_length in
      record {
        readers = last.readers;
        result = last.result >>= λ bytes. ok (first ++ read_truncated ++ bytes);
      }

  abbrev pub read_ends : StreamReaders → LineMeta → ℕ → Read Bytes
  read_ends readers l maximum =
      let first = read_section_range readers l.stream l.offset (maximum / 2) in
      elim first.result [
        | err why ↦ record { readers = first.readers; result = err why }
        | ok bytes ↦ with_end first.readers l (maximum - maximum / 2) bytes
      ]

  unfoldable pub read_bounded : StreamReaders → LineMeta → ℕ → Read Bytes
  unfolding read_section_range section_length validate_line
  read_bounded readers l maximum = elim (validate_line l (section_length (part l.stream readers))) [
    | err why ↦ record { readers = readers; result = err why }
    | ok u ↦
        if leb l.length maximum
        then read_section_range readers l.stream l.offset l.length
        else read_ends readers l maximum
  ]

  abbrev as_text : (Text → Text) → Read Bytes → Read Text
  as_text shown r = record {
    readers = r.readers;
    result = r.result >>= λ bytes. ok (shown (from_utf8_lossy bytes));
  }

  unfoldable pub read_display_line : StreamReaders → LineMeta → Read Text
  unfolding read_bounded sanitize_terminal from_utf8_lossy
  read_display_line readers l =
      as_text sanitize_terminal (read_bounded readers l max_display_read_bytes)

  unfoldable pub read_full_display_line : StreamReaders → LineMeta → Read Text
  unfolding read_bounded sanitize_terminal from_utf8_lossy
  read_full_display_line readers l = as_text sanitize_terminal (read_bounded readers l (2 ^ 64 - 1))

  unfoldable pub read_security_line : StreamReaders → LineMeta → Read Text
  unfolding read_bounded from_utf8_lossy
  read_security_line readers l =
      as_text (λ text. text) (read_bounded readers l max_display_read_bytes)
