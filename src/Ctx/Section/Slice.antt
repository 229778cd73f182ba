-- ===== src/Ctx/Section/Slice.antt =====
-- `SectionReader::copy_range` and the reads that stand on it (tools/src/pira_ctx/model.rs), against
-- the bytes of the section that is stored.
use pira.Common.{
  subst, ℕ, suc, ◌+◌, ◌-◌, ◌^◌, ◌≤◌, ◌<◌, ◌≡◌, refl, ◌∙◌, max, List, [], ◌∷◌, Bool, Bytes, Text,
  Result, ok, err, length, length-append, length-take, length-drop, take, drop, drop-append_behind,
  leb, if◌then◌else◌, Bool-cases, inl, inr, arith,
}
use pira.Ctx.Section.{
  BlockDescriptor, File, Cache, SectionError, range_exceeds_section, SectionReader, raw, blocks,
  Taken, add64, ends_behind, partition_point, copy_blocks, copy_table, copy_range,
}
use pira.Ctx.Section.Loop.{
  concat, Coherent, Copies, Copies-along, Holds, wanted, Reaches, drop-cons, copy_blocks-wanted,
}

-- What a section of some bytes answers to a range.
abbrev pub range_of : Bytes → ℕ → ℕ → Result SectionError Bytes
range_of content offset size =
    if ends_behind offset size (length content)
    then err range_exceeds_section
    else ok (take size (drop offset content))

module _ (sha256 : Bytes → Bytes) (decompress : Bytes → ℕ → Result Text Bytes) where
  -- A reader of a section of some bytes: a file that answers with them, or a table of blocks that
  -- decode to them, in whatever state the cache is.
  pub data Serves (content : Bytes) : SectionReader → Type 0 where
    serves_raw :
        (file : File) (base size : ℕ)
        → size ≡ length content
        → ((offset n : ℕ)
            → offset + n ≤ length content
            → file.copy_taken (add64 base offset) n ≡ ok (take n (drop offset content)))
        → Serves content (raw file base size)
    serves_blocks :
        (file : File) (base size : ℕ) (table : List BlockDescriptor) (cache : Cache)
        (pieces : List Bytes)
        → size ≡ length content
        → content ≡ concat pieces
        → length content < 2 ^ 64
        → Holds sha256 decompress file base 0 table pieces
        → Coherent pieces cache
        → Serves content (blocks file base size table cache)

  pub record Answers (content : Bytes) (answer : Result SectionError Bytes) (t : Taken)
      : Type 0 where
    pub result : t.result ≡ answer
    pub serves : Serves content t.reader

  module _ (file : File) (base offset end : ℕ) (within_range : offset ≤ end) where
    abbrev ends_in_front : BlockDescriptor → Bool
    ends_in_front b = leb (add64 b.logical_offset b.uncompressed_length) offset

    wanted_behind :
        (position : ℕ) (d : Bytes) (pieces : List Bytes)
        → position + length d ≤ offset
        → wanted sha256 decompress file base offset end (position + length d) pieces
          ≡ wanted sha256 decompress file base offset end position (d ∷ pieces)
    wanted_behind position d pieces h =
        let front : max offset (position + length d) ≡ max offset position = omega arith in
        let left : offset - (position + length d) ≡ offset - position - length d = omega arith in
        rw (front, left, drop-append_behind (offset - position) d (concat pieces) (omega arith))
          refl

    -- The blocks that are skipped lie in front of the range.
    copy_blocks-drop :
        (table : List BlockDescriptor) (pieces all_pieces : List Bytes) (position index first : ℕ)
        (cache : Cache)
        → Holds sha256 decompress file base position table pieces
        → drop index all_pieces ≡ pieces
        → Coherent all_pieces cache
        → position + length (concat pieces) < 2 ^ 64
        → position ≤ offset
        → first ≡ index + partition_point ends_in_front table
        → Copies all_pieces (wanted sha256 decompress file base offset end position pieces) (
            copy_blocks sha256 decompress file base offset end
              (drop (partition_point ends_in_front table) table)
              first
              cache
              [])
    unfolding partition_point
    copy_blocks-drop [] pieces all_pieces position index first cache holds behind c small r e =
        copy_blocks-wanted sha256 decompress file base offset end within_range [] pieces all_pieces
          position first cache [] holds
          (let same : first ≡ index = omega (arith, e) in rw same behind) c small
          (nothing pieces holds)
      where
        nothing :
            (pieces : List Bytes)
            → Holds sha256 decompress file base position [] pieces
            → Reaches sha256 decompress file base offset end position pieces
        nothing [] h = tt
        nothing (d ∷ pieces) h = absurd h
    copy_blocks-drop (b ∷ table) [] all_pieces position index first cache holds behind c small r e =
        absurd holds
    copy_blocks-drop (b ∷ table) (d ∷ pieces) all_pieces position index first cache holds behind c
          small r e =
        let bound : position + length d + length (concat pieces) < 2 ^ 64 =
          omega (arith, length-append d (concat pieces)) in
        let whole_end : add64 b.logical_offset b.uncompressed_length ≡ position + length d =
          omega (arith, holds.0, holds.1) in
        elim (Bool-cases (ends_in_front b)) [
          | inl t ↦
              let counted : partition_point ends_in_front (b ∷ table)
                  ≡ suc (partition_point ends_in_front table) =
                rw (partition_point, t) refl in
              let next =
                copy_blocks-drop table pieces all_pieces (position + length d) (suc index) first
                  cache holds.3 (drop-cons index all_pieces behind).1 c bound
                  (ground (arith, whole_end)) (omega (arith, e, counted)) in
              rw (partition_point, t)
                (Copies-along (wanted_behind position d pieces (ground (arith, whole_end))) next)
          | inr f ↦
              let none_counted : partition_point ends_in_front (b ∷ table) ≡ 0 =
                rw (partition_point, f) refl in
              rw (partition_point, f)
                (copy_blocks-wanted sha256 decompress file base offset end within_range (b ∷ table)
                  (d ∷ pieces) all_pieces position first cache [] holds
                  (let same : first ≡ index = omega (arith, e, none_counted) in rw same behind) c
                  small (ground (arith, whole_end)))
        ]

  length-slice :
      (content : Bytes) (offset n : ℕ)
      → offset + n ≤ length content
      → length (take n (drop offset content)) ≡ n
  length-slice content offset n h =
      omega (arith, length-take n (drop offset content), length-drop offset content)

  -- The table's part, from its beginning.
  copy_table-slice :
      (file : File) (base : ℕ) (table : List BlockDescriptor) (cache : Cache) (pieces : List Bytes)
      (offset n : ℕ)
      → Holds sha256 decompress file base 0 table pieces
      → Coherent pieces cache
      → length (concat pieces) < 2 ^ 64
      → Copies pieces
          (take n (drop offset (concat pieces)))
          (copy_table sha256 decompress file base table cache offset n)
  unfolding copy_table
  copy_table-slice file base table cache pieces offset n holds c small =
      let size : offset + n - max offset 0 ≡ n = omega arith in
      let front : offset - 0 ≡ offset = omega arith in
      Copies-along (rw (size, front) refl) (
        copy_blocks-drop file base offset (offset + n) (omega arith) table pieces pieces 0 0 _ cache
          holds refl c (omega arith) (omega arith) (omega arith))

  -- A reader answers every range with the bytes of the section, or refuses it, and goes on serving
  -- the section, whatever its cache holds then.
  pub copy_range-range_of :
      {reader : SectionReader} (content : Bytes) (offset n : ℕ)
      → Serves content reader
      → Answers content (range_of content offset n) (copy_range sha256 decompress reader offset n)
  unfolding copy_range
  copy_range-range_of content offset n (serves_raw file base size e answers) =
      elim (Bool-cases (ends_behind offset n (length content))) [
        | inl t ↦
            rw (copy_range, e, t)
              (record {
                result = refl;
                serves = serves_raw file base (length content) refl answers;
              })
        | inr f ↦
            let within : offset + n ≤ length content = ground arith in
            rw (copy_range, e, f, answers offset n within)
              (record {
                result = rw (length-slice content offset n within) (ground arith);
                serves = serves_raw file base (length content) refl answers;
              })
      ]
  copy_range-range_of content offset n
        (serves_blocks file base size table cache pieces e k small holds c) =
      let copied =
        copy_table-slice file base table cache pieces offset n holds c
          (subst (λ bytes. length bytes < 2 ^ 64) k small) in
      elim (Bool-cases (ends_behind offset n (length content))) [
        | inl t ↦
            rw (copy_range, e, t)
              (record {
                result = refl;
                serves =
                    serves_blocks file base (length content) table cache pieces refl k small holds
                      c;
              })
        | inr f ↦
            rw (copy_range, e, f)
              (record {
                result = copied.result ∙ rw k refl;
                serves =
                    serves_blocks file base (length content) table _ pieces refl k small holds
                      copied.coherent;
              })
      ]
