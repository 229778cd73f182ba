-- ===== src/Ctx/Section/Lines.antt =====
-- `StreamReaders::copy_line` and `read_bounded` (tools/src/pira_ctx/model.rs), against the bytes of the
-- two streams.
use pira.Common.{
  ℕ, ◌≡◌, refl, ◌∙◌, Bytes, Text, Result, ok, err, length, take, drop, if◌then◌else◌, Bool-cases,
  inl, inr,
}
use pira.Ctx.Stdout.{StreamKind, stdout, stderr}
use pira.Ctx.Section.{
  SectionError, invalid_timeline_offset, SectionReader, LineMeta, StreamReaders, part, with_part,
  Read, ends_behind, section_length, validate_line, read_section_range, copy_line,
}
use pira.Ctx.Section.Slice.{range_of, Serves, serves_raw, serves_blocks, copy_range-range_of}

-- What the timeline's entry stands for.
abbrev pub line_of : (StreamKind → Bytes) → LineMeta → Result SectionError Bytes
line_of content l =
    if ends_behind l.offset l.length (length (content l.stream))
    then err (invalid_timeline_offset l.line)
    else ok (take l.length (drop l.offset (content l.stream)))

module _ (sha256 : Bytes → Bytes) (decompress : Bytes → ℕ → Result Text Bytes)
    (content : StreamKind → Bytes) where
  abbrev pub ServesAll : StreamReaders → Type 0
  ServesAll readers =
      (stream : StreamKind) → Serves sha256 decompress (content stream) (part stream readers)

  pub record Reads {A : Type 0} (answer : Result SectionError A) (r : Read A) : Type 0 where
    pub result : r.result ≡ answer
    pub serves : ServesAll r.readers

  pub section_length-Serves :
      {bytes : Bytes} {reader : SectionReader}
      → Serves sha256 decompress bytes reader
      → section_length reader ≡ length bytes
  unfolding section_length
  section_length-Serves (serves_raw file base size e answers) = e
  section_length-Serves (serves_blocks file base size table cache pieces e k small holds c) = e

  with_part-ServesAll :
      (stream : StreamKind) (reader : SectionReader) (readers : StreamReaders)
      → Serves sha256 decompress (content stream) reader
      → ServesAll readers
      → ServesAll (with_part stream reader readers)
  with_part-ServesAll stdout reader readers s all stdout = s
  with_part-ServesAll stdout reader readers s all stderr = all stderr
  with_part-ServesAll stderr reader readers s all stdout = all stdout
  with_part-ServesAll stderr reader readers s all stderr = s

  pub read_section_range-range_of :
      (readers : StreamReaders) (stream : StreamKind) (offset n : ℕ)
      → ServesAll readers
      → Reads
          (range_of (content stream) offset n)
          (read_section_range sha256 decompress readers stream offset n)
  unfolding read_section_range
  read_section_range-range_of readers stream offset n all =
      let taken = copy_range-range_of sha256 decompress (content stream) offset n (all stream) in
      record {
        result = taken.result;
        serves = with_part-ServesAll stream _ readers taken.serves all;
      }

  -- A line is read as what its entry stands for, or refused where the entry leaves the stream.
  pub copy_line-line_of :
      (readers : StreamReaders) (l : LineMeta)
      → ServesAll readers
      → Reads (line_of content l) (copy_line sha256 decompress readers l)
  unfolding copy_line validate_line
  copy_line-line_of readers l all =
      let size = section_length-Serves (all l.stream) in
      let taken = read_section_range-range_of readers l.stream l.offset l.length all in
      elim (Bool-cases (ends_behind l.offset l.length (length (content l.stream)))) [
        | inl t ↦ rw (copy_line, validate_line, size, t) (record { result = refl; serves = all })
        | inr f ↦
            rw (copy_line, validate_line, size, f)
              (record { result = taken.result ∙ rw f refl; serves = taken.serves })
      ]
