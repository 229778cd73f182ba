-- ===== src/Ctx/Section/Excerpt.antt =====
-- `StreamReaders::read_bounded` (tools/src/pira_ctx/model.rs), against the bytes of the line.
use pira.Common.{
  ℕ, ◌+◌, ◌-◌, ◌/◌, ◌^◌, ◌≤◌, ◌<◌, ◌≡◌, refl, sym, ap, ap₂, ◌∙◌, ◌++◌, Bytes, Text, Result, ok,
  ◌>>=◌, length, length-take, length-drop, take, drop, take-take, drop-take, drop-add, leb,
  if◌then◌else◌, Bool-cases, inl, inr, arith,
}
use pira.Ctx.Stdout.{StreamKind}
use pira.Ctx.Section.{
  LineMeta, StreamReaders, ends_behind, validate_line, read_section_range, read_bounded, read_ends,
  read_truncated,
}
use pira.Ctx.Section.Slice.{range_of}
use pira.Ctx.Section.Lines.{
  line_of, ServesAll, Reads, section_length-Serves, read_section_range-range_of,
}

-- A line, of which the middle is left out where it is longer than a maximum.
abbrev pub shortened : ℕ → Bytes → Bytes
shortened maximum bytes =
    if leb (length bytes) maximum
    then bytes
    else take (maximum / 2) bytes
      ++ read_truncated
      ++ drop (length bytes - (maximum - maximum / 2)) bytes

range_of-ok :
    (content : Bytes) (offset n : ℕ)
    → offset + n < 2 ^ 64
    → offset + n ≤ length content
    → range_of content offset n ≡ ok (take n (drop offset content))
range_of-ok content offset n small h = ground arith

-- The ends of a line, as ranges of the stream.
module _ (content : Bytes) (offset n maximum : ℕ) (long : maximum < n)
    (inside : offset + n ≤ length content) where
  abbrev whole_line : Bytes
  whole_line = take n (drop offset content)

  length-whole_line : length whole_line ≡ n
  length-whole_line = omega (arith, length-take n (drop offset content), length-drop offset content)

  first_end : take (maximum / 2) (drop offset content) ≡ take (maximum / 2) whole_line
  first_end = sym (take-take (maximum / 2) n (drop offset content) (omega arith))

  last_end :
      take (maximum - maximum / 2) (drop (offset + n - (maximum - maximum / 2)) content)
      ≡ drop (length whole_line - (maximum - maximum / 2)) whole_line
  last_end =
      let k = n - (maximum - maximum / 2) in
      let at : offset + n - (maximum - maximum / 2) ≡ offset + k = omega arith in
      let left : n - k ≡ maximum - maximum / 2 = omega arith in
      let start : length whole_line - (maximum - maximum / 2) ≡ k =
        omega (arith, length-whole_line) in
      rw start
        (sym (drop-take k n (drop offset content) ∙ rw (at, left, drop-add offset k content) refl))

module _ (sha256 : Bytes → Bytes) (decompress : Bytes → ℕ → Result Text Bytes)
    (content : StreamKind → Bytes) where
  -- A bounded read of a line that an entry names gives the line, or its two ends round a mark
  -- where it is longer than the maximum, and an entry that leaves the stream is refused.
  pub read_bounded-shortened :
      (readers : StreamReaders) (l : LineMeta) (maximum : ℕ)
      → ServesAll sha256 decompress content readers
      → Reads sha256 decompress content
          (line_of content l >>= λ bytes. ok (shortened maximum bytes))
          (read_bounded sha256 decompress readers l maximum)
  unfolding read_bounded validate_line
  read_bounded-shortened readers l maximum all =
      let size = section_length-Serves sha256 decompress content (all l.stream) in
      let bytes = take l.length (drop l.offset (content l.stream)) in
      elim (Bool-cases (ends_behind l.offset l.length (length (content l.stream)))) [
        | inl t ↦ rw (read_bounded, validate_line, size, t) (record { result = refl; serves = all })
        | inr f ↦
            let small : l.offset + l.length < 2 ^ 64 = ground arith in
            let inside : l.offset + l.length ≤ length (content l.stream) = ground arith in
            let n : length bytes ≡ l.length = omega (
              arith,
              length-take l.length (drop l.offset (content l.stream)),
              length-drop l.offset (content l.stream),
            ) in
            elim (Bool-cases (leb l.length maximum)) [
              | inl s ↦
                  let taken =
                    read_section_range-range_of sha256 decompress content readers l.stream l.offset
                      l.length all in
                  rw (read_bounded, validate_line, size, f, n, s)
                    (record {
                      result = taken.result ∙ range_of-ok _ _ _ small inside;
                      serves = taken.serves;
                    })
              | inr g ↦
                  let long : maximum < l.length = ground arith in
                  let first =
                    read_section_range-range_of sha256 decompress content readers l.stream l.offset
                      (maximum / 2) all in
                  let first_bytes =
                    first.result
                    ∙ range_of-ok (content l.stream) l.offset (maximum / 2) (omega arith)
                        (omega arith) in
                  let readers' =
                    (read_section_range sha256 decompress readers l.stream l.offset
                      (maximum / 2)).readers in
                  let last =
                    read_section_range-range_of sha256 decompress content readers' l.stream
                      (l.offset + l.length - (maximum - maximum / 2)) (maximum - maximum / 2)
                      first.serves in
                  let last_bytes =
                    last.result
                    ∙ range_of-ok (content l.stream) (l.offset + l.length - (maximum - maximum / 2))
                        (maximum - maximum / 2) (omega arith) (omega arith) in
                  rw (read_bounded, validate_line, size, f, n, g, read_ends, first_bytes)
                    (record {
                      result = rw last_bytes (
                          ap ok (
                            ap₂ (λ first last. first ++ read_truncated ++ last)
                              (first_end (content l.stream) l.offset l.length maximum long inside)
                              (last_end (content l.stream) l.offset l.length maximum long inside
                                ∙ rw n refl)));
                      serves = last.serves;
                    })
            ]
      ]
