-- ===== src/Ctx/Transform/Loop.antt =====
-- The loop of `stream_direct` (tools/src/pira_ctx/transform.rs) over a timeline whose lines lie in the
-- streams that are read.
use pira.Common.{
  ℕ, suc, ◌+◌, ◌≤◌, ◌≡◌, refl, ◌∙◌, true, false, List, [], ◌∷◌, le→ltb_false, Text, Bytes, Result,
  ok, err, ◌>>=◌, Bool-cases, inl, inr, length, take, drop, All, map, arith,
}
use pira.Ctx.Stdout.{StreamKind}
use pira.Ctx.Section.{LineMeta, StreamReaders, ends_behind, copy_line}
use pira.Ctx.Section.Lines.{ServesAll, copy_line-line_of}
use pira.Ctx.Transform.{
  TransformError, TransformOptions, Pattern, Kept, keep, Flow, go_on, Direct, keep_into, with_kept,
  pick, text_of, reaches_head, direct_line, direct_lines, line_bytes, max_materialized_bytes,
}
use pira.Ctx.Transform.Rows.{candidates, heads, heads_done, heads_more, heads_nothing}
use pira.Ctx.Transform.Keeping.{
  keep_all, Counted, counted_on, counted_last, counted_error, keep-Counted,
}
use pira.Ctx.Transform.Picks.{HasRoom, Picks, passes, keeps, pick-Picks}

-- The texts of a timeline in the streams' bytes.
module _ (content : StreamKind → Bytes) where
  -- A line of the timeline that lies in its stream and is not too long.
  abbrev pub IsLine : LineMeta → Type 0
  IsLine l =
      (ends_behind l.offset l.length (length (content l.stream)) ≡ false)
      × (l.length ≤ max_materialized_bytes)

  abbrev pub text_at : LineMeta → Text
  text_at l = text_of (take l.length (drop l.offset (content l.stream)))

  abbrev pub texts_at : List LineMeta → List Text
  texts_at timeline = map text_at timeline

-- The loop ends with what is kept, or with the same error.
pub data Agrees : Result TransformError Direct → Result TransformError Kept → Type 0 where
  ends : (d : Direct) → Agrees (ok d) (ok d.kept)
  refuses : (why : TransformError) → Agrees (err why) (err why)

keep_into-Agrees :
    (d : Direct) (next : Direct → Result TransformError Direct)
    (keep_next : Kept → Result TransformError Kept) {r : Result TransformError (Flow Kept)}
    → Counted d.kept r
    → ((k : Kept)
        → k.selected ≡ suc d.kept.selected
        → Agrees (next (record d { kept = k })) (keep_next k))
    → Agrees (go_on next (r >>= λ flow. ok (with_kept d flow))) (go_on keep_next r)
keep_into-Agrees d next keep_next (counted_on k e) h = h k e
keep_into-Agrees d next keep_next (counted_last k) h = ends (record d { kept = k })
keep_into-Agrees d next keep_next (counted_error why) h = refuses why

module _ (options : TransformOptions) (matches excludes : List Pattern) where
  abbrev pub keep_heads : List Text → List Text → Kept → Result TransformError Kept
  keep_heads seen texts k =
      keep_all options.count options.tail
        (heads options.head k.selected (candidates options.unique matches excludes seen texts)) k

  -- A round that the head lets through.
  Picks-Agrees :
      (d : Direct) (t : Text) (texts : List Text) (next : Direct → Result TransformError Direct)
      {r : Result TransformError (Flow Direct)}
      → reaches_head options.head d.kept.selected ≡ false
      → Picks options.unique options matches excludes d t r
      → ((seen : List Text) (bytes : ℕ) (k : Kept)
          → length seen ≤ suc (length d.seen)
          → bytes ≤ d.seen_bytes + line_bytes t
          → Agrees
              (next (record d { seen = seen; seen_bytes = bytes; kept = k }))
              (keep_heads seen texts k))
      → Agrees (go_on next r) (keep_heads d.seen (t ∷ texts) d.kept)
  unfolding keep_all keep_into keep
  Picks-Agrees d t texts next more (passes same) h =
      rw (same texts) (h d.seen d.seen_bytes d.kept (omega arith) (omega arith))
  Picks-Agrees d t texts next more (keeps seen bytes n b same) h =
      rw
        (
          same texts,
          heads_more options.head d.kept.selected t
              (candidates options.unique matches excludes seen texts) more,
          keep_all,
          keep_into,
        )
        (keep_into-Agrees (record d { seen = seen; seen_bytes = bytes }) next
          (keep_all options.count options.tail (
            heads options.head (suc d.kept.selected)
              (candidates options.unique matches excludes seen texts)))
          (keep-Counted options d.kept t) (λ k e. rw (← e) (h seen bytes k n b)))

  module _ (sha256 : Bytes → Bytes) (decompress : Bytes → ℕ → Result Text Bytes)
      (content : StreamKind → Bytes) where
    -- A line is read, and the round goes on with its text.
    direct_line-pick :
        (d : Direct) (l : LineMeta)
        → ServesAll sha256 decompress content d.readers
        → IsLine content l
        → (readers : StreamReaders) × ServesAll sha256 decompress content readers
          × (direct_line sha256 decompress options matches excludes d l
              ≡ pick options matches excludes (record d { readers = readers }) (text_at content l))
    unfolding direct_line
    direct_line-pick d l all line =
        let read = copy_line sha256 decompress d.readers l in
        let copied = copy_line-line_of sha256 decompress content d.readers l all in
        let whole : read.result ≡ ok (take l.length (drop l.offset (content l.stream))) =
          copied.result ∙ rw line.0 refl in
        (
          read.readers,
          copied.serves,
          rw (direct_line, le→ltb_false max_materialized_bytes l.length line.1, whole) refl,
        )

    pub direct_lines-Agrees :
        (timeline : List LineMeta) (d : Direct)
        → ServesAll sha256 decompress content d.readers
        → All (IsLine content) timeline
        → (options.unique ≡ true → HasRoom d (texts_at content timeline))
        → Agrees
            (direct_lines sha256 decompress options matches excludes timeline d)
            (keep_heads d.seen (texts_at content timeline) d.kept)
    unfolding direct_lines
    direct_lines-Agrees [] d all lines room =
        rw (heads_nothing options.head d.kept.selected options.unique matches excludes d.seen)
          (unfold keep_all in ends d)
    direct_lines-Agrees (l ∷ timeline) d all lines room =
        elim (Bool-cases (reaches_head options.head d.kept.selected)) [
          | inl t ↦
              rw
                (
                  direct_lines,
                  t,
                  heads_done options.head d.kept.selected
                      (candidates options.unique matches excludes d.seen
                        (texts_at content (l ∷ timeline)))
                      t,
                )
                (unfold keep_all in ends d)
          | inr f ↦
              let (readers, all', same) = direct_line-pick d l all lines.0 in
              let d' : Direct = record d { readers = readers } in
              rw (direct_lines, f, same)
                (Picks-Agrees d' (text_at content l) (texts_at content timeline)
                  (direct_lines sha256 decompress options matches excludes timeline) f
                  (pick-Picks options matches excludes d' (text_at content l)
                    (λ u. let h = room u in (omega (arith, h.values), omega (arith, h.bytes))))
                  (λ seen bytes k n b.
                    direct_lines-Agrees timeline
                      (record d' { seen = seen; seen_bytes = bytes; kept = k }) all' lines.1
                      (λ u.
                        let h = room u in
                        record {
                          values = omega (arith, h.values);
                          bytes = omega (arith, h.bytes);
                        })))
        ]
