-- ===== src/Ctx/Transform/Printed.antt =====
-- The direct transform (tools/src/pira_ctx/transform.rs) with what tools/src/pira_ctx/lib.rs prints of it.
use pira.Common.{
  ℕ, zero, suc, ◌+◌, ◌-◌, ◌≤◌, ◌<◌, ◌≡◌, refl, sym, ap, ◌∙◌, min, Bool, true, false, List, [], ◌∷◌,
  ◌++◌, append-nil, Option, none, some, ltb, if◌then◌else◌, Text, Bytes, Result, ok, Bool-cases,
  Result-cases, ok-injective, inl, inr, length, length-drop, take, All, arith,
}
use pira.Common.Chars.{decimal}
use pira.Ctx.Stdout.{StreamKind, Log, WriteError, stdout_line}
use pira.Ctx.Section.{StreamReaders}
use pira.Ctx.Section.Lines.{ServesAll}
use pira.Ctx.Transform.{
  TransformError, TransformOptions, Pattern, StoredResult, Kept, nothing_kept, Direct, exceeds,
  compile_patterns, direct_result, result_of, stream_direct, run_direct, print_lines, line_bytes,
  max_materialized_rows, max_materialized_bytes, max_unique_values,
}
use pira.Ctx.Transform.Rows.{picked, unseen, candidates, heads, lasts, chosen}
use pira.Ctx.Transform.Keeping.{keep_all}
use pira.Ctx.Transform.Picks.{total}
use pira.Ctx.Transform.Loop.{Agrees, ends, refuses, IsLine, texts_at, direct_lines-Agrees}
use pira.Ctx.Transform.Tail.{keep_all-count, keep_all-output, keep_all-tail, FirstOf}

module _ (refuses_write : Log → Bool → Bytes → Option WriteError) where
  -- Behind more lines than a report holds, others make no difference.
  print_lines-append :
      (out behind : List Text) (used : ℕ) (log : Log)
      → used ≤ 65536
      → 65536 < used + total out
      → print_lines refuses_write out used log ≡ print_lines refuses_write (out ++ behind) used log
  unfolding print_lines
  print_lines-append [] behind used log h more = absurd (omega arith)
  print_lines-append (t ∷ out) behind used log h more =
      elim (Bool-cases (ltb 65536 (used + line_bytes t))) [
        | inl o ↦ rw (print_lines, o) refl
        | inr f ↦ elim (Result-cases (stdout_line refuses_write t log)) [
          | inl (why, e) ↦ rw (print_lines, f, e) refl
          | inr (log', e) ↦
              rw (print_lines, f, e)
                (print_lines-append out behind (used + line_bytes t) log' (ground arith)
                  (omega arith))
        ]
      ]

total-take : (n : ℕ) (texts : List Text) → total (take n texts) ≤ total texts
total-take zero texts = omega arith
total-take (suc n) [] = omega arith
total-take (suc n) (t ∷ texts) = omega (arith, total-take n texts)

total-picked :
    (matches excludes : List Pattern) (texts : List Text)
    → total (picked matches excludes texts) ≤ total texts
unfolding picked
total-picked matches excludes [] = omega arith
total-picked matches excludes (t ∷ texts) = ground (arith, total-picked matches excludes texts)

total-unseen : (seen texts : List Text) → total (unseen seen texts) ≤ total texts
unfolding unseen
total-unseen seen [] = omega arith
total-unseen seen (t ∷ texts) =
    ground (arith, total-unseen seen texts, total-unseen (t ∷ seen) texts)

total-candidates :
    (unique : Bool) (matches excludes : List Pattern) (seen texts : List Text)
    → total (candidates unique matches excludes seen texts) ≤ total texts
unfolding candidates
total-candidates true matches excludes seen texts =
    omega (
      arith,
      total-unseen seen (picked matches excludes texts),
      total-picked matches excludes texts,
    )
total-candidates false matches excludes seen texts = total-picked matches excludes texts

total-heads :
    (head : Option ℕ) (n : ℕ) (texts : List Text) → total (heads head n texts) ≤ total texts
total-heads none n texts = omega arith
total-heads (some k) n texts = total-take (k - n) texts

-- The last lines are kept whole.
abbrev pub TailFits : Option ℕ → List Text → Type 0
TailFits none rows = Unit {0}
TailFits (some limit) rows = total rows ≤ max_materialized_bytes

TailFits-le :
    (tail : Option ℕ) (rows texts : List Text)
    → total rows ≤ total texts
    → TailFits tail texts
    → TailFits tail rows
TailFits-le none rows texts h fits = tt
TailFits-le (some limit) rows texts h fits = omega (arith, fits)

-- What is kept of the candidates prints as they do, or as their number.
module _ (refuses_write : Log → Bool → Bytes → Option WriteError) (log : Log) where
  abbrev reduced : Bool → Option ℕ → List Text → List Text
  reduced count tail rows =
      if count then decimal (length (lasts tail rows)) ∷ [] else lasts tail rows

  FirstOf-prints :
      (k : Kept) (rows : List Text)
      → FirstOf nothing_kept k rows
      → print_lines refuses_write k.output 0 log ≡ print_lines refuses_write rows 0 log
  FirstOf-prints k rows first = elim first.cut [
    | inl none_behind ↦
        ap (λ out. print_lines refuses_write out 0 log)
          (sym (append-nil k.output) ∙ ap (◌++◌ k.output) (sym none_behind) ∙ sym first.same)
    | inr more ↦
        print_lines-append refuses_write k.output first.behind 0 log (omega arith)
          (omega (arith, more))
        ∙ ap (λ out. print_lines refuses_write out 0 log) (sym first.same)
  ]

  keep_all-result_of :
      (count : Bool) (tail : Option ℕ) (rows : List Text)
      → TailFits tail rows
      → (k : Kept) × (keep_all count tail rows nothing_kept ≡ ok k)
        × (print_lines refuses_write (result_of count tail k) 0 log
            ≡ print_lines refuses_write (reduced count tail rows) 0 log)
  unfolding result_of
  keep_all-result_of true none rows h =
      let (k, done, n) = keep_all-count none rows nothing_kept in
      let m : k.selected ≡ length rows = omega (arith, n) in
      (k, done, ap (λ m. print_lines refuses_write (decimal m ∷ []) 0 log) m)
  keep_all-result_of true (some limit) rows h =
      let (k, done, n) = keep_all-count (some limit) rows nothing_kept in
      let m : min k.selected limit ≡ length (lasts (some limit) rows) =
        omega (arith, n, length-drop (length rows - limit) rows) in
      (k, done, ap (λ m. print_lines refuses_write (decimal m ∷ []) 0 log) m)
  keep_all-result_of false (some limit) rows h =
      let (k, done, last) =
        keep_all-tail limit rows nothing_kept refl (omega arith) (omega (arith, h)) in
      (k, done, ap (λ out. print_lines refuses_write out 0 log) last)
  keep_all-result_of false none rows h =
      let (k, done, first) = keep_all-output rows nothing_kept refl in
      (k, done, FirstOf-prints k rows first)

  Agrees-ok :
      (r : Result TransformError Direct) (kept : Result TransformError Kept) (k : Kept)
      → Agrees r kept
      → kept ≡ ok k
      → (d : Direct) × (r ≡ ok d) × (d.kept ≡ k)
  Agrees-ok r kept k (ends d) e = (d, refl, ok-injective e)
  Agrees-ok r kept k (refuses why) e = absurd cc

  module _ (compile : Text → Result Text Pattern) (sha256 : Bytes → Bytes)
      (decompress : Bytes → ℕ → Result Text Bytes) (content : StreamKind → Bytes)
      (store : StoredResult) (options : TransformOptions) (matches excludes : List Pattern)
      (readers : StreamReaders) where
    abbrev pub texts : List Text
    texts = texts_at content store.line_timeline

    -- Take a complete timeline whose lines lie in the streams that the opened readers serve, none
    -- longer than 128 MiB; expressions that compile; at most a million lines for the tail; for unique
    -- lines at most 100000 lines of at most 128 MiB, and for a tail at most 128 MiB. Then the direct
    -- transform succeeds, and printed it looks as the lines chosen from all texts at once do, also
    -- where it has stopped reading or cut its output.
    pub run_direct-chosen :
        store.timeline_truncated ≡ false
        → store.reader ≡ ok readers
        → compile_patterns compile options.matches ≡ ok matches
        → compile_patterns compile options.excludes ≡ ok excludes
        → exceeds options.tail max_materialized_rows ≡ false
        → ServesAll sha256 decompress content readers
        → All (IsLine content) store.line_timeline
        → (options.unique ≡ true
            → (length texts ≤ max_unique_values) × (total texts ≤ max_materialized_bytes))
        → TailFits options.tail texts
        → (out : List Text) × (run_direct compile sha256 decompress store options ≡ ok out)
          × (print_lines refuses_write out 0 log
              ≡ print_lines refuses_write (chosen options matches excludes texts) 0 log)
    unfolding run_direct stream_direct direct_result chosen
    run_direct-chosen complete opened m e limit all lines room fits =
        let start : Direct = record {
          readers = readers;
          seen = [];
          seen_bytes = 0;
          kept = nothing_kept;
        } in
        let found = candidates options.unique matches excludes [] texts in
        let rows = heads options.head 0 found in
        let fewer : total rows ≤ total texts = omega (
          arith,
          total-heads options.head 0 found,
          total-candidates options.unique matches excludes [] texts,
        ) in
        let (k, done, printed) =
          keep_all-result_of options.count options.tail rows
            (TailFits-le options.tail rows texts fewer fits) in
        let agreed =
          direct_lines-Agrees options matches excludes sha256 decompress content store.line_timeline
            start all lines
            (λ u. record {
              values = omega (arith, (room u).0);
              bytes = omega (arith, (room u).1);
            }) in
        let (d, looped, same) = Agrees-ok _ _ k agreed done in
        (
          result_of options.count options.tail d.kept,
          rw (complete, m, e, limit, opened, looped) refl,
          ap (λ k. print_lines refuses_write (result_of options.count options.tail k) 0 log) same
              ∙ printed,
        )
