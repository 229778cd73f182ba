-- ===== src/Ctx/Plan/Loaded.antt =====
-- `load_rows` (tools/src/pira_ctx/transform.rs) on a timeline whose lines lie in the streams that are
-- read, and its filters.
use pira.Common.{
  ℕ, ◌+◌, ◌-◌, ◌≤◌, ◌≡◌, refl, sym, ap, ◌∙◌, Bool, true, false, not, ◌&&◌, List, [], ◌∷◌, ltb,
  le→ltb_false, if◌then◌else◌, Text, Bytes, Result, ok, err, >>=-eq-ok, ok-injective, Bool-cases,
  inl, inr, length, length-take, length-drop, take, drop, All, all, any, arith,
}
use pira.Ctx.Stdout.{StreamKind}
use pira.Ctx.Section.{LineMeta, StreamReaders, copy_line}
use pira.Ctx.Section.Lines.{ServesAll, copy_line-line_of}
use pira.Ctx.Transform.{Pattern, as_regex, compile_patterns, max_materialized_bytes}
use pira.Ctx.Transform.Loop.{IsLine, text_at, texts_at}
use pira.Ctx.Plan.{load_lines, check_materialization_budget}
use pira.Ctx.Plan.Rows.{Row, texts_of, select}
use pira.Ctx.Plan.Steps.{filter, filter_each, compiled}

-- The bytes of a timeline's lines.
abbrev pub sizes : List LineMeta → ℕ
sizes [] = 0
sizes (l ∷ timeline) = l.length + sizes timeline

abbrev pub rows_at : (StreamKind → Bytes) → List LineMeta → List Row
rows_at content [] = []
rows_at content (l ∷ timeline) =
    record { text = text_at content l; stream = l.stream } ∷ rows_at content timeline

pub texts_of-rows_at :
    (content : StreamKind → Bytes) (timeline : List LineMeta)
    → texts_of (rows_at content timeline) ≡ texts_at content timeline
texts_of-rows_at content [] = refl
texts_of-rows_at content (l ∷ timeline) =
    ap (◌∷◌ (text_at content l)) (texts_of-rows_at content timeline)

module _ (sha256 : Bytes → Bytes) (decompress : Bytes → ℕ → Result Text Bytes)
    (content : StreamKind → Bytes) where
  pub load_lines-rows_at :
      (timeline : List LineMeta) (readers : StreamReaders) (used : ℕ)
      → ServesAll sha256 decompress content readers
      → All (IsLine content) timeline
      → used + sizes timeline ≤ max_materialized_bytes
      → load_lines sha256 decompress timeline readers used ≡ ok (rows_at content timeline)
  unfolding load_lines check_materialization_budget
  load_lines-rows_at [] readers used all lines fits = refl
  load_lines-rows_at (l ∷ timeline) readers used all lines fits =
      let bytes = take l.length (drop l.offset (content l.stream)) in
      let copied = copy_line-line_of sha256 decompress content readers l all in
      let whole : (copy_line sha256 decompress readers l).result ≡ ok bytes =
        copied.result ∙ rw lines.0.0 refl in
      let inside : l.offset + l.length ≤ length (content l.stream) = ground (arith, lines.0.0) in
      let size : length bytes ≡ l.length = omega (
        arith,
        length-take l.length (drop l.offset (content l.stream)),
        length-drop l.offset (content l.stream),
      ) in
      let room : ltb (max_materialized_bytes - used) l.length ≡ false =
        le→ltb_false _ _ (omega arith) in
      let still : ltb max_materialized_bytes (used + length bytes) ≡ false =
        le→ltb_false _ _ (omega (arith, size)) in
      rw
        (
          load_lines,
          room,
          whole,
          still,
          load_lines-rows_at timeline (copy_line sha256 decompress readers l).readers
              (used + length bytes) copied.serves lines.1 (omega (arith, size)),
        )
        refl

-- One selection behind another.
select-select :
    (p q r : Row → Bool) (rows : List Row)
    → ((x : Row) → r x ≡ (q x && p x))
    → select p (select q rows) ≡ select r rows
unfolding select
select-select p q r [] h = refl
select-select p q r (x ∷ rows) h = elim (Bool-cases (q x)) [
  | inr f ↦ let g : r x ≡ false = h x ∙ rw f refl in rw (f, g) (select-select p q r rows h)
  | inl t ↦ elim (Bool-cases (p x)) [
    | inl u ↦
        let g : r x ≡ true = h x ∙ rw (t, u) refl in
        rw (t, g, select, u, select-select p q r rows h) refl
    | inr u ↦
        let g : r x ≡ false = h x ∙ rw (t, u) refl in
        rw (t, g, select, u) (select-select p q r rows h)
  ]
]

select_all : (p : Row → Bool) (rows : List Row) → ((x : Row) → p x ≡ true) → select p rows ≡ rows
unfolding select
select_all p [] h = refl
select_all p (x ∷ rows) h = rw (select, h x, select_all p rows h) refl

abbrev pub lets_through : Bool → List Pattern → Row → Bool
lets_through true compiled_patterns r = all (λ (re : Pattern). re r.text) compiled_patterns
lets_through false compiled_patterns r = not (any (λ (re : Pattern). re r.text) compiled_patterns)

lets_through_more :
    (keep : Bool) (re : Pattern) (compiled_patterns : List Pattern) (r : Row)
    → lets_through keep (re ∷ compiled_patterns) r
      ≡ ((if re r.text then keep else not keep) && lets_through keep compiled_patterns r)
lets_through_more true re compiled_patterns r = ground arith
lets_through_more false re compiled_patterns r = ground arith

lets_through_nothing : (keep : Bool) (r : Row) → lets_through keep [] r ≡ true
lets_through_nothing true r = refl
lets_through_nothing false r = refl

as_regex-compiled :
    (r : Result Text Pattern) (re : Pattern) → as_regex r ≡ ok re → compiled r ≡ ok re
as_regex-compiled (ok re') re h = ap ok (ok-injective h)
as_regex-compiled (err why) re h = absurd cc

module _ (compile : Text → Result Text Pattern) where
  pub filter_each-select :
      (patterns : List Text) (keep : Bool) (found : List Pattern) (rows : List Row)
      → compile_patterns compile patterns ≡ ok found
      → filter_each compile patterns keep rows ≡ ok (select (lets_through keep found) rows)
  unfolding compile_patterns filter_each filter
  filter_each-select [] keep found rows h = ap ok (
      sym (
        select_all (lets_through keep found) rows λ r.
          ap (λ c. lets_through keep c r) (sym (ok-injective h)) ∙ lets_through_nothing keep r))
  filter_each-select (p ∷ patterns) keep found rows h =
      let (re, e, h1) = >>=-eq-ok (as_regex (compile p)) _ h in
      let (rest, e1, h2) = >>=-eq-ok (compile_patterns compile patterns) _ h1 in
      let same : re ∷ rest ≡ found = ok-injective h2 in
      let one : Row → Bool = λ r. if re r.text then keep else not keep in
      rw (filter_each, filter, as_regex-compiled (compile p) re e)
        (filter_each-select patterns keep rest (select one rows) e1
          ∙ ap ok (
              select-select (lets_through keep rest) one (lets_through keep (re ∷ rest)) rows
                (lets_through_more keep re rest)
              ∙ ap (λ c. select (lets_through keep c) rows) same))
