-- ===== src/WriteCheck/Groups/Overlap.antt =====
-- The warnings of a line are the groups of its overlapping hits.
use Prim.Native.Nat.{max}
use pira.Common.{
  ℕ, ◌+◌, ◌≤◌, ◌<◌, ◌≡◌, refl, sym, ap, ◌∙◌, List, [], ◌∷◌, ◌++◌, Option, none, some, ltb, leb,
  if◌then◌else◌, map, Bool-cases, inl, inr, Text, Bytes, arith, append-nil, append_assoc,
  map-append,
}
use pira.WriteCheck.Groups.{
  Hit, Occurrence, Warning, prompt_text, slice, char_count, Scan, initial, pushed, join_group,
  add_hit_to, add_hit, scan_hits, group_hits,
}
use pira.WriteCheck.Groups.Slices.{slice-append, column_at, column_at-slice}

-- Hits in the order of their starts, none before `from` and none empty.
abbrev pub Ascending : ℕ → List Hit → Type 0
Ascending from [] = Unit
Ascending from (h ∷ hits) = (from ≤ h.start) × (h.start < h.end) × Ascending h.start hits

-- Hits that overlap, each some hit before it; `a` is the first start and `b` the last end.
pub data Cluster : ℕ → ℕ → List Hit → Type 0 where
  one : (h : Hit) → Cluster h.start h.end (h ∷ [])
  join :
      {a b c : ℕ} {hits : List Hit} (h : Hit)
      → Cluster a b hits
      → h.start < b
      → c ≡ max b h.end
      → Cluster a c (hits ++ h ∷ [])

module _ (path : Text) (index : ℕ) (line : Bytes) where
  -- What is reported of a hit.
  abbrev pub occurrence : Hit → Occurrence
  occurrence h = record {
    column = column_at line h.start;
    span = slice line h.start h.end;
    marker = h.cue.marker;
    category = h.cue.category;
  }

  -- What is reported of overlapping hits: all that they cover, and each of them.
  abbrev pub report : ℕ → ℕ → List Hit → Warning
  report a b hits = record {
    path = path;
    line = index + 1;
    column = column_at line a;
    span = slice line a b;
    context = line;
    matches = map occurrence hits;
    prompt = prompt_text;
  }

  -- Reports of clusters that do not overlap, in order; the last ends at the given offset.
  pub data Grouping : ℕ → List Warning → List Hit → Type 0 where
    empty : Grouping 0 [] []
    more :
        {e a b : ℕ} {warnings : List Warning} {before hits : List Hit}
        → Grouping e warnings before
        → e ≤ a
        → Cluster a b hits
        → Grouping b (warnings ++ report a b hits ∷ []) (before ++ hits)

  -- The group under way, of hits `hits` that follow `before`.
  data Under : Option Warning → List Warning → ℕ → ℕ → List Hit → Type 0 where
    start : Under none [] 0 0 []
    within_group :
        {e a b from : ℕ} {warnings : List Warning} {before hits : List Hit}
        → Grouping e warnings before
        → e ≤ a
        → Cluster a b hits
        → a ≤ from
        → from < b
        → Under (some (report a b hits)) warnings b from (before ++ hits)

  record Inv (st : Scan) (seen : List Hit) : Type 0 where
    under : Under st.group st.warnings st.group_end st.previous_start seen
    column : st.column ≡ column_at line st.previous_start

  pushed-Grouping :
      {group : Option Warning} {warnings : List Warning} {b from : ℕ} {seen : List Hit}
      → Under group warnings b from seen
      → Grouping b (pushed warnings group) seen
  pushed-Grouping start = empty
  pushed-Grouping (within_group g d c p q) = more g d c

  abbrev span_end : ℕ → Hit → ℕ
  span_end b h = if ltb b h.end then h.end else b

  covered :
      (a b : ℕ) (h : Hit)
      → a ≤ b
      → slice line a b ++ (if ltb b h.end then slice line b h.end else [])
        ≡ slice line a (span_end b h)
  covered a b h p = elim (Bool-cases (ltb b h.end)) [
    | inl t ↦ rw t (slice-append line a b h.end p (ground arith))
    | inr t ↦ rw t (append-nil (slice line a b))
  ]

  joined :
      (a b : ℕ) (h : Hit) (hits : List Hit)
      → a ≤ b
      → join_group path index line (report a b hits) b h (occurrence h)
        ≡ report a (span_end b h) (hits ++ h ∷ [])
  joined a b h hits p i = record {
    path = path;
    line = index + 1;
    column = column_at line a;
    span = covered a b h p i;
    context = line;
    matches = sym (map-append occurrence hits (h ∷ [])) i;
    prompt = prompt_text;
  }

  -- One round, on the parts of the state.
  round :
      {group : Option Warning} {warnings : List Warning} {b from : ℕ} {seen : List Hit} (column : ℕ)
      (h : Hit)
      → Under group warnings b from seen
      → column ≡ column_at line from
      → from ≤ h.start
      → h.start < h.end
      → Inv
          (add_hit_to path index line group
            (record {
              warnings = warnings;
              group = group;
              group_end = b;
              previous_start = from;
              column = column;
            })
            h)
          (seen ++ h ∷ [])
  unfolding add_hit_to
  round column h start e p q =
      let here =
        ap (λ k. k + char_count (slice line 0 h.start)) e ∙ column_at-slice line 0 h.start p in
      rw here
        (record { under = within_group empty (omega arith) (one h) (omega arith) q; column = refl })
  round column h (within_group {a} {b} {from} {before} {hits} g d c p0 q0) e p q =
      let here =
        ap (λ k. k + char_count (slice line from h.start)) e
        ∙ column_at-slice line from h.start p in
      elim (Bool-cases (leb b h.start)) [
        | inl t ↦
            let apart : b ≤ h.start = ground arith in
            rw (here, t)
              (record {
                under = within_group (more g d c) apart (one h) (omega arith) q;
                column = refl;
              })
        | inr t ↦
            let overlap : h.start < b = ground arith in
            rw (here, t, joined a b h hits (omega arith), append_assoc before hits (h ∷ []))
              (record {
                under =
                    within_group g d (join h c overlap (ground arith)) (omega arith) (ground arith);
                column = refl;
              })
      ]

  previous_start_lem :
      (group : Option Warning) (st : Scan) (h : Hit)
      → (add_hit_to path index line group st h).previous_start ≡ h.start
  unfolding add_hit_to
  previous_start_lem none st h = refl
  previous_start_lem (some g) st h = ground arith

  column_at_zero : 1 ≡ column_at line 0
  unfolding slice char_count
  column_at_zero = refl

  scan_hits-Grouping :
      (hits : List Hit) (st : Scan) (seen : List Hit)
      → Inv st seen
      → Ascending st.previous_start hits
      → (e : ℕ) × Grouping e (scan_hits path index line st hits) (seen ++ hits)
  unfolding scan_hits
  scan_hits-Grouping [] st seen inv s = (st.group_end, rw append-nil (pushed-Grouping inv.under))
  scan_hits-Grouping (h ∷ hits) st seen inv s =
      let after = round st.column h inv.under inv.column s.0 s.1 in
      rw (← append_assoc seen (h ∷ []) hits) (
        scan_hits-Grouping hits (add_hit path index line st h) (seen ++ h ∷ []) after
          (rw (previous_start_lem st.group st h) s.2))

  -- The warnings of a line whose hits are in the order of their starts are the reports of the
  -- clusters of overlapping hits: every hit is in one, in order, with the column and the text that
  -- it has in the line, and a cluster begins where those before it have ended.
  pub group_hits-Grouping :
      (hits : List Hit)
      → Ascending 0 hits
      → (e : ℕ) × Grouping e (group_hits path index line hits) hits
  unfolding group_hits
  group_hits-Grouping hits s =
      scan_hits-Grouping hits initial [] (record { under = start; column = column_at_zero }) s
