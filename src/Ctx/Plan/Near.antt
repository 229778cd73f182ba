-- ===== src/Ctx/Plan/Near.antt =====
-- The step `context` of a plan (tools/src/pira_ctx/transform.rs): which rows it keeps.
use pira.Common.{
  ℕ, zero, suc, ◌+◌, ◌-◌, ◌≤◌, ◌<◌, ◌≡◌, refl, sym, subst, Bool, true, ◌&&◌, List, [], ◌∷◌, some,
  Bool-cases, inl, inr, length, get_elem?, min, arith,
}
use pira.Ctx.Plan.Rows.{Row, in_range, is_kept, keep_indices, context_rows}

-- A list of rows, of which those are left whose index has a property.
pub data Selects (P : ℕ → Type 0) : ℕ → List Row → List Row → Type 0 where
  ends : (i : ℕ) → Selects P i [] []
  keeps :
      {i : ℕ} {rows out : List Row} (r : Row)
      → P i
      → Selects P (suc i) rows out
      → Selects P i (r ∷ rows) (r ∷ out)
  leaves :
      {i : ℕ} {rows out : List Row} (r : Row)
      → ¬ P i
      → Selects P (suc i) rows out
      → Selects P i (r ∷ rows) out

module _ (p : Row → Bool) (before after : ℕ) where
  -- A row that matches stands at most `before` rows behind an index, or at most `after` in front.
  pub record NearFrom (index : ℕ) (rows : List Row) (i : ℕ) : Type 0 where
    pub at : ℕ
    pub row : Row
    pub there : get_elem? rows at ≡ some row
    pub matching : p row ≡ true
    pub behind : index + at ≤ i + before
    pub front : i ≤ index + at + after

  abbrev pub Near : List Row → ℕ → Type 0
  Near = NearFrom 0

  module _ (count : ℕ) where
    is_kept-NearFrom :
        (rows : List Row) (index i : ℕ)
        → is_kept p before after count index rows i ≡ true
        → NearFrom index rows i
    unfolding is_kept
    is_kept-NearFrom [] index i h = absurd cc
    is_kept-NearFrom (r ∷ rows) index i h =
        elim (Bool-cases (p r && in_range (index - before) (min (index + after) (count - 1)) i)) [
          | inl t ↦ record {
            at = 0;
            row = r;
            there = refl;
            matching = ground arith;
            behind = ground arith;
            front = ground arith;
          }
          | inr f ↦
              let near = is_kept-NearFrom rows (suc index) i (ground arith) in
              record {
                at = suc near.at;
                row = near.row;
                there = near.there;
                matching = near.matching;
                behind = omega (arith, near.behind);
                front = omega (arith, near.front);
              }
        ]

    NearFrom-is_kept :
        (rows : List Row) (index i at : ℕ) (row : Row)
        → i < count
        → get_elem? rows at ≡ some row
        → p row ≡ true
        → index + at ≤ i + before
        → i ≤ index + at + after
        → is_kept p before after count index rows i ≡ true
    unfolding is_kept
    NearFrom-is_kept [] index i at row small there m b f = absurd cc
    NearFrom-is_kept (r ∷ rows) index i zero row small there m b f =
        let e : r ≡ row = cc in
        let same : p r ≡ true = subst (λ x. p x ≡ true) (sym e) m in ground (arith, same)
    NearFrom-is_kept (r ∷ rows) index i (suc at) row small there m b f =
        let rest =
          NearFrom-is_kept rows (suc index) i at row small there m (omega arith) (omega arith) in
        ground (arith, rest)

  keep_indices-Selects :
      (all_rows rows : List Row) (index : ℕ)
      → index + length rows ≡ length all_rows
      → Selects
          (Near all_rows)
          index
          rows
          (keep_indices (is_kept p before after (length all_rows) 0 all_rows) index rows)
  unfolding keep_indices
  keep_indices-Selects all_rows [] index e = ends index
  keep_indices-Selects all_rows (r ∷ rows) index e =
      let rest = keep_indices-Selects all_rows rows (suc index) (omega arith) in
      elim (Bool-cases (is_kept p before after (length all_rows) 0 all_rows index)) [
        | inl t ↦
            rw (keep_indices, t)
              (keeps r (is_kept-NearFrom (length all_rows) all_rows 0 index t) rest)
        | inr f ↦
            rw (keep_indices, f)
              (leaves r
                (λ near.
                  (let t =
                      NearFrom-is_kept (length all_rows) all_rows 0 index near.at near.row
                        (omega arith) near.there near.matching near.behind near.front in
                    cc))
                rest)
      ]

  -- The rows that are left are, in their order, those for which a row that matches stands at most
  -- `before` rows behind or at most `after` rows in front.
  pub context_rows-Selects :
      (rows : List Row) → Selects (Near rows) 0 rows (context_rows p before after rows)
  unfolding context_rows
  context_rows-Selects rows = keep_indices-Selects rows rows 0 (omega arith)
