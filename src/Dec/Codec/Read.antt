-- ===== src/Dec/Codec/Read.antt =====
-- The loop of `decode`, run on a body that is a list of fields.
use pira.Common.{
  ℕ, zero, suc, ◌+◌, ◌≤◌, ◌≡◌, refl, ◌∙◌, ap₂, List, [], ◌∷◌, ◌++◌, Bytes, ltb, Result, ok, reject,
  ◌>>=◌, ◌>>◌, arith, length, length-append, All, take, drop, take-append, drop-append,
  le→ltb_false,
}
use pira.Dec.Error.{Error, out_of_order}
use pira.Dec.Codec.{to_le, from_le-to_le, length-to_le, Fields, accept, read_fields}
use pira.Dec.Codec.Render.{Field, render, IsSmall}

-- What the loop makes of fields that it has taken apart.
unfoldable pub accept_all : Fields → List Field → Result Error Fields
accept_all st [] = ok st
accept_all st ((tag, value) ∷ fs) = do
  reject (ltb tag st.previous_tag) out_of_order
  st' ← accept (record st { previous_tag = tag }) tag value
  accept_all st' fs

pub take-to_le : (n : ℕ) (xs : Bytes) → take 4 (to_le 4 n ++ xs) ≡ to_le 4 n
unfolding to_le
take-to_le n xs = refl

pub drop-to_le : (n : ℕ) (xs : Bytes) → drop 4 (to_le 4 n ++ xs) ≡ xs
unfolding to_le
drop-to_le n xs = refl

-- `simp` puts the size that was written in place of the one read, and then the tests are known.
pub read_fields-render :
    (fs : List Field) (fuel : ℕ)
    → length (render fs) ≤ fuel
    → All IsSmall fs
    → (st : Fields) → read_fields fuel (render fs) st ≡ accept_all st fs
unfolding read_fields accept_all
read_fields-render [] fuel h s st = refl
read_fields-render ((tag, value) ∷ fs) zero h s st = absurd (omega arith)
read_fields-render ((tag, value) ∷ fs) (suc fuel) h s st =
    let n = length value in
    let size : length (to_le 4 n ++ (value ++ render fs)) ≡ 4 + (n + length (render fs)) =
      length-append (to_le 4 n) (value ++ render fs)
      ∙ ap₂ ◌+◌ (length-to_le 4 n) (length-append value (render fs)) in
    let left : length (render fs) ≤ fuel = omega arith in
    rw
      (
        take-to_le n (value ++ render fs),
        drop-to_le n (value ++ render fs),
        from_le-to_le 4 n s.0,
        take-append value (render fs),
        drop-append value (render fs),
        le→ltb_false (suc (length (to_le 4 n ++ (value ++ render fs)))) 5 (omega arith),
        le→ltb_false (length (value ++ render fs)) n
            (omega (arith, length-append value (render fs))),
      )
      (simp (read_fields-render fs fuel left s.1))
