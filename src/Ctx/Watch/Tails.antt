-- ===== src/Ctx/Watch/Tails.antt =====
-- The bounded buffers of a watch: `read_tail` of tools/src/pira_ctx/watch/sample.rs, `read_bounded` of
-- analyzer.rs, and `append_tail` of mod.rs. What a reader gives is a list of chunks; an empty one is
-- the end.
pub mod Laws
use pira.Common.{
  ℕ, zero, suc, ◌+◌, ◌-◌, ◌*◌, min, Bool, true, false, ◌||◌, List, [], ◌∷◌, ◌++◌, ltb, leb,
  if◌then◌else◌, Text, Bytes, Result, ok, err, codes, length, take, drop,
}

-- `MAX_TAIL` of sample.rs and `MAX_RAW_TAIL` of mod.rs.
abbrev pub max_tail : ℕ
max_tail = 16 * 1024

abbrev pub max_stream_output : ℕ
max_stream_output = 512 * 1024

-- `if tail.len() > MAX { tail.drain(..tail.len() - MAX); }`
unfoldable pub clip_front : Bytes → Bytes
clip_front tail = if ltb max_tail (length tail) then drop (length tail - max_tail) tail else tail

unfoldable pub append_tail : Bytes → Bytes → Bytes
unfolding clip_front
append_tail tail growth = clip_front (tail ++ growth)

unfoldable pub read_tail_from : Bytes → ℕ → List Bytes → Result Text (Bytes × Bool)
unfolding clip_front
read_tail_from tail total [] = ok (tail, leb total max_tail)
read_tail_from tail total ([] ∷ chunks) = ok (tail, leb total max_tail)
read_tail_from tail total ((b ∷ chunk) ∷ chunks) =
    let total' = total + length (b ∷ chunk) in
    elim (ltb max_stream_output total') [
      | true ↦ err (codes "probe aggregate output exceeds 1 MiB")
      | false ↦ read_tail_from (clip_front (tail ++ (b ∷ chunk))) total' chunks
    ]

unfoldable pub read_tail : List Bytes → Result Text (Bytes × Bool)
unfolding read_tail_from
read_tail = read_tail_from [] 0

unfoldable pub read_bounded_from : ℕ → Bytes → Bool → List Bytes → Bytes × Bool
read_bounded_from limit output overflow [] = (output, overflow)
read_bounded_from limit output overflow ([] ∷ chunks) = (output, overflow)
read_bounded_from limit output overflow ((b ∷ chunk) ∷ chunks) =
    let remaining = limit - length output in
    read_bounded_from limit (output ++ take (min (length (b ∷ chunk)) remaining) (b ∷ chunk))
      (overflow || ltb remaining (length (b ∷ chunk))) chunks

unfoldable pub read_bounded : ℕ → List Bytes → Bytes × Bool
unfolding read_bounded_from
read_bounded limit = read_bounded_from limit [] false
