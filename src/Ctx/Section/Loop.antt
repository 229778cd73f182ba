-- ===== src/Ctx/Section/Loop.antt =====
-- The loop of `SectionReader::copy_range` over the blocks (tools/src/pira_ctx/model.rs), on a table
-- whose blocks decode to the pieces of a section.
use pira.Common.{
  ℕ, zero, suc, ◌+◌, ◌-◌, ◌^◌, ◌≤◌, ◌<◌, ◌≡◌, refl, sym, ap, ◌∙◌, max, min, List, [], ◌∷◌, ◌++◌,
  append_assoc, append-nil, none, some, Text, Bytes, Result, ok, length, length-append, take, drop,
  length-drop, take-append_split, drop-append_front, take-min, drop-nil, take-nil, get_elem?,
  Bool-cases, inl, inr, leb, ◌==◌, ==_iff, le→leb, arith,
}
use pira.Ctx.Section.{
  BlockDescriptor, File, Cache, Copied, add64, slice, part_of, read_block, cached_block,
  copy_blocks,
}

abbrev pub concat : List Bytes → Bytes
concat [] = []
concat (d ∷ pieces) = d ++ concat pieces

-- A cache that holds a piece under its index, or nothing.
abbrev pub Coherent : List Bytes → Cache → Type 0
Coherent pieces none = Unit {0}
Coherent pieces (some (i, decoded)) = get_elem? pieces i ≡ some decoded

-- A copy that puts out some bytes and leaves a coherent cache.
pub record Copies (pieces : List Bytes) (out : Bytes) (c : Copied) : Type 0 where
  pub result : c.result ≡ ok out
  pub coherent : Coherent pieces c.cache

pub Copies-along :
    {pieces : List Bytes} {out want : Bytes} {c : Copied}
    → out ≡ want
    → Copies pieces out c
    → Copies pieces want c
Copies-along e h = record { result = h.result ∙ ap ok e; coherent = h.coherent }

-- The pieces behind an index start with the one at the index.
pub drop-cons :
    (k : ℕ) (pieces : List Bytes) {d : Bytes} {rest : List Bytes}
    → drop k pieces ≡ d ∷ rest
    → (get_elem? pieces k ≡ some d) × (drop (suc k) pieces ≡ rest)
drop-cons zero [] h = absurd cc
drop-cons zero (p ∷ pieces) h = (cc, cc)
drop-cons (suc k) [] h = absurd cc
drop-cons (suc k) (p ∷ pieces) h = drop-cons k pieces h

add64-small : (a b : ℕ) → a + b < 2 ^ 64 → add64 a b ≡ a + b
add64-small a b h = omega arith

slice-within :
    (decoded : Bytes) (from to : ℕ)
    → from ≤ to
    → to ≤ length decoded
    → slice decoded from to ≡ ok (take (to - from) (drop from decoded))
slice-within decoded from to h k = rw (le→leb from to h, le→leb to (length decoded) k) refl

module _ (sha256 : Bytes → Bytes) (decompress : Bytes → ℕ → Result Text Bytes) (file : File)
    (base : ℕ) where
  -- From a position on, the blocks decode to the pieces, one behind the other.
  abbrev pub Holds : ℕ → List BlockDescriptor → List Bytes → Type 0
  Holds position [] [] = Unit {0}
  Holds position (b ∷ table) (d ∷ pieces) =
      (b.logical_offset ≡ position)
      × (b.uncompressed_length ≡ length d)
      × (read_block sha256 decompress file base b ≡ ok d)
      × Holds (position + length d) table pieces
  Holds position _ _ = ⊥

  -- A coherent cache does not change what the loop sees of a block.
  cached_block-read_block :
      (b : BlockDescriptor) (pieces : List Bytes) (index : ℕ) (cache : Cache) {d : Bytes}
      → Coherent pieces cache
      → get_elem? pieces index ≡ some d
      → read_block sha256 decompress file base b ≡ ok d
      → cached_block sha256 decompress file base b index cache ≡ ok d
  unfolding cached_block
  cached_block-read_block b pieces index none c g r = r
  cached_block-read_block b pieces index (some (i, decoded)) c g r =
      elim (Bool-cases (i == index)) [
        | inl e ↦
            let same : i ≡ index = (==_iff i index).0 e in
            rw (cached_block, e)
              (let there : get_elem? pieces index ≡ some decoded = rw (← same) c in cc)
        | inr e ↦ rw (cached_block, e) r
      ]

  module _ (offset end : ℕ) where
    -- The bytes of the range in pieces from a position on.
    abbrev pub wanted : ℕ → List Bytes → Bytes
    wanted position pieces =
        take (end - max offset position) (drop (offset - position) (concat pieces))

    -- The first piece does not end in front of the range.
    abbrev pub Reaches : ℕ → List Bytes → Type 0
    Reaches position [] = Unit {0}
    Reaches position (d ∷ pieces) = offset ≤ position + length d

    Reaches-next :
        (position : ℕ) (pieces : List Bytes) → offset ≤ position → Reaches position pieces
    Reaches-next position [] h = tt
    Reaches-next position (d ∷ pieces) h = omega arith

    abbrev piece_part : ℕ → Bytes → Bytes
    piece_part position d = take (end - max offset position) (drop (offset - position) d)

    module _ (within_range : offset ≤ end) where
      -- The last byte of the range may lie behind the piece.
      part_size :
          (position : ℕ) (d : Bytes)
          → offset ≤ position + length d
          → take
              (min (end - position) (length d) - (offset - position))
              (drop (offset - position) d)
            ≡ piece_part position d
      part_size position d r =
          let rest = drop (offset - position) d in
          let size : min (end - position) (length d) - (offset - position)
              ≡ min (end - max offset position) (length rest) =
            omega (arith, length-drop (offset - position) d) in
          rw size (take-min (end - max offset position) rest)

      part_of-piece_part :
          (b : BlockDescriptor) (position : ℕ) (d : Bytes)
          → b.logical_offset ≡ position
          → b.uncompressed_length ≡ length d
          → position + length d < 2 ^ 64
          → position < end
          → offset ≤ position + length d
          → part_of b d offset end ≡ ok (piece_part position d)
      part_of-piece_part b position d e k small h r =
          let whole_end : add64 b.logical_offset b.uncompressed_length ≡ position + length d =
            omega arith in
          let from : max offset b.logical_offset - b.logical_offset ≡ offset - position =
            omega arith in
          let to : min end (position + length d) - b.logical_offset
              ≡ min (end - position) (length d) =
            omega arith in
          rw (whole_end, from, to)
            (slice-within d (offset - position) (min (end - position) (length d)) (omega arith)
                (omega arith)
              ∙ ap ok (part_size position d r))

      wanted-cons :
          (position : ℕ) (d : Bytes) (pieces : List Bytes)
          → offset ≤ position + length d
          → piece_part position d ++ wanted (position + length d) pieces
            ≡ wanted position (d ∷ pieces)
      wanted-cons position d pieces r =
          let n = offset - position in
          let k = end - max offset position in
          let front : drop n (d ++ concat pieces) ≡ drop n d ++ concat pieces =
            drop-append_front n d (concat pieces) (omega arith) in
          let left : k - length (drop n d) ≡ end - max offset (position + length d) =
            omega (arith, length-drop n d) in
          let none_left : offset - (position + length d) ≡ 0 = omega arith in
          rw (front, none_left, take-append_split k (drop n d) (concat pieces), left) refl

      pub copy_blocks-wanted :
          (table : List BlockDescriptor) (pieces all_pieces : List Bytes) (position index : ℕ)
          (cache : Cache) (out : Bytes)
          → Holds position table pieces
          → drop index all_pieces ≡ pieces
          → Coherent all_pieces cache
          → position + length (concat pieces) < 2 ^ 64
          → Reaches position pieces
          → Copies all_pieces
              (out ++ wanted position pieces)
              (copy_blocks sha256 decompress file base offset end table index cache out)
      unfolding copy_blocks
      copy_blocks-wanted [] [] all_pieces position index cache out holds behind c small r = record {
        result = ap ok (
            sym (
              rw (drop-nil (offset - position), take-nil (end - max offset position))
                (append-nil out)));
        coherent = c;
      }
      copy_blocks-wanted [] (d ∷ pieces) all_pieces position index cache out holds behind c small
            r =
          absurd holds
      copy_blocks-wanted (b ∷ table) [] all_pieces position index cache out holds behind c small r =
          absurd holds
      copy_blocks-wanted (b ∷ table) (d ∷ pieces) all_pieces position index cache out holds behind c
            small r =
          let bound : position + length d + length (concat pieces) < 2 ^ 64 =
            omega (arith, length-append d (concat pieces)) in
          let (there, next) = drop-cons index all_pieces behind in
          elim (Bool-cases (leb end b.logical_offset)) [
            | inl e ↦
                let none_wanted : end - max offset position ≡ 0 = ground (arith, holds.0) in
                rw (copy_blocks, e)
                  (record { result = rw none_wanted (ap ok (sym (append-nil out))); coherent = c })
            | inr e ↦
                let found = cached_block-read_block b all_pieces index cache c there holds.2 in
                let part =
                  part_of-piece_part b position d holds.0 holds.1 (omega arith)
                    (ground (arith, holds.0)) r in
                let rest =
                  copy_blocks-wanted table pieces all_pieces (position + length d) (suc index)
                    (some (index, d)) (out ++ piece_part position d) holds.3 next there bound
                    (Reaches-next (position + length d) pieces r) in
                rw (copy_blocks, e, found, part)
                  (Copies-along
                    (append_assoc out _ _ ∙ ap (◌++◌ out) (wanted-cons position d pieces r)) rest)
          ]
