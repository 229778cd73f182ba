-- ===== src/Ctx/Blocks/Saved.antt =====
-- A stream that `write_block_stream` and `encode_block_table_v4` write (tools/src/pira_ctx/storage.rs)
-- and that `decode_block_table_v4` and the reader of tools/src/pira_ctx/model.rs read back.
use pira.Common.{
  ℕ, suc, ◌+◌, ◌*◌, ◌^◌, ◌≤◌, ◌<◌, ◌≡◌, refl, ap, ◌∙◌, subst, false, not, List, [], ◌∷◌, ◌++◌, none,
  ◌==◌, Bytes, Text, Result, ok, length, length-append, take, drop, take-append, drop-append,
  drop-add, All, Bool-cases, inl, inr, list_eq_refl, arith,
}
use pira.Ctx.Section.{BlockDescriptor, File, blocks, add64, decode_block, read_block, copy_range}
use pira.Ctx.Section.Loop.{concat, Holds}
use pira.Ctx.Section.Slice.{range_of, serves_blocks, Answers, copy_range-range_of}
use pira.Ctx.Blocks.{
  block_bytes, Stored, is_smaller, stored_bytes, describe, write_blocks, write_block_stream,
  encode_block_table_v4, decode_block_table_v4,
}
use pira.Ctx.Blocks.Table.{IsPlaced, IsTable, HasDigest, decode_block_table_v4-encode}

-- What a read brings that does not end the stream: some bytes, at most a block.
abbrev pub IsChunk : Bytes → Type 0
IsChunk chunk = (0 < length chunk) × (length chunk ≤ block_bytes)

-- From a place on, the file holds some bytes.
abbrev pub HoldsAt : File → ℕ → ℕ → Bytes → Type 0
HoldsAt file base payload bytes =
    (p n : ℕ)
    → p + n ≤ length bytes
    → file.read_exact (add64 base (payload + p)) n ≡ ok (take n (drop p bytes))

-- The encoder's output is what the decoder turns back, and is not empty; a digest has 32 bytes.
pub record IsCodec (compress : Bytes → Bytes) (decompress : Bytes → ℕ → Result Text Bytes)
    (sha256 : Bytes → Bytes) : Type 0 where
  pub turns_back : (x : Bytes) → decompress (compress x) (length x) ≡ ok x
  pub fills : (x : Bytes) → 0 < length x → 0 < length (compress x)
  pub digests : (x : Bytes) → length (sha256 x) ≡ 32

module _ (compress : Bytes → Bytes) (decompress : Bytes → ℕ → Result Text Bytes)
    (sha256 : Bytes → Bytes) (codec : IsCodec compress decompress sha256) where
  describe-IsPlaced :
      (logical payload : ℕ) (chunk : Bytes)
      → IsChunk chunk
      → IsPlaced logical payload (describe compress sha256 logical payload chunk)
  describe-IsPlaced logical payload chunk h = elim (Bool-cases (is_smaller compress chunk)) [
    | inl t ↦ rw t (record {
      codec = omega arith;
      logical_offset = refl;
      payload_offset = refl;
      uncompressed = h.0;
      bounded = h.1;
      stored = codec.fills chunk h.0;
      plain = λ e. absurd (omega arith);
      smaller = λ e. ground (arith, t, h.0);
    })
    | inr f ↦ rw f (record {
      codec = omega arith;
      logical_offset = refl;
      payload_offset = refl;
      uncompressed = h.0;
      bounded = h.1;
      stored = h.0;
      plain = λ e. refl;
      smaller = λ e. absurd (omega arith);
    })
  ]

  decode_block-describe :
      (logical payload : ℕ) (chunk : Bytes)
      → decode_block sha256 decompress
          (describe compress sha256 logical payload chunk)
          (stored_bytes compress chunk)
        ≡ ok chunk
  decode_block-describe logical payload chunk = elim (Bool-cases (is_smaller compress chunk)) [
    | inl t ↦ rw (t, codec.turns_back chunk) refl
    | inr f ↦ rw f refl
  ]

  module _ (file : File) (base : ℕ) where
    read_block-describe :
        (logical payload : ℕ) (chunk : Bytes)
        → file.read_exact (add64 base payload) (length (stored_bytes compress chunk))
          ≡ ok (stored_bytes compress chunk)
        → read_block sha256 decompress file base (describe compress sha256 logical payload chunk)
          ≡ ok chunk
    unfolding read_block
    read_block-describe logical payload chunk r =
        let same : not (length chunk == length chunk) ≡ false = ground arith in
        rw
          (
            read_block,
            r,
            decode_block-describe logical payload chunk,
            same,
            list_eq_refl (sha256 chunk),
          )
          refl

  IsTable-to :
      (table : List BlockDescriptor) (a b : ℕ) {l l' p p' : ℕ}
      → l ≡ l'
      → p ≡ p'
      → IsTable a b table l p
      → IsTable a b table l' p'
  IsTable-to table a b e k h = rw (← e, ← k) h

  -- The chunks from a place on, as the loop writes them.
  abbrev pub written : ℕ → ℕ → List Bytes → Stored
  written logical payload chunks = write_blocks compress sha256 logical payload chunks

  write_blocks-IsTable :
      (chunks : List Bytes) (logical payload : ℕ)
      → All IsChunk chunks
      → IsTable logical payload
          (written logical payload chunks).descriptors
          (logical + length (concat chunks))
          (payload + length (written logical payload chunks).payload)
  unfolding write_blocks
  write_blocks-IsTable [] logical payload h = (omega arith, omega arith)
  write_blocks-IsTable ([] ∷ chunks) logical payload h = absurd (omega (arith, h.0.0))
  write_blocks-IsTable ((c ∷ s) ∷ chunks) logical payload h =
      let chunk = c ∷ s in
      let bytes = stored_bytes compress chunk in
      let rest = written (logical + length chunk) (payload + length bytes) chunks in
      (
        describe-IsPlaced logical payload chunk h.0,
        IsTable-to rest.descriptors _ _ (omega (arith, length-append chunk (concat chunks)))
            (omega (arith, length-append bytes rest.payload))
            (write_blocks-IsTable chunks (logical + length chunk) (payload + length bytes) h.1),
      )

  write_blocks-HasDigest :
      (chunks : List Bytes) (logical payload : ℕ)
      → All IsChunk chunks
      → All HasDigest (written logical payload chunks).descriptors
        × (length (written logical payload chunks).descriptors ≡ length chunks)
  unfolding write_blocks
  write_blocks-HasDigest [] logical payload h = (tt, refl)
  write_blocks-HasDigest ([] ∷ chunks) logical payload h = absurd (omega (arith, h.0.0))
  write_blocks-HasDigest ((c ∷ s) ∷ chunks) logical payload h =
      let (digests, n) =
        write_blocks-HasDigest chunks (logical + length (c ∷ s))
          (payload + length (stored_bytes compress (c ∷ s))) h.1 in
      (((sha256 (c ∷ s), refl, codec.digests (c ∷ s)), digests), ap suc n)

  module _ (file : File) (base : ℕ) where
    HoldsAt-front :
        (payload : ℕ) (front back : Bytes)
        → HoldsAt file base payload (front ++ back)
        → file.read_exact (add64 base payload) (length front) ≡ ok front
    HoldsAt-front payload front back h =
        let here : payload + 0 ≡ payload = omega arith in
        subst (λ at. file.read_exact (add64 base at) (length front) ≡ ok front) here
          (h 0 (length front) (omega (arith, length-append front back))
            ∙ ap ok (take-append front back))

    HoldsAt-back :
        (payload : ℕ) (front back : Bytes)
        → HoldsAt file base payload (front ++ back)
        → HoldsAt file base (payload + length front) back
    HoldsAt-back payload front back h p n k =
        let there : payload + (length front + p) ≡ payload + length front + p = omega arith in
        let behind : drop (length front + p) (front ++ back) ≡ drop p back =
          drop-add (length front) p (front ++ back) ∙ ap (drop p) (drop-append front back) in
        subst (λ at. file.read_exact (add64 base at) n ≡ ok (take n (drop p back))) there
          (h (length front + p) n (omega (arith, length-append front back))
            ∙ ap (λ bytes. ok (take n bytes)) behind)

    write_blocks-Holds :
        (chunks : List Bytes) (logical payload : ℕ)
        → All IsChunk chunks
        → HoldsAt file base payload (written logical payload chunks).payload
        → Holds sha256 decompress file base logical
            (written logical payload chunks).descriptors
            chunks
    unfolding write_blocks
    write_blocks-Holds [] logical payload h k = tt
    write_blocks-Holds ([] ∷ chunks) logical payload h k = absurd (omega (arith, h.0.0))
    write_blocks-Holds ((c ∷ s) ∷ chunks) logical payload h k =
        let bytes = stored_bytes compress (c ∷ s) in
        (
          refl,
          refl,
          read_block-describe file base logical payload (c ∷ s) (HoldsAt-front payload bytes _ k),
          write_blocks-Holds chunks _ _ h.1 (HoldsAt-back payload bytes _ k),
        )

    -- A stream that fits the table and a `u64` is written from its chunks, and its table is written
    -- and decoded. The table is accepted, and a reader on it answers every range with the bytes of
    -- the stream, or refuses it where it leaves the stream.
    pub write_block_stream-read_back :
        (chunks : List Bytes) (offset n : ℕ)
        → All IsChunk chunks
        → length chunks * 72 < 2 ^ 64
        → length (concat chunks) < 2 ^ 64
        → length (write_block_stream compress sha256 chunks).payload < 2 ^ 64
        → HoldsAt file base 0 (write_block_stream compress sha256 chunks).payload
        → (table : List BlockDescriptor) × (decode_block_table_v4
              (encode_block_table_v4 (write_block_stream compress sha256 chunks).descriptors)
              (length (concat chunks))
              (length (write_block_stream compress sha256 chunks).payload)
            ≡ ok table)
          × Answers sha256 decompress (concat chunks) (range_of (concat chunks) offset n) (
              copy_range sha256 decompress
                (blocks file base (length (concat chunks)) table none)
                offset
                n)
    unfolding write_block_stream
    write_block_stream-read_back chunks offset size h count small stored k =
        let w = written 0 0 chunks in
        let (digests, n) = write_blocks-HasDigest chunks 0 0 h in
        let t : IsTable 0 0 w.descriptors (length (concat chunks)) (length w.payload) =
          IsTable-to w.descriptors 0 0 (omega arith) (omega arith)
            (write_blocks-IsTable chunks 0 0 h) in
        let serves =
          serves_blocks file base (length (concat chunks)) w.descriptors none chunks refl refl small
            (write_blocks-Holds chunks 0 0 h k) tt in
        (
          w.descriptors,
          decode_block_table_v4-encode _ _ small stored w.descriptors t digests (omega (arith, n)),
          copy_range-range_of sha256 decompress (concat chunks) offset size serves,
        )
