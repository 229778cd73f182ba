-- ===== src/Ctx/Watch/Tails/Laws.antt =====
-- The buffers of a watch (tools/src/pira_ctx/watch) hold the last or the first bytes of a stream,
-- however it comes in chunks.
use pira.Common.{
  ℕ, zero, suc, ◌+◌, ◌-◌, min, ◌≤◌, ◌≡◌, refl, sym, ap, ◌∙◌, Bool, true, false, ◌||◌, List, [], ◌∷◌,
  ◌++◌, append_assoc, append-nil, ltb, leb, if◌then◌else◌, Text, Bytes, Result, ok, err, codes,
  length, length-append, length-drop, drop-add, length-take, take, drop, Bool-cases, inl, inr,
  arith,
}
use pira.Ctx.Watch.Tails.{
  max_tail, max_stream_output, clip_front, append_tail, read_tail_from, read_tail,
  read_bounded_from, read_bounded,
}

-- What the chunks up to an empty one are together.
abbrev pub stream : List Bytes → Bytes
stream [] = []
stream ([] ∷ chunks) = []
stream ((b ∷ chunk) ∷ chunks) = (b ∷ chunk) ++ stream chunks

abbrev pub last_n : ℕ → Bytes → Bytes
last_n n s = drop (length s - n) s

clip_front_lem : (s : Bytes) → clip_front s ≡ last_n max_tail s
unfolding clip_front
clip_front_lem s = elim (Bool-cases (ltb max_tail (length s))) [
  | inl t ↦ rw t refl
  | inr t ↦ let none_over : length s - max_tail ≡ 0 = ground arith in rw (t, none_over) refl
]

drop-append_le : (n : ℕ) (s t : Bytes) → n ≤ length s → drop n (s ++ t) ≡ drop n s ++ t
drop-append_le zero s t h = refl
drop-append_le (suc n) [] t h = absurd (omega arith)
drop-append_le (suc n) (b ∷ s) t h = drop-append_le n s t (omega arith)

-- What is dropped before more is read would be dropped after it.
last_n-append : (n : ℕ) (s t : Bytes) → last_n n (last_n n s ++ t) ≡ last_n n (s ++ t)
last_n-append n s t =
    let k : ℕ = length s - n in
    let k_le : k ≤ length s = omega arith in
    let l : length (drop k s ++ t) ≡ (length s - k) + length t =
      rw (length-append (drop k s) t, length-drop k s) refl in
    let fewer : length (s ++ t) - n ≡ k + (length (drop k s ++ t) - n) =
      omega (arith, l, length-append s t) in
    rw (fewer, drop-add k (length (drop k s ++ t) - n) (s ++ t), drop-append_le k s t k_le) refl

-- A tail holds the last bytes of what was appended, at most 16 KiB.
pub append_tail_lem :
    (tail growth : Bytes) → append_tail tail growth ≡ last_n max_tail (tail ++ growth)
unfolding append_tail
append_tail_lem tail growth = clip_front_lem (tail ++ growth)

-- What a reader of a stream gives that has read `total` bytes, and holds the last of them.
abbrev tail_of : Bytes → ℕ → Bytes → Result Text (Bytes × Bool)
tail_of tail total rest =
    if ltb max_stream_output (total + length rest)
    then err (codes "probe aggregate output exceeds 1 MiB")
    else ok (last_n max_tail (tail ++ rest), leb (total + length rest) max_tail)

tail_of-nil :
    (tail : Bytes) (total : ℕ)
    → length tail ≤ max_tail
    → total ≤ max_stream_output
    → tail_of tail total [] ≡ ok (tail, leb total max_tail)
tail_of-nil tail total h k =
    let within_limit : ltb max_stream_output (total + 0) ≡ false = ground arith in
    let none_over : length tail - max_tail ≡ 0 = omega arith in
    let all_read : total + 0 ≡ total = omega arith in
    rw (within_limit, append-nil tail, none_over, all_read) refl

tail_of-clip_front :
    (tail chunk rest : Bytes) (total : ℕ)
    → tail_of (clip_front (tail ++ chunk)) (total + length chunk) rest
      ≡ tail_of tail total (chunk ++ rest)
tail_of-clip_front tail chunk rest total =
    let sum : total + length (chunk ++ rest) ≡ total + length chunk + length rest =
      omega (arith, length-append chunk rest) in
    rw
      (
        sum,
        clip_front_lem (tail ++ chunk),
        last_n-append max_tail (tail ++ chunk) rest,
        append_assoc tail chunk rest,
      )
      refl

length-clip_front_le : (s : Bytes) → length (clip_front s) ≤ max_tail
length-clip_front_le s = rw (clip_front_lem s, length-drop (length s - max_tail) s) (omega arith)

tail_of-over :
    (tail chunk rest : Bytes) (total : ℕ)
    → (ltb max_stream_output (total + length chunk) ≡ true)
    → tail_of tail total (chunk ++ rest) ≡ err (codes "probe aggregate output exceeds 1 MiB")
tail_of-over tail chunk rest total over =
    let over' : ltb max_stream_output (total + length (chunk ++ rest)) ≡ true =
      rw (length-append chunk rest) (ground arith) in
    rw over' refl

read_tail_from_lem :
    (tail : Bytes) (total : ℕ) (chunks : List Bytes)
    → length tail ≤ max_tail
    → total ≤ max_stream_output
    → read_tail_from tail total chunks ≡ tail_of tail total (stream chunks)
unfolding read_tail_from
read_tail_from_lem tail total [] h k = sym (tail_of-nil tail total h k)
read_tail_from_lem tail total ([] ∷ chunks) h k = sym (tail_of-nil tail total h k)
read_tail_from_lem tail total ((b ∷ chunk) ∷ chunks) h k =
    elim (Bool-cases (ltb max_stream_output (total + length (b ∷ chunk)))) [
      | inl over ↦
          rw (read_tail_from, over) (sym (tail_of-over tail (b ∷ chunk) (stream chunks) total over))
      | inr fits ↦
          rw (read_tail_from, fits)
            (read_tail_from_lem (clip_front (tail ++ (b ∷ chunk))) (total + length (b ∷ chunk))
                chunks (length-clip_front_le (tail ++ (b ∷ chunk))) (ground arith)
              ∙ tail_of-clip_front tail (b ∷ chunk) (stream chunks) total)
    ]

-- A probe's stream of at most 512 KiB gives its last 16 KiB and whether that is all of it, and a longer one
-- is an error, however it comes in chunks.
pub read_tail_lem :
    (chunks : List Bytes)
    → read_tail chunks ≡ (
        if ltb max_stream_output (length (stream chunks))
        then err (codes "probe aggregate output exceeds 1 MiB")
        else ok (last_n max_tail (stream chunks), leb (length (stream chunks)) max_tail))
unfolding read_tail
read_tail_lem chunks =
    let from_start : 0 + length (stream chunks) ≡ length (stream chunks) = omega arith in
    read_tail_from_lem [] 0 chunks (omega arith) (omega arith) ∙ rw from_start refl

take-append_split :
    (n : ℕ) (s t : Bytes)
    → take n (s ++ t) ≡ take (min (length s) n) s ++ take (n - min (length s) n) t
take-append_split n [] t =
    let none_taken : min 0 n ≡ 0 = omega arith in
    let all_left : n - 0 ≡ n = omega arith in rw (none_taken, all_left) refl
take-append_split zero (b ∷ s) t =
    let none_taken : min (suc (length s)) 0 ≡ 0 = omega arith in rw none_taken refl
take-append_split (suc n) (b ∷ s) t =
    let one_taken : min (suc (length s)) (suc n) ≡ suc (min (length s) n) = omega arith in
    let left : suc n - suc (min (length s) n) ≡ n - min (length s) n = omega arith in
    rw (one_taken, left) (ap (◌∷◌ b) (take-append_split n s t))

over_either : (o : Bool) (r a b : ℕ) → (o || ltb r a) || ltb (r - min a r) b ≡ o || ltb r (a + b)
over_either true r a b = refl
over_either false r a b = ground arith

nothing_more :
    (n : ℕ) (output : Bytes) (overflow : Bool)
    → ◌≡◌ {A = Bytes × Bool} (output, overflow) (output ++ take n [], overflow || ltb n 0)
nothing_more zero output true = rw (append-nil output) refl
nothing_more zero output false = rw (append-nil output) refl
nothing_more (suc n) output true = rw (append-nil output) refl
nothing_more (suc n) output false =
    let not_below : ltb (suc n) 0 ≡ false = ground arith in rw (append-nil output, not_below) refl

read_bounded_from_lem :
    (limit : ℕ) (output : Bytes) (overflow : Bool) (chunks : List Bytes)
    → read_bounded_from limit output overflow chunks ≡ (
      output ++ take (limit - length output) (stream chunks),
      overflow || ltb (limit - length output) (length (stream chunks)),
    )
unfolding read_bounded_from
read_bounded_from_lem limit output overflow [] =
    nothing_more (limit - length output) output overflow
read_bounded_from_lem limit output overflow ([] ∷ chunks) =
    nothing_more (limit - length output) output overflow
read_bounded_from_lem limit output overflow ((b ∷ chunk) ∷ chunks) =
    let r : ℕ = limit - length output in
    let c : Bytes = b ∷ chunk in
    let left : limit - length (output ++ take (min (length c) r) c) ≡ r - min (length c) r =
      rw (length-append output (take (min (length c) r) c), length-take (min (length c) r) c)
        (omega arith) in
    read_bounded_from_lem limit (output ++ take (min (length c) r) c) (overflow || ltb r (length c))
      chunks
    ∙ rw
        (
          left,
          append_assoc output (take (min (length c) r) c)
              (take (r - min (length c) r) (stream chunks)),
          take-append_split r c (stream chunks),
          over_either overflow r (length c) (length (stream chunks)),
          length-append c (stream chunks),
        )
        refl

-- An analyzer's stream gives its first bytes up to a limit, and whether there were more.
pub read_bounded_lem :
    (limit : ℕ) (chunks : List Bytes)
    → read_bounded limit chunks ≡ (take limit (stream chunks), ltb limit (length (stream chunks)))
unfolding read_bounded
read_bounded_lem limit chunks =
    let all_left : limit - 0 ≡ limit = omega arith in
    read_bounded_from_lem limit [] false chunks ∙ rw all_left refl
