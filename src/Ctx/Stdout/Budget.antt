-- ===== src/Ctx/Stdout/Budget.antt =====
-- The bytes that `BoundedStdout` of tools/src/pira_ctx/util.rs writes.
use pira.Common.{
  ℕ, ◌+◌, ◌-◌, ◌≤◌, ◌≡◌, refl, Bool, true, false, List, [], ◌∷◌, ◌++◌, Option, ltb, leb, Text,
  Bytes, Result, ok, err, not, ◌&&◌, ◌||◌, ◌==◌, ◌<◌, all, length, length-append, All, Bool-cases,
  Option-cases, inl, inr, arith,
}
use pira.Common.Chars.{is_control, trim_end_by}
use pira.Common.Utf8.{utf8, encode_char}
use pira.Ctx.Stdout.{
  WriteError, StreamKind, BoundedStdout, Log, marker, marker_needed, report, Written, write_output,
  stdout_line, emit, put_marker, put_truncated, line, lines,
}
use pira.Ctx.Terminal.Clean.{
  IsPrinted, unprinted, sanitize_terminal-IsPrinted, sanitize_terminal-printed, length-trim_end_by,
  safe_prefix-All, length-safe_prefix,
}
use pira.Ctx.Terminal.{is_formatting, is_newline, sanitize_terminal, safe_prefix}

-- How many bytes the writes have put out that have succeeded.
unfoldable pub sent : Log → ℕ
sent [] = 0
sent (w ∷ log) = length w.1 + sent log

sent-append :
    (log : Log) (to_stderr : Bool) (bytes : Bytes)
    → sent (log ++ (to_stderr, bytes) ∷ []) ≡ sent log + length bytes
unfolding sent
sent-append [] b bytes = omega arith
sent-append (w ∷ log) b bytes = omega (arith, sent-append log b bytes)

-- A write of at most `n` bytes, or one that fails.
data Sends (n : ℕ) (log : Log) : Result WriteError Log → Type 0 where
  sends : (log' : Log) → sent log' ≤ sent log + n → Sends n log (ok log')
  fails : (e : WriteError) → Sends n log (err e)

length-marker : length (utf8 marker) ≡ 41
unfolding utf8 encode_char
length-marker = refl

abbrev is_printed : ℕ → Bool
is_printed c = not (is_control c) && not (is_formatting c || c == 0x2028 || c == 0x2029)

is_printed-IsPrinted : (c : ℕ) → is_printed c ≡ true → IsPrinted c
is_printed-IsPrinted c h = unprinted c (λ k. ground arith) (ground arith)

all-IsPrinted : (s : Text) → all is_printed s ≡ true → All IsPrinted s
all-IsPrinted [] h = tt
all-IsPrinted (c ∷ s) h =
    let first : is_printed c ≡ true = ground arith in
    let rest : all is_printed s ≡ true = ground arith in
    (is_printed-IsPrinted c first, all-IsPrinted s rest)

marker-IsPrinted : All IsPrinted marker
unfolding is_control
marker-IsPrinted = all-IsPrinted marker refl

module _ (refuses : Log → Bool → Bytes → Option WriteError) where
  write_output-Sends :
      (to_stderr : Bool) (bytes : Bytes) (log : Log) (n : ℕ)
      → length bytes ≤ n
      → Sends n log (write_output refuses to_stderr bytes log)
  write_output-Sends to_stderr bytes log n h = elim (Option-cases (refuses log to_stderr bytes)) [
    | inl e ↦ rw (write_output, e) (sends _ (omega (arith, h, sent-append log to_stderr bytes)))
    | inr (x, e) ↦ rw (write_output, e) (fails x)
  ]

  emit-Sends :
      (out : BoundedStdout) (text : Text) (log : Log)
      → All IsPrinted text
      → Sends (length (utf8 text) + 1) log (emit refuses out text log)
  unfolding emit stdout_line
  emit-Sends out text log a = elim (Bool-cases out.stderr) [
    | inl t ↦
        rw t (write_output-Sends true _ log _ (omega (arith, length-append (utf8 text) (0xA ∷ []))))
    | inr t ↦
        rw (t, sanitize_terminal-printed text a)
          (write_output-Sends false _ log _ (
            omega (
              arith,
              length-append (utf8 (trim_end_by is_newline text)) (0xA ∷ []),
              length-trim_end_by is_newline text,
            )))
  ]

  -- With what remains the bytes do not exceed `n`.
  abbrev Keeps : ℕ → Written → Type 0
  Keeps n w = sent w.log + w.out.remaining ≤ n

  after-Keeps :
      {m n : ℕ} {log : Log} {step : Result WriteError Log} (failed : WriteError → Written)
      (next : Log → Written)
      → Sends m log step
      → ((e : WriteError) → Keeps n (failed e))
      → ((log' : Log) → sent log' ≤ sent log + m → Keeps n (next log'))
      → Keeps n (elim step [ err e ↦ failed e | ok log' ↦ next log' ])
  after-Keeps failed next (sends log' h) p q = q log' h
  after-Keeps failed next (fails e) p q = p e

  put_marker-Keeps :
      (out : BoundedStdout) (log : Log) (n : ℕ)
      → sent log + out.remaining ≤ n
      → Keeps n (put_marker refuses out log)
  unfolding put_marker
  put_marker-Keeps out log n h = elim (Bool-cases (leb marker_needed out.remaining)) [
    | inl t ↦
        let room : marker_needed ≤ out.remaining = ground arith in
        rw t (
          after-Keeps _ _ (emit-Sends out marker log marker-IsPrinted) (λ e. h)
            (λ log' p. omega (arith, p, h, room, length-marker)))
    | inr t ↦ rw t (omega (arith, h))
  ]

  put_truncated-Keeps :
      (out : BoundedStdout) (clean : Text) (log : Log) (n : ℕ)
      → All IsPrinted clean
      → sent log + out.remaining ≤ n
      → Keeps n (put_truncated refuses out clean log)
  unfolding put_truncated
  put_truncated-Keeps out clean log n a h =
      let available = out.remaining - (marker_needed + 1) in
      let short = length-safe_prefix clean available in
      elim (Bool-cases (ltb 0 available)) [
        | inl t ↦
            let room : 0 < available = ground arith in
            rw t (
              after-Keeps _ _
                (emit-Sends out (safe_prefix clean available) log
                  (safe_prefix-All IsPrinted clean available a))
                (λ e. h)
                (λ log' p.
                  put_marker-Keeps (record out { remaining = out.remaining - (available + 1) }) log'
                    n (omega (arith, p, h, short, room))))
        | inr t ↦ rw t (put_marker-Keeps out log n h)
      ]

  line-Keeps :
      (out : BoundedStdout) (text : Text) (log : Log) (n : ℕ)
      → sent log + out.remaining ≤ n
      → Keeps n (line refuses out text log)
  unfolding line
  line-Keeps out text log n h =
      let clean = sanitize_terminal text in
      let printed = sanitize_terminal-IsPrinted text in
      let needed = length (utf8 clean) + 1 in
      elim (Bool-cases out.truncated) [
        | inl t ↦ rw t h
        | inr t ↦ elim (Bool-cases (leb needed (out.remaining - marker_needed))) [
          | inl k ↦
              let fits : needed ≤ out.remaining - marker_needed = ground arith in
              rw (t, k)
                (after-Keeps _ _ (emit-Sends out clean log printed) (λ e. h)
                  (λ log' p. omega (arith, p, h, fits)))
          | inr k ↦ rw (t, k) (put_truncated-Keeps out clean log n printed h)
        ]
      ]

  lines-Keeps :
      (out : BoundedStdout) (texts : List Text) (log : Log) (n : ℕ)
      → sent log + out.remaining ≤ n
      → Keeps n (lines refuses out texts log)
  unfolding lines
  lines-Keeps out [] log n h = h
  lines-Keeps out (text ∷ texts) log n h =
      let w = line refuses out text log in
      lines-Keeps w.out texts w.log n (line-Keeps out text log n h)

  -- Whatever lines are written, and whichever of the writes fail, those that succeed put out no more
  -- bytes than the writer was made for, line ends included. Of what a failed write has put out
  -- nothing is said.
  pub lines-budget :
      (maximum_bytes : ℕ) (redirected : Option StreamKind) (texts : List Text)
      → sent (lines refuses (report maximum_bytes redirected) texts []).log ≤ maximum_bytes
  unfolding report sent
  lines-budget maximum_bytes redirected texts =
      let kept =
        lines-Keeps (report maximum_bytes redirected) texts [] maximum_bytes (omega arith) in
      omega (arith, kept)
