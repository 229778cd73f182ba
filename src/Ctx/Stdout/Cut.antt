-- ===== src/Ctx/Stdout/Cut.antt =====
-- A report that `BoundedStdout` of tools/src/pira_ctx/util.rs cuts says so at its end.
use pira.Common.{
  ℕ, ◌+◌, ◌-◌, ◌≤◌, ◌<◌, ◌≡◌, refl, Bool, true, false, List, [], ◌∷◌, ◌++◌, Option, none, ltb, leb,
  Text, Bytes, ok, length, Bool-cases, inl, inr, arith,
}
use pira.Common.Chars.{is_control}
use pira.Common.Utf8.{utf8}
use pira.Ctx.Stdout.{
  WriteError, StreamKind, BoundedStdout, Log, marker, marker_needed, report, Written, emit,
  stdout_line, put_marker, put_truncated, line, lines,
}
use pira.Ctx.Terminal.{sanitize_terminal, safe_prefix}

-- No write is refused.
abbrev pub accepts : Log → Bool → Bytes → Option WriteError
accepts log to_stderr bytes = none

-- The log ends with the marker, on one of the two streams.
pub data EndsMarked : Log → Type 0 where
  marked :
      (log : Log) (to_stderr : Bool) → EndsMarked (log ++ (to_stderr, utf8 marker ++ 0xA ∷ []) ∷ [])

-- A writer has room for the marker, or has written it last.
data Ready (out : BoundedStdout) (log : Log) : Type 0 where
  has_room : out.truncated ≡ false → marker_needed ≤ out.remaining → Ready out log
  has_marked : out.truncated ≡ true → EndsMarked log → Ready out log

abbrev Announces : Written → Type 0
Announces w = Ready w.out w.log

marker_sanitized : sanitize_terminal marker ≡ marker
unfolding sanitize_terminal is_control
marker_sanitized = refl

put_marker-Announces :
    (out : BoundedStdout) (log : Log)
    → marker_needed ≤ out.remaining
    → Announces (put_marker accepts out log)
unfolding put_marker emit stdout_line
put_marker-Announces out log h =
    let room : leb marker_needed out.remaining ≡ true = ground arith in
    elim (Bool-cases out.stderr) [
      | inl t ↦ rw (room, t) (has_marked refl (marked log true))
      | inr t ↦ rw (room, t, marker_sanitized) (has_marked refl (marked log false))
    ]

emit_ok :
    (out : BoundedStdout) (text : Text) (log : Log)
    → (log' : Log) × (emit accepts out text log ≡ ok log')
unfolding emit stdout_line
emit_ok out text log = elim (Bool-cases out.stderr) [
  | inl t ↦ rw t (_, refl)
  | inr t ↦ rw t (_, refl)
]

put_truncated-Announces :
    (out : BoundedStdout) (clean : Text) (log : Log)
    → marker_needed ≤ out.remaining
    → Announces (put_truncated accepts out clean log)
unfolding put_truncated
put_truncated-Announces out clean log h =
    let available = out.remaining - (marker_needed + 1) in
    let (log', e) = emit_ok out (safe_prefix clean available) log in
    elim (Bool-cases (ltb 0 available)) [
      | inl t ↦
          let room : 0 < available = ground arith in
          rw (t, e)
            (put_marker-Announces (record out { remaining = out.remaining - (available + 1) }) log'
              (omega (arith, room)))
      | inr t ↦ rw t (put_marker-Announces out log h)
    ]

line-Announces :
    (out : BoundedStdout) (text : Text) (log : Log)
    → Ready out log
    → Announces (line accepts out text log)
unfolding line
line-Announces out text log (has_marked t m) = rw t (has_marked refl m)
line-Announces out text log (has_room t h) =
    let clean = sanitize_terminal text in
    let needed = length (utf8 clean) + 1 in
    let (log', e) = emit_ok out clean log in
    elim (Bool-cases (leb needed (out.remaining - marker_needed))) [
      | inl k ↦
          let fits : needed ≤ out.remaining - marker_needed = ground arith in
          rw (t, k, e) (has_room t (omega (arith, fits)))
      | inr k ↦ rw (t, k) (put_truncated-Announces out clean log h)
    ]

lines-Announces :
    (out : BoundedStdout) (texts : List Text) (log : Log)
    → Ready out log
    → Announces (lines accepts out texts log)
unfolding lines
lines-Announces out [] log a = a
lines-Announces out (text ∷ texts) log a =
    let w = line accepts out text log in
    lines-Announces w.out texts w.log (line-Announces out text log a)

marked_of :
    {out : BoundedStdout} {log : Log} → out.truncated ≡ true → Ready out log → EndsMarked log
marked_of e (has_room t h) = absurd cc
marked_of e (has_marked t m) = m

-- If a writer that is made for as many bytes as the marker takes, or more, and whose writes are not
-- refused, has cut its output, then the marker that says so is the last line it has written.
pub lines-EndsMarked :
    (maximum_bytes : ℕ) (redirected : Option StreamKind) (texts : List Text)
    → marker_needed ≤ maximum_bytes
    → (lines accepts (report maximum_bytes redirected) texts []).out.truncated ≡ true
    → EndsMarked (lines accepts (report maximum_bytes redirected) texts []).log
unfolding report
lines-EndsMarked maximum_bytes redirected texts h e =
    marked_of e (lines-Announces (report maximum_bytes redirected) texts [] (has_room refl h))
