-- ===== src/Ctx/Stdout.antt =====
-- `BoundedStdout` of tools/src/pira_ctx/util.rs, which writes lines up to a number of bytes. The log
-- holds the writes that have succeeded, to standard error (true) or standard output (false). A
-- parameter decides which writes of `write_output` in tools/src/pira_ctx/shutdown.rs fail; what such a
-- write has put out, all, some or none of its bytes, is not in the log.
pub mod Budget
pub mod Cut
use pira.Common.{
  ℕ, ◌+◌, ◌-◌, Bool, true, false, List, [], ◌∷◌, ◌++◌, Option, none, some, ltb, leb, if◌then◌else◌,
  Text, Bytes, Result, ok, err, ◌>>=◌, codes, length,
}
use pira.Common.Utf8.{utf8}
use pira.Ctx.Terminal.{sanitize_terminal, safe_prefix}

pub data WriteError : Type 0 where
  broken_pipe : WriteError
  other : Text → WriteError

pub data StreamKind : Type 0 where
  stdout : StreamKind
  stderr : StreamKind

pub record BoundedStdout : Type 0 where
  pub remaining : ℕ
  pub truncated : Bool
  pub stderr : Bool

abbrev pub Log : Type 0
Log = List (Bool × Bytes)

abbrev pub marker : Text
marker = codes "[pira_ctx output truncated by byte limit]"

-- `MARKER.len() + 1`, which is `RESERVE`.
abbrev pub marker_needed : ℕ
marker_needed = 42

abbrev redirects_stdout : Option StreamKind → Bool
redirects_stdout (some stdout) = true
redirects_stdout _ = false

-- `BoundedStdout::report`; `new` passes `None`.
unfoldable pub report : ℕ → Option StreamKind → BoundedStdout
report maximum_bytes redirected = record {
  remaining = maximum_bytes;
  truncated = false;
  stderr = redirects_stdout redirected;
}

-- The writer, the log, and the result that a call of `line` leaves.
pub record Written : Type 0 where
  pub out : BoundedStdout
  pub log : Log
  pub result : Result WriteError (Unit {0})

module _ (refuses : Log → Bool → Bytes → Option WriteError) where
  abbrev pub write_output : Bool → Bytes → Log → Result WriteError Log
  write_output to_stderr bytes log = elim (refuses log to_stderr bytes) [
    | some e ↦ err e
    | none ↦ ok (log ++ (to_stderr, bytes) ∷ [])
  ]

  unfoldable pub stdout_line : Text → Log → Result WriteError Log
  unfolding sanitize_terminal utf8
  stdout_line text log = write_output false (utf8 (sanitize_terminal text) ++ 0xA ∷ []) log

  unfoldable pub emit : BoundedStdout → Text → Log → Result WriteError Log
  unfolding stdout_line utf8
  emit out text log =
      if out.stderr then write_output true (utf8 text ++ 0xA ∷ []) log else stdout_line text log

  -- The end of `line`: the marker, if there is room for it.
  unfoldable pub put_marker : BoundedStdout → Log → Written
  unfolding emit
  put_marker out log =
      let closed : BoundedStdout = record out { remaining = 0; truncated = true } in
      if leb marker_needed out.remaining
      then elim (emit out marker log) [
        | err e ↦ record { out = out; log = log; result = err e }
        | ok log' ↦ record { out = closed; log = log'; result = ok tt }
      ]
      else record { out = closed; log = log; result = ok tt }

  -- `line` behind the test whether the whole line fits: as much of it as fits in front of the
  -- marker.
  unfoldable pub put_truncated : BoundedStdout → Text → Log → Written
  unfolding put_marker emit safe_prefix
  put_truncated out clean log =
      let available = out.remaining - (marker_needed + 1) in
      if ltb 0 available
      then elim (emit out (safe_prefix clean available) log) [
        | err e ↦ record { out = out; log = log; result = err e }
        | ok log' ↦ put_marker (record out { remaining = out.remaining - (available + 1) }) log'
      ]
      else put_marker out log

  unfoldable pub line : BoundedStdout → Text → Log → Written
  unfolding put_truncated put_marker emit sanitize_terminal utf8
  line out text log =
      let clean = sanitize_terminal text in
      let needed = length (utf8 clean) + 1 in
      if out.truncated
      then record { out = out; log = log; result = ok tt }
      else if leb needed (out.remaining - marker_needed)
      then elim (emit out clean log) [
        | err e ↦ record { out = out; log = log; result = err e }
        | ok log' ↦ record {
          out = record out { remaining = out.remaining - needed };
          log = log';
          result = ok tt;
        }
      ]
      else put_truncated out clean log

  -- Calls of `line`, which go on behind one that fails.
  unfoldable pub lines : BoundedStdout → List Text → Log → Written
  unfolding line
  lines out [] log = record { out = out; log = log; result = ok tt }
  lines out (text ∷ texts) log = let w = line out text log in lines w.out texts w.log
