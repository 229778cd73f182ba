-- ===== src/Ctx/Watch/View.antt =====
-- `TerminalView` of tools/src/pira_ctx/watch/render.rs: what a terminal shows of a stream, kept as the
-- bytes to replay. The terminal is the `vt100` crate's, a parameter, as are the matches of the
-- expression that finds control sequences.
pub mod Replay
use pira.Common.{
  ℕ, zero, suc, ◌+◌, ◌-◌, ◌*◌, Bool, true, false, not, ◌&&◌, ◌||◌, List, [], ◌∷◌, ◌++◌, Option,
  none, some, ltb, leb, ◌==◌, any, within, if◌then◌else◌, Text, Bytes, Result, ok, err, length,
  take, is_ascii_digit,
}
use pira.Common.Chars.{trim_end_by}
use pira.Common.Utf8.{utf8}

abbrev pub max_replay_bytes : ℕ
max_replay_bytes = 32 * 1024

abbrev pub cols : ℕ
cols = 80

pub data Engine : Type 0 where
  vt100 : Engine

pub data Failure : Type 0 where
  unsupported_input : Failure
  resize : Failure
  replay_limit : Failure
  cell_limit : Failure
  backend : Failure

-- What the terminal calls back for.
pub data Event : Type 0 where
  resized : Event
  unhandled_char : Event
  unhandled_control : Event
  unhandled_escape : Event
  unhandled_csi : Event
  unhandled_osc : Event

-- The terminal that the program uses. A byte at which it panics gives none.
pub record Vt100 : Type 1 where
  pub Parser : Type 0
  pub new : Parser
  pub process : Parser → ℕ → Option (Parser × List Event)
  pub cursor_position : Parser → ℕ × ℕ
  pub cell : Parser → ℕ → ℕ → Option Text
  pub rows : Parser → List Text
  -- The parameters and intermediates of each control sequence.
  pub csi : Bytes → List (Bytes × Bytes)

pub record TerminalView : Type 0 where
  pub engine : Engine
  pub transcript : Bytes
  pub reliable : Bool
  pub failure : Option Failure
  pub text : Text

-- What is serialized of a view.
pub record SavedView : Type 0 where
  pub engine : Engine
  pub transcript : Bytes
  pub reliable : Bool
  pub failure : Option Failure

abbrev pub default : TerminalView
default = record { engine = vt100; transcript = []; reliable = true; failure = none; text = [] }

-- `Option::or`
abbrev pub or_failure : Option Failure → Option Failure → Option Failure
or_failure (some f) g = some f
or_failure none g = g

abbrev pub no_failure : Option Failure → Bool
no_failure none = true
no_failure (some f) = false

-- The methods of `Callbacks`, which keep the last failure.
unfoldable pub callback : Option Failure → List Event → Option Failure
callback last [] = last
callback last (resized ∷ events) = callback (some resize) events
callback last (unhandled_char ∷ events) = callback (some unsupported_input) events
callback last (unhandled_control ∷ events) = callback (some unsupported_input) events
callback last (unhandled_escape ∷ events) = callback (some unsupported_input) events
callback last (unhandled_csi ∷ events) = callback (some unsupported_input) events
callback last (unhandled_osc ∷ events) = callback (some unsupported_input) events

-- `bytes.windows(2).any(…)`
unfoldable pub has_string_escape : Bytes → Bool
has_string_escape [] = false
has_string_escape (a ∷ []) = false
has_string_escape (a ∷ b ∷ bytes) =
    a == 0x1B && (b == b'P' || b == b'X' || b == b'^' || b == b'_') || has_string_escape (b ∷ bytes)

-- `params.split(|byte| !byte.is_ascii_digit())`, behind what is read of a number.
unfoldable pub numbers_from : Bytes → Bytes → List Bytes
numbers_from number [] = number ∷ []
numbers_from number (b ∷ params) = elim (is_ascii_digit b) [
  | true ↦ numbers_from (number ++ b ∷ []) params
  | false ↦ number ∷ numbers_from [] params
]

unfoldable pub decimal_value : ℕ → Bytes → ℕ
decimal_value value [] = value
decimal_value value (b ∷ number) = decimal_value (value * 10 + (b - b'0')) number

-- `params.iter().filter(…).count()`
unfoldable pub separators : Bytes → ℕ
separators [] = 0
separators (b ∷ params) = (if b == b';' || b == b':' then 1 else 0) + separators params

unfoldable pub is_overflowing : Bytes × Bytes → Bool
unfolding separators numbers_from decimal_value
is_overflowing (params, intermediates) =
    ltb 64 (length params)
    || ltb 0 (length intermediates)
    || leb 16 (separators params)
    || any (λ number. ltb 5 (length number) || ltb 65535 (decimal_value 0 number))
        (numbers_from [] params)

unfoldable pub join_rows : List Text → Text
join_rows [] = []
join_rows (row ∷ []) = row
join_rows (row ∷ next ∷ rows) = row ++ (0xA ∷ join_rows (next ∷ rows))

module _ (vt : Vt100) where
  unfoldable pub unsupported_encoding : Bytes → Bool
  unfolding has_string_escape is_overflowing
  unsupported_encoding bytes =
      any (λ b. b == 14 || b == 15) bytes
      || has_string_escape bytes
      || any is_overflowing (vt.csi bytes)

  -- A cell that holds as much as it can.
  abbrev pub is_full : Option Text → Bool
  is_full none = false
  is_full (some contents) = leb 18 (length (utf8 contents))

  -- The cells at the cursor and behind it, also where it has wrapped.
  unfoldable pub near_full : vt.Parser → Bool
  unfolding utf8
  near_full p =
      let (row, col) = vt.cursor_position p in
      any {A = ℕ × ℕ} (λ at. is_full (vt.cell p at.0 at.1))
        ((row, col)
          ∷ (row, col - 1)
          ∷ (row, col - 2)
          ∷ (row - 1, cols - 1)
          ∷ (row - 1, cols - 2)
          ∷ [])

  -- The loop of `render`: the terminal, the failure that it has called back, and the failure.
  unfoldable pub render_from :
      vt.Parser → Option Failure → Option Failure → Bytes → Option (vt.Parser × Option Failure)
  unfolding near_full callback
  render_from p called failure [] = some (p, failure)
  render_from p called failure (b ∷ bytes) = elim (vt.process p b) [
    | none ↦ none
    | some (p', events) ↦
        let called' = callback called events in
        let failure' = if near_full p' then some cell_limit else failure in
        render_from p' called' (or_failure failure' called') bytes
  ]

  -- The text and the failure, or none at a panic.
  unfoldable pub render : Bytes → Option (Text × Option Failure)
  unfolding render_from unsupported_encoding join_rows trim_end_by
  render bytes =
      let failure = if unsupported_encoding bytes then some unsupported_input else none in
      elim (render_from vt.new none failure bytes) [
        | none ↦ none
        | some (p, failed) ↦ some (trim_end_by (λ c. c == 0xA) (join_rows (vt.rows p)), failed)
      ]

  unfoldable pub feed : TerminalView → Bytes → TerminalView
  unfolding render
  feed v bytes =
      if not v.reliable
      then v
      else if ltb (max_replay_bytes - length v.transcript) (length bytes)
      then record v { reliable = false; failure = some replay_limit }
      else (let transcript = v.transcript ++ bytes in
          elim (render transcript) [
            | some (text, failure) ↦ record v {
              transcript = transcript;
              text = text;
              failure = failure;
              reliable = no_failure failure;
            }
            | none ↦ record v {
              transcript = take (length v.transcript) transcript;
              reliable = false;
              failure = some backend;
            }
          ])

  -- `TryFrom<SavedView>`; the error is that the replay is too long.
  unfoldable pub restore : SavedView → Option TerminalView
  unfolding feed
  restore saved =
      if ltb max_replay_bytes (length saved.transcript)
      then none
      else (let view = feed default saved.transcript in
          some (record view {
            engine = saved.engine;
            reliable = view.reliable && (saved.reliable && no_failure saved.failure);
            failure = or_failure view.failure saved.failure;
          }))

abbrev pub save : TerminalView → SavedView
save v = record {
  engine = v.engine;
  transcript = v.transcript;
  reliable = v.reliable;
  failure = v.failure;
}
