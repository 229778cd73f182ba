-- ===== src/Dec/Model.antt =====
-- Decision records and their validation, tools/src/pira_dec/model.rs. A `HashSet` of what the loop
-- has seen is the list of it.
use pira.Common.{
  ℕ, ◌-◌, Bool, true, false, not, ◌||◌, List, [], ◌∷◌, ◌++◌, Option, none, some, ltb, ◌==◌,
  if◌then◌else◌, within, Text, Bytes, Result, ok, reject, ok_or, ◌>>=◌, ◌>>◌, codes, length,
  get_elem?, take, drop, all, any, map, list_eq, starts_with, is_ascii_digit,
}
use pira.Common.Chars.{trim}
use pira.Common.Utf8.{utf8}
use pira.Dec.Error.{
  Error, invalid_id, id_timestamp_mismatch, context_empty, context_too_long, choice_count,
  choice_empty, choice_too_long, choice_duplicate, decision_index, too_many_related,
  superseded_and_related, related_duplicate, context_not_normalized, choice_not_normalized,
}
use pira.Dec.Time.{validate_timestamp, format_id_timestamp}

abbrev pub max_record_bytes : ℕ
max_record_bytes = 65536

abbrev pub max_id_bytes : ℕ
max_id_bytes = 128

abbrev pub max_context_bytes : ℕ
max_context_bytes = 16384

abbrev pub max_choices : ℕ
max_choices = 32

abbrev pub max_choice_bytes : ℕ
max_choice_bytes = 4096

abbrev pub max_related_decisions : ℕ
max_related_decisions = 32

pub data Maker : Type 0 where
  human agent : Maker

pub record DecisionDraft : Type 0 where
  pub context : Text
  pub choices : List Text
  pub decision : ℕ
  pub maker : Maker
  pub supersedes : Option Text
  pub related : List Text

pub record DecisionRecord : Type 0 where
  pub id : Text
  pub timestamp_ms : ℕ
  pub context : Text
  pub choices : List Text
  pub decision : ℕ
  pub maker : Maker
  pub supersedes : Option Text
  pub related : List Text

-- `str::len`.
abbrev pub len : Text → ℕ
len s = length (utf8 s)

abbrev pub is_empty : Text → Bool
is_empty [] = true
is_empty (_ ∷ _) = false

-- `HashSet::contains`, so that `!unique.insert(x)` is `contains x seen`.
unfoldable pub contains : Text → List Text → Bool
contains t [] = false
contains t (s ∷ seen) = list_eq t s || contains t seen

-- `bytes[i] == c`, where `i` is in range.
abbrev pub byte_is : Bytes → ℕ → ℕ → Bool
byte_is bytes i c = elim (get_elem? bytes i) [ none ↦ false | some b ↦ b == c ]

abbrev pub is_hex_digit : ℕ → Bool
is_hex_digit b = is_ascii_digit b || within b'a' b'f' b

-- The condition under which `validate_id_syntax` refuses. `||` stops at the first that holds, so
-- the positions are read only where the length is 34.
unfoldable pub bad_id : Bytes → Bool
unfolding starts_with
bad_id bytes =
    ltb max_id_bytes (length bytes)
    || not (length bytes == 34)
    || not (starts_with (codes "D-") bytes)
    || not (byte_is bytes 10 b'-')
    || not (byte_is bytes 17 b'-')
    || not (all is_ascii_digit (take 8 (drop 2 bytes)))
    || not (all is_ascii_digit (take 6 (drop 11 bytes)))
    || not (all is_hex_digit (drop 18 bytes))

unfoldable pub validate_id_syntax : Text → Result Error (Unit {0})
unfolding bad_id utf8
validate_id_syntax id = reject (bad_id (utf8 id)) invalid_id

unfoldable pub validate_id : Text → ℕ → Result Error (Unit {0})
validate_id id timestamp_ms = do
  validate_id_syntax id
  stamp ← format_id_timestamp timestamp_ms
  let expected = codes "D-" ++ (stamp ++ codes "-")
  reject (not (starts_with expected id)) id_timestamp_mismatch

unfoldable pub check_choices : List Text → List Text → Result Error (Unit {0})
unfolding contains utf8
check_choices seen [] = ok tt
check_choices seen (choice ∷ choices) = do
  reject (is_empty choice) choice_empty
  reject (ltb max_choice_bytes (len choice)) choice_too_long
  reject (contains choice seen) choice_duplicate
  check_choices (choice ∷ seen) choices

unfoldable pub validate_fields : Text → List Text → ℕ → Result Error (Unit {0})
validate_fields context choices decision = do
  reject (is_empty context) context_empty
  reject (ltb max_context_bytes (len context)) context_too_long
  reject (not (within 2 max_choices (length choices))) choice_count
  check_choices [] choices
  reject (decision == 0 || ltb (length choices) decision) decision_index

-- `Some(id) == supersedes`.
abbrev pub is_superseded : Text → Option Text → Bool
is_superseded id none = false
is_superseded id (some s) = list_eq id s

unfoldable pub check_related : Option Text → List Text → List Text → Result Error (Unit {0})
unfolding contains validate_id_syntax list_eq
check_related supersedes seen [] = ok tt
check_related supersedes seen (id ∷ related) = do
  validate_id_syntax id
  reject (is_superseded id supersedes) superseded_and_related
  reject (contains id seen) related_duplicate
  check_related supersedes (id ∷ seen) related

unfoldable pub check_supersedes : Option Text → Result Error (Unit {0})
unfolding validate_id_syntax
check_supersedes none = ok tt
check_supersedes (some id) = validate_id_syntax id

unfoldable pub validate_relationships : Option Text → List Text → Result Error (Unit {0})
validate_relationships supersedes related = do
  check_supersedes supersedes
  reject (ltb max_related_decisions (length related)) too_many_related
  check_related supersedes [] related

abbrev pub is_trimmed : Text → Bool
is_trimmed s = list_eq (trim s) s

-- `DecisionRecord::validate`.
unfoldable pub validate : DecisionRecord → Result Error (Unit {0})
validate r = do
  validate_id r.id r.timestamp_ms
  validate_timestamp r.timestamp_ms
  validate_fields r.context r.choices r.decision
  validate_relationships r.supersedes r.related
  reject (not (is_trimmed r.context)) context_not_normalized
  reject (any (λ c. not (is_trimmed c)) r.choices) choice_not_normalized

abbrev trim_option : Option Text → Option Text
trim_option none = none
trim_option (some s) = some (trim s)

-- `DecisionDraft::normalized`.
unfoldable pub normalized : DecisionDraft → Result Error DecisionDraft
unfolding validate_fields validate_relationships trim
normalized d = do
  let context = trim d.context
  let choices = map trim d.choices
  let supersedes = trim_option d.supersedes
  let related = map trim d.related
  validate_fields context choices d.decision
  validate_relationships supersedes related
  ok (record d { context = context; choices = choices; supersedes = supersedes; related = related })

abbrev of_draft : Text → ℕ → DecisionDraft → DecisionRecord
of_draft id timestamp_ms d = record {
  id = id;
  timestamp_ms = timestamp_ms;
  context = d.context;
  choices = d.choices;
  decision = d.decision;
  maker = d.maker;
  supersedes = d.supersedes;
  related = d.related;
}

-- `DecisionRecord::from_draft`.
unfoldable pub from_draft : Text → ℕ → DecisionDraft → Result Error DecisionRecord
from_draft id timestamp_ms d = do let r = of_draft id timestamp_ms d; validate r; ok r

-- `checked_sub(1)`, then `get`.
choice_at : ℕ → List Text → Option Text
choice_at n choices = if n == 0 then none else get_elem? choices (n - 1)

-- `DecisionRecord::selected_text`.
unfoldable pub selected_text : DecisionRecord → Result Error Text
unfolding choice_at
selected_text r = ok_or (choice_at r.decision r.choices) decision_index
