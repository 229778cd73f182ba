-- ===== src/Dec/Args.antt =====
-- The arguments of the commands list, export and search of pira_dec, tools/src/pira_dec/cli.rs. A path is
-- the text that it is given as; an error is a constructor.
pub mod Limits
pub mod Accepted
mod Tests
use pira.Common.{
  ℕ, ◌+◌, ◌-◌, ◌*◌, Bool, true, false, not, ◌&&◌, ◌||◌, List, [], ◌∷◌, ◌++◌, Option, none, some,
  ltb, leb, ◌==◌, all, list_eq, if◌then◌else◌, within, Text, Result, ok, err, reject, ok_or, ◌>>=◌,
  ◌>>◌, codes, length, is_ascii_digit,
}
use pira.Common.Utf8.{utf8}
use pira.Dec.Model.{DecisionDraft}
use pira.Dec.Browse.{
  SearchField, id_field, context_field, choice_field, decision_field, maker_field, relation_field,
  timestamp_field,
}

pub data ArgsError : Type 0 where
  requires_value : Text → ArgsError
  only_once : Text → ArgsError
  too_long : Text → ArgsError
  not_a_limit limit_range : ArgsError
  unknown_argument : Text → ArgsError
  unknown_field : Text → ArgsError
  query_length query_combined field_without_regex nothing_to_search : ArgsError
  export_json export_output : ArgsError

pub data HelpTopic : Type 0 where
  global_help add_help show_help list_help export_help search_help forget_help : HelpTopic

pub data Command : Type 0 where
  help : HelpTopic → Command
  version : Command
  add_command : DecisionDraft → Command
  show_command : Text → Bool → Command
  list_command : Option Text → Option Text → ℕ → Bool → Command
  export_command : Text → Option Text → Option Text → Option ℕ → Command
  search_command : Option SearchField → Option Text → Option Text → Option Text → ℕ → Bool → Command
  forget_command : Text → Bool → Command

pub record Config : Type 0 where
  pub command : Command
  pub store_dir : Option Text

-- What an argument is to a loop over the arguments: it takes the next one as its value, stands alone,
-- or ends the options.
pub data Flag (S : Type 0) : Type 0 where
  valued : (Text → S → Result ArgsError S) → Flag S
  alone : (S → Result ArgsError S) → Flag S
  last : (List Text → S → Result ArgsError S) → Flag S

-- The loop `while index < args.len()` with the calls of `value`.
unfoldable pub parse_loop : {S : Type 0} → (Text → Flag S) → S → List Text → Result ArgsError S
parse_loop flag s [] = ok s
parse_loop flag s (arg ∷ []) = elim (flag arg) [
  | valued f ↦ err (requires_value arg)
  | alone f ↦ f s
  | last f ↦ f [] s
]
parse_loop flag s (arg ∷ next ∷ args) = elim (flag arg) [
  | valued f ↦ f next s >>= λ s'. parse_loop flag s' args
  | alone f ↦ f s >>= λ s'. parse_loop flag s' (next ∷ args)
  | last f ↦ f (next ∷ args) s
]

unfoldable pub set_once : {A : Type 0} → Option A → A → Text → Result ArgsError A
set_once none value label = ok value
set_once (some old) value label = err (only_once label)

-- `MAX_REGEX_BYTES`
abbrev pub max_regex_bytes : ℕ
max_regex_bytes = 4 * 1024

-- `parse::<usize>()`, with 64 bits.
abbrev pub value_of_digits : ℕ → Text → ℕ
value_of_digits n [] = n
value_of_digits n (c ∷ s) = value_of_digits (n * 10 + (c - b'0')) s

abbrev pub digits_value : Text → Option ℕ
digits_value [] = none
digits_value (c ∷ s) =
    let n = value_of_digits 0 (c ∷ s) in
    if all is_ascii_digit (c ∷ s) && leb n 18_446_744_073_709_551_615 then some n else none

unfoldable pub parse_usize : Text → Option ℕ
parse_usize [] = none
parse_usize (c ∷ s) = if c == b'+' then digits_value s else digits_value (c ∷ s)

pub record BrowseArgs : Type 0 where
  pub since : Option Text
  pub until : Option Text
  pub limit : Option ℕ
  pub json : Bool
  pub store_dir : Option Text

abbrev pub no_browse : BrowseArgs
no_browse = record { since = none; until = none; limit = none; json = false; store_dir = none }

unfoldable pub set_since : Text → BrowseArgs → Result ArgsError BrowseArgs
unfolding set_once utf8
set_since raw b = do
  reject (ltb 256 (length (utf8 raw))) (too_long (codes "--since"))
  since ← set_once b.since raw (codes "--since")
  ok (record b { since = some since })

unfoldable pub set_until : Text → BrowseArgs → Result ArgsError BrowseArgs
unfolding set_once utf8
set_until raw b = do
  reject (ltb 256 (length (utf8 raw))) (too_long (codes "--until"))
  until ← set_once b.until raw (codes "--until")
  ok (record b { until = some until })

unfoldable pub set_limit : Text → BrowseArgs → Result ArgsError BrowseArgs
unfolding set_once parse_usize
set_limit raw b = do
  limit ← ok_or (parse_usize raw) not_a_limit
  reject (not (within 1 1_000 limit)) limit_range
  value ← set_once b.limit limit (codes "--limit")
  ok (record b { limit = some value })

unfoldable pub set_store : Text → BrowseArgs → Result ArgsError BrowseArgs
unfolding set_once
set_store raw b = set_once b.store_dir raw (codes "--store-dir") >>= λ path.
    ok (record b { store_dir = some path })

-- `parse_browse_option`, where another argument is unknown.
unfoldable pub browse_option : Text → Flag BrowseArgs
unfolding list_eq set_since set_until set_limit set_store
browse_option arg =
    if list_eq arg (codes "--since")
    then valued set_since
    else if list_eq arg (codes "--until")
    then valued set_until
    else if list_eq arg (codes "--limit")
    then valued set_limit
    else if list_eq arg (codes "--json")
    then alone (λ b. ok (record b { json = true }))
    else if list_eq arg (codes "--store-dir")
    then valued set_store
    else alone (λ b. err (unknown_argument arg))

abbrev pub wants_help : List Text → Bool
wants_help (value ∷ []) = list_eq value (codes "-h") || list_eq value (codes "--help")
wants_help _ = false

abbrev pub limit_or : ℕ → Option ℕ → ℕ
limit_or n none = n
limit_or n (some limit) = limit

abbrev pub list_config : BrowseArgs → Config
list_config b = record {
  command = list_command b.since b.until (limit_or 20 b.limit) b.json;
  store_dir = b.store_dir;
}

unfoldable pub parse_list : List Text → Result ArgsError Config
unfolding parse_loop browse_option list_eq
parse_list args =
    if wants_help args
    then ok (record { command = help list_help; store_dir = none })
    else parse_loop browse_option no_browse args >>= λ b. ok (list_config b)

pub record ExportArgs : Type 0 where
  pub output : Option Text
  pub browse : BrowseArgs

-- A step of a loop that also has options to browse by.
abbrev pub through :
    {S : Type 0} → (S → BrowseArgs) → (BrowseArgs → S → S) → Flag BrowseArgs → Flag S
through get set (valued f) = valued (λ v s. f v (get s) >>= λ b. ok (set b s))
through get set (alone f) = alone (λ s. f (get s) >>= λ b. ok (set b s))
through get set (last f) = last (λ args s. f args (get s) >>= λ b. ok (set b s))

unfoldable pub set_output : Text → ExportArgs → Result ArgsError ExportArgs
unfolding set_once
set_output raw e =
    set_once e.output raw (codes "--output") >>= λ path. ok (record e { output = some path })

unfoldable pub export_option : Text → Flag ExportArgs
unfolding list_eq set_output browse_option
export_option arg =
    if list_eq arg (codes "--output")
    then valued set_output
    else if list_eq arg (codes "--json")
    then alone (λ e. err export_json)
    else through (λ e. e.browse) (λ b e. record e { browse = b }) (browse_option arg)

abbrev pub export_config : ExportArgs → Result ArgsError Config
export_config e = ok_or e.output export_output >>= λ output. ok (record {
  command = export_command output e.browse.since e.browse.until e.browse.limit;
  store_dir = e.browse.store_dir;
})

unfoldable pub parse_export : List Text → Result ArgsError Config
unfolding parse_loop export_option list_eq
parse_export args =
    if wants_help args
    then ok (record { command = help export_help; store_dir = none })
    else parse_loop export_option (record { output = none; browse = no_browse }) args
      >>= export_config

pub record SearchArgs : Type 0 where
  pub query : Option Text
  pub field : Option SearchField
  pub pattern : Option Text
  pub browse : BrowseArgs

-- `SearchField::parse`
unfoldable pub parse_field : Text → Result ArgsError SearchField
unfolding list_eq
parse_field value =
    if list_eq value (codes "id")
    then ok id_field
    else if list_eq value (codes "context")
    then ok context_field
    else if list_eq value (codes "choice")
    then ok choice_field
    else if list_eq value (codes "decision")
    then ok decision_field
    else if list_eq value (codes "maker")
    then ok maker_field
    else if list_eq value (codes "relation")
    then ok relation_field
    else if list_eq value (codes "timestamp")
    then ok timestamp_field
    else err (unknown_field value)

unfoldable pub set_field : Text → SearchArgs → Result ArgsError SearchArgs
unfolding parse_field set_once
set_field raw a = do
  parsed ← parse_field raw
  field ← set_once a.field parsed (codes "--field")
  ok (record a { field = some field })

unfoldable pub set_pattern : Text → SearchArgs → Result ArgsError SearchArgs
unfolding set_once utf8
set_pattern raw a = do
  reject (ltb max_regex_bytes (length (utf8 raw))) (too_long (codes "--regex"))
  pattern' ← set_once a.pattern raw (codes "--regex")
  ok (record a { pattern = some pattern' })

unfoldable pub set_query : Text → SearchArgs → Result ArgsError SearchArgs
unfolding set_once
set_query raw a =
    set_once a.query raw (codes "QUERY") >>= λ query. ok (record a { query = some query })

-- Behind `--` all arguments are queries.
unfoldable pub set_queries : List Text → SearchArgs → Result ArgsError SearchArgs
unfolding set_query
set_queries [] a = ok a
set_queries (raw ∷ rest) a = set_query raw a >>= λ a'. set_queries rest a'

abbrev pub starts_with_dash : Text → Bool
starts_with_dash [] = false
starts_with_dash (c ∷ s) = c == b'-'

unfoldable pub search_option : Text → Flag SearchArgs
unfolding list_eq set_field set_pattern set_query set_queries browse_option
search_option arg =
    if list_eq arg (codes "--field")
    then valued set_field
    else if list_eq arg (codes "--regex")
    then valued set_pattern
    else if list_eq arg (codes "--")
    then last set_queries
    else if not (starts_with_dash arg)
    then alone (set_query arg)
    else through (λ a. a.browse) (λ b a. record a { browse = b }) (browse_option arg)

abbrev pub is_given : {A : Type 0} → Option A → Bool
is_given none = false
is_given (some a) = true

-- `query.or(pattern)`
abbrev pub or_pattern : Option Text → Option Text → Option Text
or_pattern (some query) pattern' = some query
or_pattern none pattern' = pattern'

unfoldable pub check_query : SearchArgs → Result ArgsError (Unit {0})
unfolding utf8
check_query a = elim a.query [
  | none ↦ ok tt
  | some raw ↦
      reject (not (within 1 max_regex_bytes (length (utf8 raw)))) query_length
      >> reject (is_given a.field || is_given a.pattern) query_combined
]

abbrev pub search_of : SearchArgs → Config
search_of a = record {
  command =
      search_command a.field (or_pattern a.query a.pattern) a.browse.since a.browse.until
        (limit_or 20 a.browse.limit) a.browse.json;
  store_dir = a.browse.store_dir;
}

unfoldable pub search_config : SearchArgs → Result ArgsError Config
unfolding check_query
search_config a = do
  check_query a
  reject
      (is_given a.field && not (is_given a.pattern) || not (is_given a.field) && is_given a.pattern)
      field_without_regex
  reject
      (not (is_given a.query)
        && (not (is_given a.field)
            && (not (is_given a.browse.since) && not (is_given a.browse.until))))
      nothing_to_search
  ok (search_of a)

unfoldable pub parse_search : List Text → Result ArgsError Config
unfolding parse_loop search_option search_config list_eq
parse_search args =
    if wants_help args
    then ok (record { command = help search_help; store_dir = none })
    else parse_loop search_option
        (record { query = none; field = none; pattern = none; browse = no_browse }) args
      >>= search_config
