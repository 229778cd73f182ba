-- ===== src/Dec/Args/Accepted.antt =====
-- The searches and exports that the command line of pira_dec accepts (tools/src/pira_dec/cli.rs).
use pira.Common.{
  ◌≤◌, ◌≡◌, refl, sym, ap, ◌∙◌, subst, Bool, true, false, not, ◌&&◌, ◌||◌, List, [], ◌∷◌, Option,
  none, some, list_eq, Text, ok, reject, codes, arith,
}
use pira.Dec.Args.{
  ArgsError, field_without_regex, nothing_to_search, Command, search_command, Config, Flag,
  parse_loop, set_once, BrowseArgs, browse_option, wants_help, through, SearchArgs,
  starts_with_dash, is_given, or_pattern, set_field, set_pattern, set_query, set_queries,
  search_option, check_query, search_of, search_config, parse_search,
}
use pira.Dec.Args.Limits.{
  OkHas, err_has, ok_has, >>=-OkHas, any_result, Keeps, keeps_valued, keeps_alone, keeps_last,
  if-Keeps, parse_loop-OkHas, Limited, browse_option-Keeps, if-OkHas, limit_or-InRange, OkHas-eq,
}

-- An option to browse by keeps the limit of the arguments that it is set through.
through-Keeps :
    {S : Type 0} (get : S → BrowseArgs) (set : BrowseArgs → S → S)
    → ((b : BrowseArgs) (s : S) → get (set b s) ≡ b)
    → (f : Flag BrowseArgs) → Keeps Limited f
    → Keeps (λ s. Limited (get s)) (through get set f)
through-Keeps get set same _ (keeps_valued f k) = keeps_valued _ λ v s p.
    >>=-OkHas Limited (λ s'. Limited (get s')) (f v (get s)) _ (k v (get s) p)
      λ b q. ok_has (set b s) (subst Limited (sym (same b s)) q)
through-Keeps get set same _ (keeps_alone f k) = keeps_alone _ λ s p.
    >>=-OkHas Limited (λ s'. Limited (get s')) (f (get s)) _ (k (get s) p)
      λ b q. ok_has (set b s) (subst Limited (sym (same b s)) q)
through-Keeps get set same _ (keeps_last f k) = keeps_last _ λ args s p.
    >>=-OkHas Limited (λ s'. Limited (get s')) (f args (get s)) _ (k args (get s) p)
      λ b q. ok_has (set b s) (subst Limited (sym (same b s)) q)

abbrev SearchLimited : SearchArgs → Type 0
SearchLimited a = Limited a.browse

set_field-SearchLimited :
    (raw : Text) (a : SearchArgs) → SearchLimited a → OkHas SearchLimited (set_field raw a)
unfolding set_field
set_field-SearchLimited raw a p =
    >>=-OkHas (λ u. Unit {0}) SearchLimited _ _ (any_result _)
      λ parsed u.
        >>=-OkHas (λ u. Unit {0}) SearchLimited (set_once a.field parsed (codes "--field")) _
          (any_result _) λ m w. ok_has (record a { field = some m }) p

set_pattern-SearchLimited :
    (raw : Text) (a : SearchArgs) → SearchLimited a → OkHas SearchLimited (set_pattern raw a)
unfolding set_pattern
set_pattern-SearchLimited raw a p =
    >>=-OkHas (λ u. Unit {0}) SearchLimited (reject _ _) _ (any_result _)
      λ u v.
        >>=-OkHas (λ u. Unit {0}) SearchLimited (set_once a.pattern raw (codes "--regex")) _
          (any_result _) λ m w. ok_has (record a { pattern = some m }) p

set_query-SearchLimited :
    (raw : Text) (a : SearchArgs) → SearchLimited a → OkHas SearchLimited (set_query raw a)
unfolding set_query
set_query-SearchLimited raw a p =
    >>=-OkHas (λ u. Unit {0}) SearchLimited (set_once a.query raw (codes "QUERY")) _ (any_result _)
      λ m w. ok_has (record a { query = some m }) p

set_queries-SearchLimited :
    (rest : List Text) (a : SearchArgs) → SearchLimited a → OkHas SearchLimited (set_queries rest a)
unfolding set_queries
set_queries-SearchLimited [] a p = ok_has a p
set_queries-SearchLimited (raw ∷ rest) a p =
    >>=-OkHas SearchLimited SearchLimited (set_query raw a) _ (set_query-SearchLimited raw a p)
      λ a' q. set_queries-SearchLimited rest a' q

search_option-Keeps : (arg : Text) → Keeps SearchLimited (search_option arg)
unfolding search_option
search_option-Keeps arg =
    if-Keeps SearchLimited (list_eq arg (codes "--field"))
      (keeps_valued set_field set_field-SearchLimited)
      (if-Keeps SearchLimited (list_eq arg (codes "--regex"))
        (keeps_valued set_pattern set_pattern-SearchLimited)
        (if-Keeps SearchLimited (list_eq arg (codes "--"))
          (keeps_last set_queries set_queries-SearchLimited)
          (if-Keeps SearchLimited (not (starts_with_dash arg))
            (keeps_alone _ (set_query-SearchLimited arg))
            (through-Keeps (λ a. a.browse) (λ b a. record a { browse = b }) (λ b a. refl)
              (browse_option arg) (browse_option-Keeps arg)))))

-- What there is to search: a limit in range, an expression wherever a field is named, and an
-- expression or a time.
abbrev pub IsSearch : Command → Type 0
IsSearch (search_command field pattern' since until limit json) =
    ((1 ≤ limit) × (limit ≤ 1_000))
    × (is_given field ≡ true → is_given pattern' ≡ true)
    × (is_given pattern' || (is_given since || is_given until) ≡ true)
IsSearch _ = Unit {0}

rejected : (b : Bool) (e : ArgsError) → OkHas (λ u. b ≡ false) (reject b e)
rejected true e = err_has e
rejected false e = ok_has tt refl

has_pattern : (q f p : Bool) → f && not p || not f && p ≡ false → f ≡ true → q || p ≡ true
has_pattern q f p h k = ground arith

has_something :
    (q f p s u : Bool)
    → f && not p || not f && p ≡ false
    → not q && (not f && (not s && not u)) ≡ false
    → (q || p) || (s || u) ≡ true
has_something q f p s u h k = ground arith

is_given-or_pattern :
    (query pattern' : Option Text)
    → is_given (or_pattern query pattern') ≡ is_given query || is_given pattern'
is_given-or_pattern none pattern' = refl
is_given-or_pattern (some query) pattern' = refl

search_config-IsSearch :
    (a : SearchArgs) → SearchLimited a → OkHas (λ c. IsSearch c.command) (search_config a)
unfolding search_config
search_config-IsSearch a p =
    >>=-OkHas (λ u. Unit {0}) (λ c. IsSearch c.command) (check_query a) _ (any_result _)
      λ u v.
        >>=-OkHas _ (λ c. IsSearch c.command) (reject _ field_without_regex) _
          (rejected _ field_without_regex)
          λ u' e.
            >>=-OkHas _ (λ c. IsSearch c.command) (reject _ nothing_to_search) _
              (rejected _ nothing_to_search)
              λ u'' e'. ok_has (search_of a) (
                limit_or-InRange a.browse.limit p,
                λ k.
                    is_given-or_pattern a.query a.pattern
                    ∙ has_pattern (is_given a.query) (is_given a.field) (is_given a.pattern) e k,
                ap (λ b. b || (is_given a.browse.since || is_given a.browse.until))
                      (is_given-or_pattern a.query a.pattern)
                    ∙ has_something (is_given a.query) (is_given a.field) (is_given a.pattern)
                        (is_given a.browse.since) (is_given a.browse.until) e e',
              )

-- A search that the command line accepts has a limit from 1 through 1000, an expression for the field that
-- it names, and an expression or a time to search for.
pub parse_search-IsSearch :
    (args : List Text) (config : Config) → parse_search args ≡ ok config → IsSearch config.command
unfolding parse_search
parse_search-IsSearch args config h =
    OkHas-eq (λ c. IsSearch c.command)
      (if-OkHas (wants_help args) (ok_has _ tt) (
        >>=-OkHas SearchLimited (λ c. IsSearch c.command) (parse_loop search_option _ args)
          search_config (parse_loop-OkHas SearchLimited search_option search_option-Keeps _ args tt)
          search_config-IsSearch))
      h
