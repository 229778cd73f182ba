-- ===== src/Dec/Args/Tests.antt =====
-- The command line of pira_dec (tools/src/pira_dec/cli.rs) on small lists of arguments.
use pira.Common.{◌≡◌, refl, false, [], ◌∷◌, none, some, ok, err, codes}
use pira.Common.Utf8.{encode_char}
use pira.Dec.Args.{Config, list_command, search_command, limit_range, parse_list, parse_search}
use pira.Dec.Args.Accepted.{IsSearch, parse_search-IsSearch}

abbrev five_newest : Config
five_newest = record { command = list_command none none 5 false; store_dir = none }

five_parsed : parse_list (codes "--limit" ∷ codes "5" ∷ []) ≡ ok five_newest
unfolding parse_list
five_parsed = refl

none_refused : parse_list (codes "--limit" ∷ codes "0" ∷ []) ≡ err limit_range
unfolding parse_list
none_refused = refl

abbrev storage_search : Config
storage_search = record {
  command = search_command none (some (codes "sql")) none none 20 false;
  store_dir = none;
}

storage_parsed : parse_search (codes "--" ∷ codes "sql" ∷ []) ≡ ok storage_search
unfolding parse_search encode_char
storage_parsed = refl

parse_search-IsSearch_example :
    IsSearch (search_command none (some (codes "sql")) none none 20 false)
parse_search-IsSearch_example =
    parse_search-IsSearch (codes "--" ∷ codes "sql" ∷ []) storage_search storage_parsed
