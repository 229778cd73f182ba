-- ===== src/Dec/Args/Limits.antt =====
-- The limits that the command line of pira_dec accepts (tools/src/pira_dec/cli.rs).
use pira.Common.{
  ℕ, ◌≤◌, ◌≡◌, refl, sym, subst, Bool, true, false, not, List, [], ◌∷◌, Option, none, some, list_eq,
  if◌then◌else◌, within, Text, Result, ok, err, reject, ok_or, ◌>>=◌, ok-injective, codes,
  Bool-cases, inl, inr, arith,
}
use pira.Dec.Args.{
  ArgsError, requires_value, only_once, too_long, not_a_limit, limit_range, unknown_argument,
  Command, list_command, export_command, search_command, Config, Flag, valued, alone, last,
  parse_loop, set_once, parse_usize, BrowseArgs, no_browse, set_since, set_until, set_limit,
  set_store, browse_option, wants_help, limit_or, list_config, parse_list,
}

abbrev pub InRange : Option ℕ → Type 0
InRange none = Unit {0}
InRange (some n) = (1 ≤ n) × (n ≤ 1_000)

-- The limit of a command.
abbrev pub HasLimit : Command → Type 0
HasLimit (list_command since until limit json) = (1 ≤ limit) × (limit ≤ 1_000)
HasLimit (export_command output since until limit) = InRange limit
HasLimit (search_command field pattern' since until limit json) = (1 ≤ limit) × (limit ≤ 1_000)
HasLimit _ = Unit {0}

-- A result, if there is one, has a property.
pub data OkHas {A : Type 0} (P : A → Type 0) : Result ArgsError A → Type 0 where
  err_has : (e : ArgsError) → OkHas P (err e)
  ok_has : (a : A) → P a → OkHas P (ok a)

pub >>=-OkHas :
    {A B : Type 0} (Q : A → Type 0) (P : B → Type 0) (before : Result ArgsError A)
    (next : A → Result ArgsError B)
    → OkHas Q before
    → ((a : A) → Q a → OkHas P (next a))
    → OkHas P (before >>= next)
>>=-OkHas Q P _ next (err_has e) h = err_has e
>>=-OkHas Q P _ next (ok_has a q) h = h a q

pub any_result : {A : Type 0} (r : Result ArgsError A) → OkHas (λ a. Unit {0}) r
any_result (err e) = err_has e
any_result (ok a) = ok_has a tt

-- A step of a loop keeps a property.
pub data Keeps {S : Type 0} (P : S → Type 0) : Flag S → Type 0 where
  keeps_valued :
      (f : Text → S → Result ArgsError S)
      → ((v : Text) (s : S) → P s → OkHas P (f v s))
      → Keeps P (valued f)
  keeps_alone : (f : S → Result ArgsError S) → ((s : S) → P s → OkHas P (f s)) → Keeps P (alone f)
  keeps_last :
      (f : List Text → S → Result ArgsError S)
      → ((args : List Text) (s : S) → P s → OkHas P (f args s))
      → Keeps P (last f)

pub if-Keeps :
    {S : Type 0} (P : S → Type 0) (b : Bool) {f g : Flag S}
    → Keeps P f
    → Keeps P g
    → Keeps P (if b then f else g)
if-Keeps P true h k = h
if-Keeps P false h k = k

module _ {S : Type 0} (P : S → Type 0) (flag : Text → Flag S) where
  one_left :
      (arg : Text) (f : Flag S) (s : S)
      → Keeps P f
      → P s
      → OkHas P (elim f [ valued g ↦ err (requires_value arg) | alone g ↦ g s | last g ↦ g [] s ])
  one_left arg _ s (keeps_valued g k) p = err_has (requires_value arg)
  one_left arg _ s (keeps_alone g k) p = k s p
  one_left arg _ s (keeps_last g k) p = k [] s p

  two_left :
      (f : Flag S) (s : S) (next : Text) (args : List Text)
      → Keeps P f
      → P s
      → ((s' : S) → P s' → OkHas P (parse_loop flag s' args))
      → ((s' : S) → P s' → OkHas P (parse_loop flag s' (next ∷ args)))
      → OkHas P (elim f [
        | valued g ↦ g next s >>= λ s'. parse_loop flag s' args
        | alone g ↦ g s >>= λ s'. parse_loop flag s' (next ∷ args)
        | last g ↦ g (next ∷ args) s
      ])
  two_left _ s next args (keeps_valued g k) p h i = >>=-OkHas P P (g next s) _ (k next s p) h
  two_left _ s next args (keeps_alone g k) p h i = >>=-OkHas P P (g s) _ (k s p) i
  two_left _ s next args (keeps_last g k) p h i = k (next ∷ args) s p

  pub parse_loop-OkHas :
      ((arg : Text) → Keeps P (flag arg))
      → (s : S) (args : List Text) → P s
      → OkHas P (parse_loop flag s args)
  unfolding parse_loop
  parse_loop-OkHas keeps s [] p = ok_has s p
  parse_loop-OkHas keeps s (arg ∷ []) p = one_left arg (flag arg) s (keeps arg) p
  parse_loop-OkHas keeps s (arg ∷ next ∷ args) p =
      two_left (flag arg) s next args (keeps arg) p (λ s' p'. parse_loop-OkHas keeps s' args p')
        (λ s' p'. parse_loop-OkHas keeps s' (next ∷ args) p')

abbrev pub Limited : BrowseArgs → Type 0
Limited b = InRange b.limit

-- A limit that is not refused.
accepted :
    (limit : ℕ)
    → OkHas (λ u. (1 ≤ limit) × (limit ≤ 1_000)) (reject (not (within 1 1_000 limit)) limit_range)
accepted limit = elim (Bool-cases (within 1 1_000 limit)) [
  | inl t ↦ rw t (ok_has tt (ground arith))
  | inr f ↦ rw f (err_has limit_range)
]

set_once-value : (old : Option ℕ) (n : ℕ) (label : Text) → OkHas (λ m. m ≡ n) (set_once old n label)
unfolding set_once
set_once-value none n label = ok_has n refl
set_once-value (some o) n label = err_has (only_once label)

set_limit-Limited : (raw : Text) (b : BrowseArgs) → OkHas Limited (set_limit raw b)
unfolding set_limit
set_limit-Limited raw b =
    >>=-OkHas (λ n. Unit {0}) Limited (ok_or (parse_usize raw) not_a_limit) _ (any_result _)
      λ limit u.
        >>=-OkHas (λ v. (1 ≤ limit) × (limit ≤ 1_000)) Limited
          (reject (not (within 1 1_000 limit)) limit_range) _ (accepted limit)
          λ v range.
            >>=-OkHas (λ m. m ≡ limit) Limited (set_once b.limit limit (codes "--limit")) _
              (set_once-value b.limit limit (codes "--limit"))
              λ m e.
                ok_has (record b { limit = some m })
                  (subst (λ n. (1 ≤ n) × (n ≤ 1_000)) (sym e) range)

set_since-Limited : (raw : Text) (b : BrowseArgs) → Limited b → OkHas Limited (set_since raw b)
unfolding set_since
set_since-Limited raw b p =
    >>=-OkHas (λ u. Unit {0}) Limited (reject _ (too_long (codes "--since"))) _ (any_result _)
      λ u v.
        >>=-OkHas (λ m. Unit {0}) Limited (set_once b.since raw (codes "--since")) _ (any_result _)
          λ m w. ok_has (record b { since = some m }) p

set_until-Limited : (raw : Text) (b : BrowseArgs) → Limited b → OkHas Limited (set_until raw b)
unfolding set_until
set_until-Limited raw b p =
    >>=-OkHas (λ u. Unit {0}) Limited (reject _ (too_long (codes "--until"))) _ (any_result _)
      λ u v.
        >>=-OkHas (λ m. Unit {0}) Limited (set_once b.until raw (codes "--until")) _ (any_result _)
          λ m w. ok_has (record b { until = some m }) p

set_store-Limited : (raw : Text) (b : BrowseArgs) → Limited b → OkHas Limited (set_store raw b)
unfolding set_store
set_store-Limited raw b p =
    >>=-OkHas (λ m. Unit {0}) Limited (set_once b.store_dir raw (codes "--store-dir")) _
      (any_result _) λ m w. ok_has (record b { store_dir = some m }) p

pub browse_option-Keeps : (arg : Text) → Keeps Limited (browse_option arg)
unfolding browse_option
browse_option-Keeps arg =
    if-Keeps Limited (list_eq arg (codes "--since")) (keeps_valued set_since set_since-Limited) (
      if-Keeps Limited (list_eq arg (codes "--until")) (keeps_valued set_until set_until-Limited) (
        if-Keeps Limited (list_eq arg (codes "--limit"))
          (keeps_valued set_limit (λ v b p. set_limit-Limited v b))
          (if-Keeps Limited (list_eq arg (codes "--json"))
            (keeps_alone _ (λ b p. ok_has (record b { json = true }) p))
            (if-Keeps Limited (list_eq arg (codes "--store-dir"))
              (keeps_valued set_store set_store-Limited)
              (keeps_alone _ (λ b p. err_has (unknown_argument arg)))))))

pub if-OkHas :
    {A : Type 0} {P : A → Type 0} (b : Bool) {first second : Result ArgsError A}
    → OkHas P first
    → OkHas P second
    → OkHas P (if b then first else second)
if-OkHas true h k = h
if-OkHas false h k = k

pub limit_or-InRange :
    (limit : Option ℕ) → InRange limit → (1 ≤ limit_or 20 limit) × (limit_or 20 limit ≤ 1_000)
limit_or-InRange none h = (omega arith, omega arith)
limit_or-InRange (some n) h = h

pub OkHas-eq :
    {A : Type 0} (P : A → Type 0) {r : Result ArgsError A} {a : A} → OkHas P r → r ≡ ok a → P a
OkHas-eq P (ok_has b p) e = subst P (ok-injective e) p
OkHas-eq P (err_has w) e = absurd cc

-- A limit that a listing of records takes is from 1 through 1000; without the option it is 20.
pub parse_list-HasLimit :
    (args : List Text) (config : Config) → parse_list args ≡ ok config → HasLimit config.command
unfolding parse_list
parse_list-HasLimit args config h =
    OkHas-eq (λ c. HasLimit c.command) (if-OkHas (wants_help args) (ok_has _ tt) parsed) h
  where
    parsed :
        OkHas
          (λ c. HasLimit c.command)
          (parse_loop browse_option no_browse args >>= λ b. ok (list_config b))
    parsed =
        >>=-OkHas Limited (λ c. HasLimit c.command) (parse_loop browse_option no_browse args) _
          (parse_loop-OkHas Limited browse_option browse_option-Keeps no_browse args tt)
          λ b p. ok_has (list_config b) (limit_or-InRange b.limit p)
