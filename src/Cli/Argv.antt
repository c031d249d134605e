-- ===== src/Cli/Argv.antt =====
-- src/cli/argv.ts: from the flag tables and the arguments to an environment of strings.
-- What the JavaScript runtime computes (`JSON`, `Number`, `toLowerCase`, `trim`) is the parameter
-- `Runtime`; the texts of the error messages are left out.
pub mod Boundary
pub mod Tests
use Prim.Native.Char.{Char, code}
use Prim.Native.String.{String}
use text.Mathlib.Text.{◌==◌ as str_eq}
use next_loggers_ts.Prelude.{
  ℕ, ◌==◌, Bool, true, false, not, ◌&&◌, ◌||◌, List, [], ◌∷◌, ◌++◌, Option, none, some, or_else,
  is_some, if◌then◌else◌,
}
use next_loggers_ts.Cli.Text.{
  is_char, is_digit, starts_dash, starts_dashes, is_negative_number, tail, split_equals, strip_no,
  letters, member, lookup, insert,
}
use next_loggers_ts.Cli.Spec.{
  FlagType, bool, integer, float, json, array, map, string, FlagSpec, CommandSpec, Tables,
  find_command, flags_in_scope,
}

-- What `JSON.parse` yields, as far as the parser looks: the items of an array as strings, an
-- object that is no array, or another value.
pub data Json : Type 0 where
  items : List String → Json
  object scalar : Json

pub record Runtime : Type 0 where
  pub to_lower : String → String
  pub trim : String → String
  pub json_parse : String → Option Json
  pub json_stringify : List String → String
  pub is_finite_number : String → Bool

pub data ParseError : Type 0 where
  expects_boolean expects_integer expects_number expects_array expects_json expects_object :
      FlagSpec → String → ParseError
  unknown_flag : String → ParseError
  unknown_letter : Char → ParseError
  expects_value : String → ParseError
  letter_expects_value : Char → ParseError

pub record State : Type 0 where
  pub command : Option CommandSpec
  pub env : List (String × String)
  pub positionals : List String
  pub errors : List ParseError
  pub help_requested : Bool
  pub version_requested : Bool
  pub accumulated : List (String × List String)
  pub terminated : Bool

abbrev pub start : State
start = record {
  command = none;
  env = [];
  positionals = [];
  errors = [];
  help_requested = false;
  version_requested = false;
  accumulated = [];
  terminated = false;
}

abbrev pub true_words : List String
true_words = "1" ∷ "true" ∷ "t" ∷ "yes" ∷ "y" ∷ "on" ∷ []

abbrev pub false_words : List String
false_words = "0" ∷ "false" ∷ "f" ∷ "no" ∷ "n" ∷ "off" ∷ []

unfoldable pub match_long : List FlagSpec → String → Option FlagSpec
match_long [] name = none
match_long (f ∷ fs) name = if member name f.aliases then some f else match_long fs name

abbrev has_letter : Option Char → Char → Bool
has_letter none c = false
has_letter (some d) c = code d == code c

unfoldable pub match_short : List FlagSpec → Char → Option FlagSpec
match_short [] c = none
match_short (f ∷ fs) c = if has_letter f.short c then some f else match_short fs c

abbrev pub is_bool : FlagType → Bool
is_bool bool = true
is_bool _ = false

abbrev is_numeric : FlagType → Bool
is_numeric integer = true
is_numeric float = true
is_numeric _ = false

abbrev pub accepts_separated_value : FlagType → Option String → Bool
accepts_separated_value t none = false
accepts_separated_value t (some token) =
    (not (starts_dash token) || str_eq token "-") || (is_numeric t && is_negative_number token)

all_digits : String → Bool
all_digits String.[] = true
all_digits (String.◌∷◌ c s) = is_digit c && all_digits s

abbrev some_digits : String → Bool
some_digits String.[] = false
some_digits (String.◌∷◌ c s) = is_digit c && all_digits s

-- `/^[+-]?\d+$/.test(s)`.
unfoldable pub is_integer : String → Bool
unfolding all_digits
is_integer String.[] = false
is_integer (String.◌∷◌ c s) =
    if is_char c b'+' || is_char c b'-' then some_digits s else some_digits (String.◌∷◌ c s)

abbrev opens_json : String → Bool
opens_json String.[] = false
opens_json (String.◌∷◌ c s) = is_char c b'[' || is_char c b'{'

module _ (rt : Runtime) where
  abbrev check_array : FlagSpec → String → Option Json → Option ParseError
  check_array f raw none = some (expects_json f raw)
  check_array f raw (some (items xs)) = none
  check_array f raw (some object) = some (expects_array f raw)
  check_array f raw (some scalar) = some (expects_array f raw)

  abbrev check_map : FlagSpec → String → Option Json → Option ParseError
  check_map f raw none = some (expects_json f raw)
  check_map f raw (some (items xs)) = some (expects_object f raw)
  check_map f raw (some object) = none
  check_map f raw (some scalar) = some (expects_object f raw)

  abbrev is_word : String → List String → Bool
  is_word raw words = member (rt.to_lower raw) words

  -- The error that `setValue` records, if the value does not fit the flag's type.
  unfoldable pub validate : FlagType → FlagSpec → String → Option ParseError
  unfolding is_integer
  validate bool f raw =
      if is_word raw true_words || is_word raw false_words
      then none
      else some (expects_boolean f raw)
  validate integer f raw = if is_integer (rt.trim raw) then none else some (expects_integer f raw)
  validate float f raw = if rt.is_finite_number raw then none else some (expects_number f raw)
  validate array f raw =
      if opens_json (rt.trim raw) then check_array f raw (rt.json_parse (rt.trim raw)) else none
  validate json f raw = if is_some (rt.json_parse raw) then none else some (expects_json f raw)
  validate map f raw = check_map f raw (rt.json_parse raw)
  validate string f raw = none

  abbrev normalize_bool : String → String
  normalize_bool raw = if is_word raw true_words then "true" else "false"

  abbrev items_of : String → Option Json → List String
  items_of raw (some (items xs)) = xs
  items_of raw (some object) = raw ∷ []
  items_of raw (some scalar) = raw ∷ []
  items_of raw none = raw ∷ []

  abbrev put : String → String → State → State
  put k v s = record s { env = insert k v s.env }

  abbrev store : FlagType → FlagSpec → String → State → State
  store bool f raw s = put f.env (normalize_bool raw) s
  store array f raw s =
      let existing = or_else (lookup f.env s.accumulated) [] ++ items_of raw (rt.json_parse raw) in
      put f.env (rt.json_stringify existing)
        (record s { accumulated = insert f.env existing s.accumulated })
  store _ f raw s = put f.env raw s

  abbrev fail : ParseError → State → State
  fail e s = record s { errors = s.errors ++ e ∷ [] }

  abbrev unless_error : Option ParseError → State → State → State
  unless_error (some e) s stored = fail e s
  unless_error none s stored = stored

  unfoldable pub set_value : FlagSpec → String → State → State
  set_value f raw s = unless_error (validate f.type f raw) s (store f.type f raw s)

  -- A flag without an inline value; the Boolean says that the next token has been taken.
  abbrev take_value : FlagSpec → ParseError → Option String → State → State × Bool
  take_value f e (some next) s =
      if accepts_separated_value f.type (some next)
      then (set_value f next s, true)
      else (fail e s, false)
  take_value f e none s = (fail e s, false)

  abbrev bare : FlagSpec → ParseError → Option String → State → State × Bool
  bare f e next s = if is_bool f.type then (put f.env "true" s, false) else take_value f e next s

  abbrev found_long : FlagSpec → String → Option String → Option String → State → State × Bool
  found_long f name (some value) next s = (set_value f value s, false)
  found_long f name none next s = bare f (expects_value name) next s

  -- `--no-x` for a boolean flag x, when no flag is called `no-x`.
  abbrev negated : List FlagSpec → Option String → Option FlagSpec
  negated scope none = none
  negated scope (some name) = match_long scope name

  abbrev not_found : Option FlagSpec → String → State → State
  not_found none name s = fail (unknown_flag name) s
  not_found (some f) name s =
      if is_bool f.type then put f.env "false" s else fail (unknown_flag name) s

  abbrev by_long :
      Option FlagSpec
      → List FlagSpec
      → String
      → Option String
      → Option String
      → State
      → State × Bool
  by_long (some f) scope name value next s = found_long f name value next s
  by_long none scope name value next s = (not_found (negated scope (strip_no name)) name s, false)

  unfoldable pub long_flag : List FlagSpec → String → Option String → State → State × Bool
  long_flag scope body next s =
      let (name, value) = split_equals body in
      by_long (match_long scope name) scope name value next s

  abbrev is_bool_flag : Option FlagSpec → Bool
  is_bool_flag none = false
  is_bool_flag (some f) = is_bool f.type

  all_bool : List FlagSpec → List Char → Bool
  all_bool scope [] = true
  all_bool scope (c ∷ cs) = is_bool_flag (match_short scope c) && all_bool scope cs

  abbrev set_true : Option FlagSpec → State → State
  set_true none s = s
  set_true (some f) s = put f.env "true" s

  set_bundle : List FlagSpec → List Char → State → State
  set_bundle scope [] s = s
  set_bundle scope (c ∷ cs) s = set_bundle scope cs (set_true (match_short scope c) s)

  -- What follows the first letter: nothing, `=value`, a bundle, or an inline value.
  abbrev short_rest :
      List FlagSpec → FlagSpec → Char → String → Option String → State → State × Bool
  short_rest scope f first String.[] next s = bare f (letter_expects_value first) next s
  short_rest scope f first (String.◌∷◌ c rest) next s =
      if is_char c b'='
      then (set_value f rest s, false)
      else (if is_bool f.type && all_bool scope (c ∷ letters rest)
          then (set_bundle scope (c ∷ letters rest) (put f.env "true" s), false)
          else (set_value f (String.◌∷◌ c rest) s, false))

  abbrev by_short :
      Option FlagSpec → List FlagSpec → Char → String → Option String → State → State × Bool
  by_short none scope first rest next s = (fail (unknown_letter first) s, false)
  by_short (some f) scope first rest next s = short_rest scope f first rest next s

  unfoldable pub short_flags : List FlagSpec → String → Option String → State → State × Bool
  unfolding all_bool set_bundle
  short_flags scope String.[] next s = (s, false)
  short_flags scope (String.◌∷◌ first rest) next s =
      by_short (match_short scope first) scope first rest next s

  abbrev select : Option CommandSpec → Option CommandSpec → String → State → State
  select none (some c) token s = record s { command = some c }
  select _ _ token s = record s { positionals = s.positionals ++ token ∷ [] }

  -- The first positional that names a command selects it: `commandLocked` is that one is selected.
  unfoldable pub positional : Tables → String → State → State
  positional t token s = select s.command (find_command t token) token s

  -- One turn of the loop; the Boolean says that the next token has been taken as well.
  unfoldable pub step : Tables → String → Option String → State → State × Bool
  step t token next s =
      let scope = flags_in_scope t s.command in
      if s.terminated
      then (record s { positionals = s.positionals ++ token ∷ [] }, false)
      else (if str_eq token "--"
          then (record s { terminated = true }, false)
          else (if str_eq token "--help" || str_eq token "-h"
              then (record s { help_requested = true }, false)
              else (if str_eq token "--version" || str_eq token "-V"
                  then (record s { version_requested = true }, false)
                  else (if starts_dashes token
                      then long_flag scope (tail (tail token)) next s
                      else (if starts_dash token && not (str_eq token "-")
                          then short_flags scope (tail token) next s
                          else (positional t token s, false))))))

  unfoldable pub loop : Tables → List String → State → State
  loop t [] s = s
  loop t (x ∷ []) s = (step t x none s).0
  loop t (x ∷ y ∷ rest) s =
      let (s', taken) = step t x (some y) s in
      elim taken [ true ↦ loop t rest s' | false ↦ loop t (y ∷ rest) s' ]

  abbrev with_command : Option CommandSpec → State → State
  with_command none s = s
  with_command (some c) s = put "NEXT_LOGGER_CLI_COMMAND" c.name s

  unfoldable pub parse_argv : Tables → List String → State
  parse_argv t argv = let s = loop t argv start in with_command s.command s
