-- ===== src/Cli/Flags.antt =====
-- src/cli/argv.ts, after the parse: the declared defaults, and the reading of a flag's value.
use Prim.Native.String.{String}
use text.Mathlib.Text.{◌==◌ as str_eq}
use text.Mathlib.TextEquality.{eq_iff}
use next_loggers_ts.Prelude.{
  ◌≡◌, Bool, false, ◌||◌, List, [], ◌∷◌, Option, none, some, is_some, if◌then◌else◌, arith,
}
use next_loggers_ts.Cli.Text.{lookup, insert, lookup-insert, member}
use next_loggers_ts.Cli.Spec.{FlagSpec}
use next_loggers_ts.Cli.Argv.{Runtime, Json, items, object, scalar, true_words}

abbrev pub Env : Type 0
Env = List (String × String)

-- `a ?? b`.
abbrev pub first_of_two : Option String → Option String → Option String
first_of_two none b = b
first_of_two (some a) b = some a

abbrev fill : Option String → String → Env → Env → Env
fill none k env out = out
fill (some d) k env out =
    if is_some (lookup k out) || is_some (lookup k env) then out else insert k d out

pub apply_defaults : List FlagSpec → Env → Env → Env
apply_defaults [] parsed env = parsed
apply_defaults (f ∷ fs) parsed env = apply_defaults fs (fill f.default f.env env parsed) env

pub read_flag : FlagSpec → Env → Env → Option String
read_flag f parsed env = first_of_two (lookup f.env parsed) (lookup f.env env)

module _ (rt : Runtime) where
  abbrev is_true : Option String → Bool
  is_true none = false
  is_true (some raw) = member (rt.to_lower raw) true_words

  pub read_bool : FlagSpec → Env → Env → Bool
  unfolding read_flag
  read_bool f parsed env = is_true (read_flag f parsed env)

  abbrev array_items : String → Option Json → List String
  array_items raw (some (items xs)) = xs
  array_items raw (some object) = raw ∷ []
  array_items raw (some scalar) = raw ∷ []
  array_items raw none = raw ∷ []

  abbrev array_of : Option String → List String
  array_of none = []
  array_of (some raw) = if str_eq raw "" then [] else array_items raw (rt.json_parse raw)

  pub read_array : FlagSpec → Env → Env → List String
  unfolding read_flag
  read_array f parsed env = array_of (read_flag f parsed env)

-- The default of the first flag of the list that writes the variable and declares one.
abbrev pub default_for : String → List FlagSpec → Option String
default_for k [] = none
default_for k (f ∷ fs) =
    if str_eq f.env k then first_of_two f.default (default_for k fs) else default_for k fs

lookup-fill :
    (k : String) (f : FlagSpec) (env out : Env)
    → lookup k (fill f.default f.env env out)
      ≡ first_of_two
          (lookup k out)
          (if is_some (lookup k env) then none else (if str_eq f.env k then f.default else none))
lookup-fill k f env out = by_default f.default
  where
    by_default :
        (d : Option String)
        → lookup k (fill d f.env env out)
          ≡ first_of_two
              (lookup k out)
              (if is_some (lookup k env) then none else (if str_eq f.env k then d else none))
    by_default none = ground arith
    by_default (some d) = ground (arith, eq_iff f.env k, lookup-insert f.env k d out)

lookup-apply_defaults :
    (k : String) (fs : List FlagSpec) (parsed env : Env)
    → lookup k (apply_defaults fs parsed env)
      ≡ first_of_two (lookup k parsed) (if is_some (lookup k env) then none else default_for k fs)
unfolding apply_defaults
lookup-apply_defaults k [] parsed env = ground arith
lookup-apply_defaults k (f ∷ fs) parsed env = ground (
  arith,
  lookup-apply_defaults k fs (fill f.default f.env env parsed) env,
  lookup-fill k f env parsed,
)

-- The value that a flag is read with after the defaults of any flags have been applied: what the
-- arguments set, or else the environment variable, or else the default of the first of those
-- flags that writes this variable and declares one. A default never outranks the environment.
pub read_flag-apply_defaults :
    (f : FlagSpec) (fs : List FlagSpec) (parsed env : Env)
    → read_flag f (apply_defaults fs parsed env) env
      ≡ first_of_two (lookup f.env parsed) (first_of_two (lookup f.env env) (default_for f.env fs))
unfolding read_flag
read_flag-apply_defaults f fs parsed env = ground (arith, lookup-apply_defaults f.env fs parsed env)
