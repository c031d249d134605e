-- ===== src/Cli/Scope.antt =====
-- How the arguments are matched with the tables of src/cli/spec.ts.
use Prim.Native.Char.{Char}
use Prim.Native.String.{String}
use text.Mathlib.Text.{◌==◌ as str_eq}
use next_loggers_ts.Prelude.{◌≡◌, refl, List, [], ◌∷◌, Bool, true, false, ◌&&◌, Option, none, some}
use next_loggers_ts.Cli.Spec.{FlagSpec, CommandSpec, Tables, find_command, flags_in_scope}
use next_loggers_ts.Cli.Tables.{tables, lint_command}
use next_loggers_ts.Cli.Argv.{match_long, match_short}

abbrev is_env : FlagSpec → Option FlagSpec → Bool
is_env f none = false
is_env f (some g) = str_eq g.env f.env

abbrev env_of : Option FlagSpec → Option String
env_of none = none
env_of (some f) = some f.env

abbrev short_found : List FlagSpec → FlagSpec → Option Char → Bool
short_found scope f none = true
short_found scope f (some c) = is_env f (match_short scope c)

abbrev all_found : List FlagSpec → List FlagSpec → Bool
all_found scope [] = true
all_found scope (f ∷ fs) = short_found scope f f.short && all_found scope fs

abbrev is_found : CommandSpec → Option CommandSpec → Bool
is_found c none = false
is_found c (some d) = str_eq c.name d.name

abbrev scopes_found : Tables → List CommandSpec → Bool
scopes_found t [] = true
scopes_found t (c ∷ cs) =
    let scope = flags_in_scope t (some c) in
    is_found c (find_command t c.name) && all_found scope scope && scopes_found t cs

-- In the scope of each command no letter is taken by another flag, and each command is found.
tables_found : scopes_found tables tables.commands ≡ true
unfolding find_command match_short
tables_found = refl

-- Behind `lint`, `--logger-name` is the command's own repeatable flag, not the library's.
lint_logger_name :
    env_of (match_long (flags_in_scope tables (some lint_command)) "logger-name")
    ≡ some "NEXT_LOGGER_CLI_LINT_LOGGER_NAMES"
unfolding match_long
lint_logger_name = refl
