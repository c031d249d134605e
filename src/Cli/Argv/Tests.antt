-- ===== src/Cli/Argv/Tests.antt =====
-- The parser of src/cli/argv.ts and the reading of flags on a small table.
use Prim.Native.Char.{Char}
use Prim.Native.String.{String}
use next_loggers_ts.Prelude.{◌≡◌, refl, true, false, List, [], ◌∷◌, ◌++◌, Option, none, some}
use next_loggers_ts.Cli.Text.{split_equals, strip_no, insert}
use next_loggers_ts.Cli.Spec.{FlagSpec, CommandSpec, Tables, string, bool, integer, find_command}
use next_loggers_ts.Cli.Argv.{
  Runtime, start, match_long, match_short, is_integer, validate, set_value, long_flag, short_flags,
  positional, step, loop, parse_argv,
}
use next_loggers_ts.Cli.Argv.Boundary.{loop-append, loop-terminator}
use next_loggers_ts.Cli.Flags.{apply_defaults, read_flag, read_flag-apply_defaults}

abbrev letter : String → Option Char
letter String.[] = none
letter (String.◌∷◌ c s) = some c

abbrev flag_of : String → String → String → FlagSpec
flag_of key env short = record {
  key = key;
  env = env;
  aliases = key ∷ [];
  short = letter short;
  type = string;
  default = none;
  help = "";
}

abbrev verbose : FlagSpec
verbose = record (flag_of "verbose" "VERBOSE" "v") { type = bool }

abbrev port : FlagSpec
port = record (flag_of "port" "PORT" "p") { type = integer; default = some "80" }

abbrev grep : FlagSpec
grep = flag_of "grep" "GREP" "g"

abbrev pretty : CommandSpec
pretty = record { name = "pretty"; summary = ""; flags = grep ∷ []; positionals = [] }

abbrev tables : Tables
tables = record { commands = pretty ∷ []; globals = verbose ∷ port ∷ [] }

-- A runtime in which nothing is JSON and every text is lower case and trimmed.
abbrev plain : Runtime
plain = record {
  to_lower = λ s. s;
  trim = λ s. s;
  json_parse = λ s. none;
  json_stringify = λ xs. "";
  is_finite_number = λ s. false;
}

abbrev argv : List String
argv = "pretty" ∷ "--grep" ∷ "--no-verbose" ∷ "-p" ∷ "-1" ∷ "--port=8080" ∷ "file" ∷ []

argv_result :
    let s = parse_argv plain tables argv in
    (s.env ≡ ("VERBOSE", "false") ∷ ("PORT", "8080") ∷ ("NEXT_LOGGER_CLI_COMMAND", "pretty") ∷ [])
    × (s.positionals ≡ "file" ∷ [])
unfolding parse_argv loop step long_flag short_flags positional find_command match_long match_short
    set_value validate is_integer split_equals strip_no insert
argv_result = (refl, refl)

loop-append_example :
    loop plain tables ("--grep" ∷ "--verbose" ∷ []) start
    ≡ loop plain tables ("--verbose" ∷ []) (loop plain tables ("--grep" ∷ []) start)
loop-append_example =
    loop-append plain tables "--verbose" ("--grep" ∷ []) [] start (refl, refl, refl)

loop-terminator_example :
    loop plain tables ("--port" ∷ "--" ∷ "--verbose" ∷ []) start
    ≡ record (loop plain tables ("--port" ∷ []) start) {
      terminated = true;
      positionals = (loop plain tables ("--port" ∷ []) start).positionals ++ "--verbose" ∷ [];
    }
unfolding loop step long_flag match_long split_equals
loop-terminator_example = loop-terminator plain tables ("--port" ∷ []) ("--verbose" ∷ []) start refl

abbrev shell : List (String × String)
shell = ("PORT", "9090") ∷ []

read_flag-apply_defaults_example :
    read_flag port (apply_defaults (verbose ∷ port ∷ []) [] shell) shell ≡ some "9090"
read_flag-apply_defaults_example = read_flag-apply_defaults port (verbose ∷ port ∷ []) [] shell
