-- ===== src/Cli/Spec.antt =====
-- src/cli/spec.ts: what a flag and a command declare, and the lookups. The tables of the commands
-- and of the global flags are an argument of the parser; Cli/Tables has those of the source.
use Prim.Native.String.{String}
use text.Mathlib.Text.{◌==◌ as str_eq}
use Prim.Native.Char.{Char}
use next_loggers_ts.Prelude.{List, [], ◌∷◌, ◌++◌, Option, none, some, if◌then◌else◌}

pub data FlagType : Type 0 where
  string bool integer float json array map : FlagType

pub record FlagSpec : Type 0 where
  pub key : String
  pub env : String
  pub aliases : List String
  pub short : Option Char
  pub type : FlagType
  pub default : Option String
  pub help : String

pub record CommandSpec : Type 0 where
  pub name : String
  pub summary : String
  pub flags : List FlagSpec
  pub positionals : List String

-- `COMMANDS` and `GLOBAL_FLAGS`.
pub record Tables : Type 0 where
  pub commands : List CommandSpec
  pub globals : List FlagSpec

find_by_name : String → List CommandSpec → Option CommandSpec
find_by_name name [] = none
find_by_name name (c ∷ cs) = if str_eq c.name name then some c else find_by_name name cs

unfoldable pub find_command : Tables → String → Option CommandSpec
unfolding find_by_name
find_command t name = find_by_name name t.commands

abbrev pub flags_in_scope : Tables → Option CommandSpec → List FlagSpec
flags_in_scope t none = t.globals
flags_in_scope t (some c) = c.flags ++ t.globals
