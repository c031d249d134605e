-- ===== src/Cli/Tables.antt =====
-- The tables of src/cli/spec.ts, entry by entry: the flags that the library's configuration reads,
-- the global flags and the commands.
use Prim.Native.Char.{Char}
use Prim.Native.String.{String}
use next_loggers_ts.Prelude.{List, [], ◌∷◌, ◌++◌, Option, none, some}
use next_loggers_ts.Cli.Spec.{FlagType, string, bool, array, FlagSpec, CommandSpec, Tables}

abbrev flag :
    String → String → List String → Option Char → FlagType → Option String → String → FlagSpec
flag key env aliases short type default help = record {
  key = key;
  env = env;
  aliases = aliases;
  short = short;
  type = type;
  default = default;
  help = help;
}

abbrev pub library_contract_flags : List FlagSpec
library_contract_flags =
    flag "app_name" "NEXT_LOGGER_APP_NAME" ("app-name" ∷ []) none string none
      "Application name stamped on every record."
    ∷ flag "logger_name" "NEXT_LOGGER_NAME" ("logger-name" ∷ []) none string none
        "Logger instance name."
    ∷ flag "max_level" "NEXT_LOGGER_MAX_LEVEL" ("max-level" ∷ []) (some "L") string none
        "Lowest level emitted (trace|debug|info|warn|error|fatal)."
    ∷ flag "console" "NEXT_LOGGER_CONSOLE" ("console" ∷ []) none bool none
        "Write records to the console."
    ∷ flag "auto_send" "NEXT_LOGGER_AUTO_SEND" ("auto-send" ∷ []) none bool none
        "Send events without an explicit .send() call."
    ∷ flag "http_endpoint" "NEXT_LOGGER_HTTP_ENDPOINT" ("http-endpoint" ∷ []) none string none
        "HTTP transport endpoint."
    ∷ flag "http_fallback_endpoint" "NEXT_LOGGER_HTTP_FALLBACK_ENDPOINT"
        ("http-fallback-endpoint" ∷ []) none string none
        "HTTP transport fallback endpoint, tried when the primary fails."
    ∷ flag "error_tracking_url" "NEXT_LOGGER_ERROR_TRACKING_URL" ("error-tracking-url" ∷ []) none
        string none "Error-tracking endpoint for high-severity records."
    ∷ flag "error_tracking_fallback_url" "NEXT_LOGGER_ERROR_TRACKING_FALLBACK_URL"
        ("error-tracking-fallback-url" ∷ []) none string none "Error-tracking fallback endpoint."
    ∷ flag "error_tracking_min_level" "NEXT_LOGGER_ERROR_TRACKING_MIN_LEVEL"
        ("error-tracking-min-level" ∷ []) none string none
        "Lowest level forwarded to the error tracker."
    ∷ flag "supabase_url" "NEXT_LOGGER_SUPABASE_URL" ("supabase-url" ∷ []) none string none
        "Supabase project or Realtime WebSocket URL."
    ∷ flag "supabase_anon_key" "NEXT_LOGGER_SUPABASE_ANON_KEY" ("supabase-anon-key" ∷ []) none
        string none "Supabase publishable/anon key. Required alongside the URL."
    ∷ flag "supabase_channel" "NEXT_LOGGER_SUPABASE_CHANNEL" ("supabase-channel" ∷ []) none string
        none "Supabase Realtime channel name."
    ∷ flag "supabase_event" "NEXT_LOGGER_SUPABASE_EVENT" ("supabase-event" ∷ []) none string none
        "Supabase Realtime broadcast event name."
    ∷ flag "config_dir" "NEXT_LOGGER_CONFIG_DIR" ("config-dir" ∷ []) none string none
        "Directory searched for .next-logger.{ts,mts,mjs,js}."
    ∷ []

abbrev pub global_flags : List FlagSpec
global_flags =
    library_contract_flags
    ++ flag "json" "NEXT_LOGGER_CLI_JSON" ("json" ∷ []) none bool (some "false")
        "Emit one machine-readable JSON object instead of human output."
      ∷ flag "color" "NEXT_LOGGER_CLI_COLOR" ("color" ∷ []) none string (some "auto")
          "Colorize output: auto|always|never. NO_COLOR is always honoured."
      ∷ flag "quiet" "NEXT_LOGGER_CLI_QUIET" ("quiet" ∷ []) (some "q") bool (some "false")
          "Suppress non-essential output."
      ∷ []

abbrev pub smoke_command : CommandSpec
smoke_command = record {
  name = "smoke";
  summary = "Verify an installed build: import it, assert the runtime, run the smoke test.";
  flags =
      flag "package" "NEXT_LOGGER_CLI_SMOKE_PACKAGE" ("package" ∷ []) (some "p") string none
        "Directory of the installed package. Defaults to the CLI's own package root."
      ∷ flag "expect_runtime" "NEXT_LOGGER_CLI_EXPECT_RUNTIME" ("expect-runtime" ∷ []) none string
          none
          "Require the root export to resolve to this runtime (node|bun|deno|browser|edge|cloudflare)."
      ∷ flag "depth" "NEXT_LOGGER_CLI_SMOKE_DEPTH" ("depth" ∷ []) none string (some "basic")
          "basic = import + runtime + r2gSmokeTest; full = adds context, redaction and limits checks."
      ∷ [];
  positionals = [];
}

abbrev pub doctor_command : CommandSpec
doctor_command = record {
  name = "doctor";
  summary = "Diagnose whether logging will behave correctly in this environment.";
  flags =
      flag "strict" "NEXT_LOGGER_CLI_STRICT" ("strict" ∷ []) none bool (some "false")
        "Treat warnings as failures (exit 1)."
      ∷ [];
  positionals = [];
}

abbrev pub resolve_command : CommandSpec
resolve_command = record {
  name = "resolve";
  summary = "Walk the package's exports map and print what each subpath resolves to.";
  flags =
      flag "condition" "NEXT_LOGGER_CLI_CONDITIONS" ("condition" ∷ []) (some "c") array none
        "Export condition to apply; repeatable. Implies --runtime is ignored."
      ∷ flag "runtime" "NEXT_LOGGER_CLI_RUNTIME" ("runtime" ∷ []) (some "r") string none
          "Shorthand condition set: node|bun|deno|browser|workerd|edge-light."
      ∷ flag "subpath" "NEXT_LOGGER_CLI_SUBPATH" ("subpath" ∷ []) (some "s") string none
          "Limit output to one subpath, e.g. \".\" or \"./context\"."
      ∷ [];
  positionals = [];
}

abbrev pub pretty_command : CommandSpec
pretty_command = record {
  name = "pretty";
  summary = "Render next-loggers/v1 NDJSON from stdin; non-JSON lines pass through.";
  flags =
      flag "min_level" "NEXT_LOGGER_CLI_MIN_LEVEL" ("min-level" ∷ []) (some "m") string none
        "Drop records below this level."
      ∷ flag "grep" "NEXT_LOGGER_CLI_GREP" ("grep" ∷ []) (some "g") string none
          "Keep only records whose message matches this substring."
      ∷ flag "show_stack" "NEXT_LOGGER_CLI_SHOW_STACK" ("show-stack" ∷ []) none bool (some "false")
          "Print captured stack traces and error stacks."
      ∷ flag "output" "NEXT_LOGGER_CLI_OUTPUT" ("output" ∷ []) (some "o") string (some "text")
          "text = human output; json = re-emit filtered NDJSON so it composes."
      ∷ [];
  positionals = [];
}

abbrev pub packages_command : CommandSpec
packages_command = record {
  name = "packages";
  summary = "List independently publishable Zed/native packages and verify release metadata.";
  flags =
      flag "target" "NEXT_LOGGER_CLI_PACKAGE_TARGETS" ("target" ∷ []) (some "t") array none
        "Release target filter; repeatable. See the detailed CLI documentation."
      ∷ flag "registry" "NEXT_LOGGER_CLI_PACKAGE_REGISTRIES" ("registry" ∷ []) (some "R") array none
          "Registry filter; repeatable. See the detailed CLI documentation."
      ∷ flag "release_version" "NEXT_LOGGER_CLI_RELEASE_VERSION" ("release-version" ∷ []) none
          string none
          "Semantic version used to render immutable release tags; defaults to package.json."
      ∷ flag "check" "NEXT_LOGGER_CLI_PACKAGES_CHECK" ("check" ∷ []) none bool (some "false")
          "Verify the compiled release catalog against package.json and .zpkg.toml."
      ∷ [];
  positionals = [];
}

abbrev pub lint_command : CommandSpec
lint_command = record {
  name = "lint";
  summary =
      "Report next-loggers events that are built but never sent, in every supported language.";
  flags =
      flag "logger_name" "NEXT_LOGGER_CLI_LINT_LOGGER_NAMES" ("logger-name" ∷ []) none array none
        "Extra variable or property path holding a next-loggers logger; repeatable."
      ∷ flag "all" "NEXT_LOGGER_CLI_LINT_ALL" ("all" ∷ []) none bool (some "false")
          "Check every supported source file, including files without a next-loggers import."
      ∷ [];
  positionals = ("paths..." ∷ []);
}

abbrev pub flags_command : CommandSpec
flags_command = record {
  name = "flags";
  summary = "Print the command/flag/env documentation, or check it against .cli-flags.toml.";
  flags =
      flag "check" "NEXT_LOGGER_CLI_FLAGS_CHECK" ("check" ∷ []) none bool (some "false")
        "Exit 1 if .cli-flags.toml command, flag, env, or help metadata has drifted."
      ∷ [];
  positionals = [];
}

abbrev pub tables : Tables
tables = record {
  commands =
      smoke_command ∷ doctor_command ∷ resolve_command ∷ pretty_command ∷ packages_command
      ∷ lint_command ∷ flags_command ∷ [];
  globals = global_flags;
}
