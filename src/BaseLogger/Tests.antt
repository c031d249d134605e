-- ===== src/BaseLogger/Tests.antt =====
-- Runs of the parts of src/base-logger.ts on concrete values.
use Prim.Native.String.{String}
use text.Mathlib.Text.{◌==◌ as str_eq}
use next_loggers_ts.Prelude.{
  ℕ, zero, suc, ◌≡◌, refl, List, [], ◌∷◌, true, false, ◌||◌, Option, none, some, inl, inr, ltb,
  if◌then◌else◌,
}
use next_loggers_ts.Cli.Text.{member}
use next_loggers_ts.BaseLogger.Objects.{is_distinct}
use next_loggers_ts.BaseLogger.Serialize.{
  Limits, number, string, object, holds, throws, Cell, error, array, map, plain, numeric, str,
  items, fields, nil, cons, end, field, Runtime, default_redacted, put, push, includes,
  should_redact, cap_collection, each, each_property, each_error_property, serialize_error,
  serialize_cell, serialize, serialize_log_value,
}
use next_loggers_ts.BaseLogger.Serialize.Cells.{outcome_hidden}
use next_loggers_ts.BaseLogger.Serialize.Nodes.{AllOutcome}
use next_loggers_ts.BaseLogger.Serialize.Redaction.{
  redaction, sizes, serialize_log_value-redaction, serialize_log_value-sizes,
}
use next_loggers_ts.BaseLogger.Event.{
  warn, error as error_level, LogEvent, Ambient, new_event, context_of, make_record,
}
use next_loggers_ts.BaseLogger.Event.Records.{
  Call, fields_added, trace_added, tags_added, build, make_record-build,
}
use next_loggers_ts.BaseLogger.Http
use next_loggers_ts.BaseLogger.Http.{Post, accepted, failed, endpoints, up_to_accepted, any_accepts}
use next_loggers_ts.BaseLogger.Tracking
use next_loggers_ts.BaseLogger.Tracking.{Record, Tracker, matches, wrote}

abbrev limits : Limits
limits = record { max_string_length = 4; max_depth = 3; max_array_length = 1; max_properties = 2 }

abbrev runtime : Runtime ℕ
runtime = record {
  is_finite = λ n. ltb n 1000;
  number_text = λ n. "Infinity";
  count = λ n. n;
  digits = λ n. "1";
  to_lower = λ s. s;
  key_text = λ v. "key";
}

-- A record that reaches itself, with a secret, a list that is too long and a getter that throws.
abbrev heap : ℕ → Cell ℕ
heap zero =
    plain
      (("password", holds (string "hidden"))
        ∷ ("list", holds (object 1))
        ∷ ("more", throws "no")
        ∷ [])
      none
heap (suc zero) = array (object 0 ∷ number 2 ∷ [])
heap (suc (suc n)) = error (record {
  name = "Error";
  message = "failed";
  stack = none;
  cause = some (object 0);
  properties = ("token", holds (number 1)) ∷ [];
})

abbrev redacts : Option (List String)
redacts = some default_redacted

serialized_result :
    serialize_log_value runtime limits redacts heap (object 0)
    ≡ inl (
        fields (
          field "password" (str "[REDACTED]") (
            field "list"
              (items (cons (str "[Circular]") (cons (str "[+1 more of 1]") nil)))
              (field "__truncatedKeys" (numeric 1) end))))
unfolding serialize_log_value serialize serialize_cell each each_property put push cap_collection
    should_redact includes
serialized_result = refl

-- A map whose key is redacted.
abbrev map_heap : ℕ → Cell ℕ
map_heap n = map ((string "password", string "hidden") ∷ [])

abbrev map_runtime : Runtime ℕ
map_runtime = record runtime { key_text = λ v. "password" }

serialize_log_value-redaction_example :
    (outcome_hidden map_runtime limits redacts
        (map_heap 0)
        (serialize map_runtime limits redacts map_heap 2 [] (object 0))
      ≡ true)
    × AllOutcome
        (redaction map_runtime limits redacts)
        (serialize_log_value map_runtime limits redacts map_heap (object 0))
serialize_log_value-redaction_example =
    serialize_log_value-redaction map_runtime limits redacts map_heap (object 0) 1 [] 0 refl

serialize_log_value-sizes_example :
    AllOutcome
      (sizes runtime limits redacts)
      (serialize_log_value runtime limits redacts heap (object 0))
serialize_log_value-sizes_example = serialize_log_value-sizes runtime limits redacts heap (object 0)

-- An error whose own getter throws cannot be serialized.
abbrev bad_heap : ℕ → Cell ℕ
bad_heap n = error (record {
  name = "Error";
  message = "failed";
  stack = none;
  cause = none;
  properties = ("detail", throws "no") ∷ [];
})

throwing_error : serialize_log_value runtime limits redacts bad_heap (object 0) ≡ inr "no"
unfolding serialize_log_value serialize serialize_cell serialize_error each_error_property
    should_redact includes
throwing_error = refl

abbrev ambient : Ambient ℕ
ambient = record {
  id = "1";
  current_user = [];
  logger_fields = ("a", 1) ∷ ("b", 1) ∷ [];
  runtime_fields = ("runtime", 9) ∷ [];
  log_context = some (record {
    logged_in_user = [];
    users = [];
    fields = ("b", 2) ∷ ("c", 2) ∷ [];
    trace_id = "t2";
    trace_ids = "t1" ∷ [];
    routine_id = "";
    tags = "x" ∷ [];
  });
  redacted = λ v. v;
  redacted_object = λ o. o;
  serialized_object = λ o. o;
}

abbrev calls : List (Call ℕ)
calls =
    trace_added "t1" false
    ∷ trace_added "t3" true
    ∷ tags_added ("x" ∷ "y" ∷ "x" ∷ [])
    ∷ fields_added (("c", 3) ∷ [])
    ∷ []

abbrev event : LogEvent ℕ
event = build (λ s. s) calls (new_event warn (7 ∷ []))

make_record-build_example :
    let r = make_record ambient "now" event in
    ((str_eq r.trace_id "" || member r.trace_id r.trace_ids) ≡ true)
    × (is_distinct r.trace_ids ≡ true)
    × (is_distinct r.tags ≡ true)
    × ((t : String)
        → member t r.tags ≡ (member t event.tags || member t (context_of ambient.log_context).tags))
make_record-build_example = make_record-build (λ s. s) ambient "now" warn (7 ∷ []) calls

abbrev collectors : Http.Options
collectors = record { endpoint = "https://a"; fallback_endpoint = some "https://b" }

abbrev down : String → Post ℕ
down url = if str_eq url "https://a" then failed 503 else accepted

abbrev tracking : Tracking.Options
tracking = record { min_level = error_level; dedupe = true }

abbrev failure : Record
failure = record { level = error_level; hash = "h" }
