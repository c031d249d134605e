-- ===== src/OpenTelemetry/Records.antt =====
-- The attributes of a record and of a metric in src/otel.ts. The trace state's `serialize` is the
-- environment's. An optional text of a record is `none` where the source has `undefined`.
use Prim.Native.Char.{Char, code}
use Prim.Native.String.{String, ◌++◌ as ◌<>◌}
use text.Mathlib.Text.{◌==◌ as str_eq}
use next_loggers_ts.Prelude.{
  ℕ, ◌==◌, List, [], ◌∷◌, Bool, true, false, not, ◌&&◌, ◌||◌, Option, none, some, or_else, leb,
  if◌then◌else◌,
}
use next_loggers_ts.Cli.Text.{is_digit, member, lookup, insert}
use next_loggers_ts.BaseLogger.Objects.{spread}
use next_loggers_ts.BaseLogger.Event.{Level, trace, debug, info, warn, error, fatal}
use next_loggers_ts.BaseLogger.Serialize.{
  Serialized, nothing, flag, numeric, str, items, fields, Items, nil, cons, size, begins,
}
use next_loggers_ts.OpenTelemetry.{
  whole, Runtime, AttributeLimits, AttributeValue, Attributes, Builder, no_attributes, set,
  bounded_string,
}

pub record LogRecord (N : Type 0) : Type 0 where
  pub schema : String
  pub id : String
  pub level : Level
  pub runtime : String
  pub app_name : String
  pub name : Option String
  pub message : String
  pub values : Items N
  pub fields : List (String × Serialized N)
  pub trace_id : Option String
  pub routine_id : Option String
  pub tags : List String
  pub errors : List (Serialized N)

pub record RecordOptions (N : Type 0) : Type 0 where
  pub attributes : List (String × Serialized N)
  pub metric_attributes : List (String × Serialized N)
  pub metric_attribute_keys : Option (List String)
  pub include_fields : Option Bool
  pub include_values : Bool

-- What reading a foreign object gives.
pub data Answer (E A : Type 0) : Type 0 where
  returned : A → Answer E A
  threw : E → Answer E A

-- `carrier` is an object, with what its `serialize` gives if it has one.
pub data TraceState (E : Type 0) : Type 0 where
  absent : TraceState E
  as_text : String → TraceState E
  carrier : Option (Answer E (Option String)) → TraceState E

pub record SpanContext (E N : Type 0) : Type 0 where
  pub trace_id : String
  pub span_id : String
  pub trace_flags : N
  pub trace_state : TraceState E
  pub is_remote : Option Bool

abbrev is_hex : Char → Bool
is_hex c =
    is_digit c
    || (leb b'a' (code c) && leb (code c) b'f')
    || (leb b'A' (code c) && leb (code c) b'F')

abbrev all_hex : String → Bool
all_hex String.[] = true
all_hex (String.◌∷◌ c s) = is_hex c && all_hex s

abbrev all_zero : String → Bool
all_zero String.[] = true
all_zero (String.◌∷◌ c s) = code c == b'0' && all_zero s

-- `ZERO_TRACE_ID` with 32 and `ZERO_SPAN_ID` with 16 digits.
abbrev pub is_zero_id : ℕ → String → Bool
is_zero_id n s = size s == n && all_zero s

abbrev pub is_valid_trace_id : String → Bool
is_valid_trace_id s = size s == 32 && all_hex s && not (is_zero_id 32 s)

abbrev pub is_valid_span_id : String → Bool
is_valid_span_id s = size s == 16 && all_hex s && not (is_zero_id 16 s)

abbrev pub level_text : Level → String
level_text trace = "TRACE"
level_text debug = "DEBUG"
level_text info = "INFO"
level_text warn = "WARN"
level_text error = "ERROR"
level_text fatal = "FATAL"

abbrev pub protected_record_attributes : List String
protected_record_attributes =
    "log.record.uid" ∷ "service.name" ∷ "next_logger.runtime" ∷ "next_logger.level"
    ∷ "next_logger.schema" ∷ []

abbrev pub forbidden_metric_attributes : List String
forbidden_metric_attributes =
    "trace.id" ∷ "span.id" ∷ "log.record.uid" ∷ "otel.span_id" ∷ "otel.parent_span_id"
    ∷ "otel.trace_state" ∷ []

abbrev pub default_metric_attributes : List String
default_metric_attributes =
    "service.name" ∷ "next_logger.runtime" ∷ "next_logger.level" ∷ "deployment.environment"
    ∷ "environment" ∷ "service.version" ∷ "service.namespace" ∷ "service.instance.id" ∷ []

abbrev pub field_prefix : String
field_prefix = "next_logger.field."

abbrev pub bounded_state : String → String
bounded_state s = bounded_string s (whole 512) false

abbrev pub when_state : Option String → Option String
when_state none = none
when_state (some s) = if str_eq s "" then none else some (bounded_state s)

module _ {E : Type 0} where
  abbrev pub serialized_state : Option (Answer E (Option String)) → Option String
  serialized_state none = none
  serialized_state (some (returned s)) = when_state s
  serialized_state (some (threw e)) = none

  unfoldable pub trace_state_text : TraceState E → Option String
  trace_state_text absent = none
  trace_state_text (as_text s) = when_state (some s)
  trace_state_text (carrier answer) = serialized_state answer

module _ {N : Type 0} (rt : Runtime N) where
  abbrev pub is_valid_trace_flags : N → Bool
  is_valid_trace_flags x =
      rt.is_whole x && rt.at_most (rt.number 0) x && rt.at_most x (rt.number 255)

  unfoldable pub valid_span_context : {E : Type 0} → SpanContext E N → Bool
  valid_span_context c =
      not (rt.is_blank c.trace_id)
      && not (rt.is_blank c.span_id)
      && not (is_zero_id 32 c.trace_id)
      && not (is_zero_id 16 c.span_id)
      && is_valid_trace_flags c.trace_flags

module _ {N : Type 0} (rt : Runtime N) (l : AttributeLimits) where
  abbrev pub set_string : String → String → Builder N → Builder N
  set_string name s b = set rt l name (some (str s)) b

  -- `if (s) builder.set(name, s)`.
  abbrev pub set_truthy : String → Option String → Builder N → Builder N
  set_truthy name none b = b
  set_truthy name (some s) b = if str_eq s "" then b else set_string name s b

  abbrev pub set_trace_id : Option String → Builder N → Builder N
  set_trace_id none b = b
  set_trace_id (some s) b = if is_valid_trace_id s then set_string "trace.id" s b else b

  abbrev tag_items : List String → Items N
  tag_items [] = nil
  tag_items (t ∷ ts) = cons (str t) (tag_items ts)

  abbrev pub set_tags : List String → Builder N → Builder N
  set_tags [] b = b
  set_tags (t ∷ ts) b = set rt l "next_logger.tags" (some (items (tag_items (t ∷ ts)))) b

  unfoldable pub set_unprotected : List (String × Serialized N) → Builder N → Builder N
  set_unprotected [] b = b
  set_unprotected ((k, v) ∷ rest) b =
      set_unprotected rest
        (if member k protected_record_attributes then b else set rt l k (some v) b)

  unfoldable pub set_fields : List (String × Serialized N) → Builder N → Builder N
  set_fields [] b = b
  set_fields ((k, v) ∷ rest) b = set_fields rest (set rt l (field_prefix <> k) (some v) b)

  abbrev pub set_values : Bool → Items N → Builder N → Builder N
  set_values include values b =
      if include then set_string "next_logger.values" (rt.stringify (items values)) b else b

  -- The five attributes that come first, and those that come next.
  unfoldable pub add_identity : LogRecord N → Builder N → Builder N
  add_identity r b = set_string "next_logger.level" (level_text r.level) (
      set_string "next_logger.runtime" r.runtime (
        set_string "next_logger.schema" r.schema
          (set_string "service.name" r.app_name (set_string "log.record.uid" r.id b))))

  unfoldable pub add_optional : LogRecord N → Builder N → Builder N
  add_optional r b = set_tags r.tags (
      set_truthy "next_logger.routine_id" r.routine_id
        (set_trace_id r.trace_id (set_truthy "logger.name" r.name b)))

  unfoldable pub add_record_attributes : RecordOptions N → LogRecord N → Builder N → Builder N
  add_record_attributes o r b =
      let given = set_unprotected o.attributes (add_optional r (add_identity r b)) in
      let with_fields =
        if or_else o.include_fields true then set_fields r.fields given else given in
      set_values o.include_values r.values with_fields

  abbrev pub set_remote : Option Bool → Builder N → Builder N
  set_remote none b = b
  set_remote (some remote) b = set rt l "otel.remote" (some (flag remote)) b

  unfoldable pub add_span_context : {E : Type 0} → SpanContext E N → Builder N → Builder N
  add_span_context c b = set_remote c.is_remote (
      set_truthy "otel.trace_state" (trace_state_text c.trace_state) (
        set rt l "otel.trace_flags" (some (numeric c.trace_flags))
          (set_string "span.id" c.span_id (set_string "trace.id" c.trace_id b))))

  -- `isValidTraceFlags` and the `typeof` tests of the record's fields.
  abbrev pub flags_of : Option (Serialized N) → Option (Serialized N)
  flags_of none = none
  flags_of (some nothing) = none
  flags_of (some (flag x)) = none
  flags_of (some (numeric x)) = if is_valid_trace_flags rt x then some (numeric x) else none
  flags_of (some (str s)) = none
  flags_of (some (items xs)) = none
  flags_of (some (fields fs)) = none

  abbrev pub string_of : Option (Serialized N) → Option String
  string_of none = none
  string_of (some nothing) = none
  string_of (some (flag x)) = none
  string_of (some (numeric x)) = none
  string_of (some (str s)) = some s
  string_of (some (items xs)) = none
  string_of (some (fields fs)) = none

  abbrev pub boolean_of : Option (Serialized N) → Option (Serialized N)
  boolean_of none = none
  boolean_of (some nothing) = none
  boolean_of (some (flag x)) = some (flag x)
  boolean_of (some (numeric x)) = none
  boolean_of (some (str s)) = none
  boolean_of (some (items xs)) = none
  boolean_of (some (fields fs)) = none

  abbrev pub bounded_field : Option String → Option (Serialized N)
  bounded_field none = none
  bounded_field (some s) = some (str (bounded_state s))

  abbrev pub set_ids : List (String × Serialized N) → String → String → Builder N → Builder N
  set_ids fs tid sid b = set rt l "otel.remote" (boolean_of (lookup "otel.remote" fs)) (
      set rt l "otel.trace_state" (bounded_field (string_of (lookup "otel.trace_state" fs))) (
        set rt l "otel.trace_flags" (flags_of (lookup "otel.trace_flags" fs))
          (set_string "span.id" sid (set_string "trace.id" tid b))))

  abbrev pub set_valid_ids :
      List (String × Serialized N) → Option String → Option String → Builder N → Builder N
  set_valid_ids fs none sid b = b
  set_valid_ids fs (some tid) none b = b
  set_valid_ids fs (some tid) (some sid) b =
      if is_valid_trace_id tid && is_valid_span_id sid then set_ids fs tid sid b else b

  unfoldable pub add_correlation_attributes :
      {E : Type 0} → LogRecord N → Option (SpanContext E N) → Builder N → Builder N
  add_correlation_attributes r (some c) b = add_span_context c b
  add_correlation_attributes r none b =
      set_valid_ids r.fields r.trace_id (string_of (lookup "otel.span_id" r.fields)) b

  -- `logRecordToOtelAttributes`, and the attributes that `write` emits.
  unfoldable pub log_record_to_otel_attributes : RecordOptions N → LogRecord N → Attributes N
  log_record_to_otel_attributes o r = (add_record_attributes o r no_attributes).values

  unfoldable pub emitted_attributes :
      {E : Type 0} → RecordOptions N → LogRecord N → Option (SpanContext E N) → Attributes N
  emitted_attributes o r context =
      (add_correlation_attributes r context (add_record_attributes o r no_attributes)).values

-- `metricAttributes`: the limits, the source's entries that may label a metric, and the choice.
abbrev pub metric_limits : AttributeLimits
metric_limits = record {
  max_attributes = some (whole 16);
  max_attribute_value_length = some (whole 256);
  max_array_length = some (whole 16);
  max_attribute_length = none;
  max_attribute_array_length = none;
}

abbrev pub is_unlabelled : String → Bool
is_unlabelled key = member key forbidden_metric_attributes || begins key field_prefix

module _ {N : Type 0} where
  unfoldable pub set_labels : Runtime N → List (String × Serialized N) → Builder N → Builder N
  set_labels rt [] b = b
  set_labels rt ((k, v) ∷ rest) b =
      set_labels rt rest (if is_unlabelled k then b else set rt metric_limits k (some v) b)

  abbrev pub copy : String → Option (AttributeValue N) → Attributes N → Attributes N
  copy key none selected = selected
  copy key (some value) selected = insert key value selected

  unfoldable pub select_labels : List String → Attributes N → Attributes N → Attributes N
  select_labels [] labels selected = selected
  select_labels (k ∷ ks) labels selected =
      select_labels ks labels (copy k (lookup k labels) selected)

  unfoldable pub all_labels : Runtime N → RecordOptions N → LogRecord N → Builder N
  all_labels rt o r = set_labels rt (spread (spread [] o.attributes) o.metric_attributes) (
      set_string rt metric_limits "next_logger.level" (level_text r.level) (
        set_string rt metric_limits "next_logger.runtime" r.runtime
          (set_string rt metric_limits "service.name" r.app_name no_attributes)))

  unfoldable pub metric_attributes : Runtime N → RecordOptions N → LogRecord N → Attributes N
  metric_attributes rt o r =
      select_labels (or_else o.metric_attribute_keys default_metric_attributes)
        (all_labels rt o r).values []
