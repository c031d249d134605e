-- ===== src/BaseLogger/Event.antt =====
-- `LogEvent` of src/base-logger.ts: what an event collects, and the record made of it once. A user
-- or a set of fields is an object over some type of values; a logger's answers are `Ambient`.
pub mod Records
pub mod Once
use Prim.Native.String.{String}
use text.Mathlib.Text.{◌==◌ as str_eq}
use next_loggers_ts.Prelude.{
  ℕ, ◌+◌, List, [], ◌∷◌, ◌++◌, Bool, true, false, not, ◌&&◌, ◌||◌, Option, none, some, or_else, map,
  if◌then◌else◌,
}
use next_loggers_ts.BaseLogger.Objects.{spread, add, add_all}

pub data Level : Type 0 where
  trace debug info warn error fatal : Level

abbrev pub Fields : Type 0 → Type 0
Fields V = List (String × V)

pub record LogContext (V : Type 0) : Type 0 where
  pub logged_in_user : Fields V
  pub users : List (Fields V)
  pub fields : Fields V
  pub trace_id : String
  pub trace_ids : List String
  pub routine_id : String
  pub tags : List String

-- The parts of a record that an event and its surroundings decide.
pub record LogRecord (V : Type 0) : Type 0 where
  pub id : String
  pub timestamp : String
  pub level : Level
  pub values : List V
  pub fields : Fields V
  pub logged_in_user : Fields V
  pub users : List (Fields V)
  pub trace_id : String
  pub trace_ids : List String
  pub routine_id : String
  pub tags : List String
  pub context : List V
  pub meta : List V

pub record LogEvent (V : Type 0) : Type 0 where
  pub level : Level
  pub values : List V
  pub fields : Fields V
  pub logged_in_user : Fields V
  pub users : List (Fields V)
  pub trace_id : String
  pub trace_ids : List String
  pub routine_id : String
  pub tags : List String
  pub context : List V
  pub meta : List V
  pub otel_preference : Option Bool
  pub made : Option (LogRecord V)

-- What the logger gives when the record is made.
pub record Ambient (V : Type 0) : Type 0 where
  pub id : String
  pub current_user : Fields V
  pub logger_fields : Fields V
  pub runtime_fields : Fields V
  pub log_context : Option (LogContext V)
  -- The serializations (BaseLogger/Serialize) of a value and of an object with redaction, and of
  -- an identity block without.
  pub redacted : V → V
  pub redacted_object : Fields V → Fields V
  pub serialized_object : Fields V → Fields V

abbrev pub first_text : String → String → String
first_text a b = if str_eq a "" then b else a

abbrev pub nonempty : String → List String
nonempty s = if str_eq s "" then [] else s ∷ []

module _ {V : Type 0} where
  abbrev pub new_event : Level → List V → LogEvent V
  new_event level values = record {
    level = level;
    values = values;
    fields = [];
    logged_in_user = [];
    users = [];
    trace_id = "";
    trace_ids = [];
    routine_id = "";
    tags = [];
    context = [];
    meta = [];
    otel_preference = none;
    made = none;
  }

  unfoldable pub add_fields : Fields V → LogEvent V → LogEvent V
  add_fields fs e = record e { fields = spread e.fields fs }

  unfoldable pub add_logged_in_user_info : Fields V → LogEvent V → LogEvent V
  add_logged_in_user_info user e = record e { logged_in_user = spread e.logged_in_user user }

  unfoldable pub add_user_info : Fields V → LogEvent V → LogEvent V
  add_user_info user e = record e { users = e.users ++ user ∷ [] }

  unfoldable pub add_context : V → LogEvent V → LogEvent V
  add_context v e = record e { context = e.context ++ v ∷ [] }

  unfoldable pub add_meta : V → LogEvent V → LogEvent V
  add_meta v e = record e { meta = e.meta ++ v ∷ [] }

  unfoldable pub add_routine_id : String → LogEvent V → LogEvent V
  add_routine_id id e = record e { routine_id = id }

  unfoldable pub with_otel : Bool → LogEvent V → LogEvent V
  with_otel enabled e = record e { otel_preference = some enabled }

  unfoldable pub reset_otel : LogEvent V → LogEvent V
  reset_otel e = record e { otel_preference = none }

  abbrev pub is_otel_enabled : Bool → LogEvent V → Bool
  is_otel_enabled fallback e = or_else e.otel_preference fallback

  unfoldable pub add_trace : (String → String) → String → Bool → LogEvent V → LogEvent V
  add_trace trim id make_first e =
      let value = trim id in
      if str_eq value "" then e else record e {
        trace_id = if str_eq e.trace_id "" || make_first then value else e.trace_id;
        trace_ids = add value e.trace_ids;
      }

  unfoldable pub add_tags : (String → String) → List String → LogEvent V → LogEvent V
  add_tags trim [] e = e
  add_tags trim (t ∷ ts) e =
      let value = trim t in
      add_tags trim ts (if str_eq value "" then e else record e { tags = add value e.tags })

  abbrev pub context_of : Option (LogContext V) → LogContext V
  context_of (some c) = c
  context_of none = record {
    logged_in_user = [];
    users = [];
    fields = [];
    trace_id = "";
    trace_ids = [];
    routine_id = "";
    tags = [];
  }

  -- The later of these stands over the earlier: logger, context, event, runtime.
  abbrev pub merged_fields : Ambient V → LogEvent V → Fields V
  merged_fields a e =
      let c = context_of a.log_context in
      spread (spread (spread (spread [] a.logger_fields) c.fields) e.fields) a.runtime_fields

  unfoldable pub make_record : Ambient V → String → LogEvent V → LogRecord V
  make_record a now e =
      let c = context_of a.log_context in
      record {
        id = a.id;
        timestamp = now;
        level = e.level;
        values = map a.redacted e.values;
        fields = a.redacted_object (merged_fields a e);
        logged_in_user =
            a.serialized_object
              (spread (spread (spread [] a.current_user) c.logged_in_user) e.logged_in_user);
        users = map a.serialized_object (c.users ++ e.users);
        trace_id = first_text e.trace_id c.trace_id;
        trace_ids = add_all c.trace_ids (add_all (nonempty c.trace_id) (add_all e.trace_ids []));
        routine_id = first_text e.routine_id c.routine_id;
        tags = add_all c.tags (add_all e.tags []);
        context = map a.redacted e.context;
        meta = map a.redacted e.meta;
      }

  -- `toJSON` makes the record on its first call and keeps it.
  abbrev remember : LogEvent V → LogRecord V → LogEvent V × LogRecord V
  remember e r = (record e { made = some r }, r)

  unfoldable pub to_json : Ambient V → String → LogEvent V → LogEvent V × LogRecord V
  to_json a now e = elim (e.made) [ some r ↦ (e, r) | none ↦ remember e (make_record a now e) ]
