-- ===== src/OpenTelemetry/Transport.antt =====
-- `OpenTelemetryTransport.write` of src/otel.ts: the calls that it makes into the application's
-- telemetry and the error that it throws. What the foreign calls give or throw is in `Options` and
-- `Span`; a method or an option that is missing is `none`. Timestamps are left out.
use Prim.Native.String.{String}
use text.Mathlib.Text.{◌==◌ as str_eq}
use next_loggers_ts.Prelude.{
  ℕ, List, [], ◌∷◌, ◌++◌, Bool, true, false, not, ◌&&◌, ◌||◌, Option, none, some, or_else, is_some,
  if◌then◌else◌,
}
use next_loggers_ts.Cli.Text.{lookup}
use next_loggers_ts.BaseLogger.Event.{Level, trace, debug, info, warn, error, fatal}
use next_loggers_ts.BaseLogger.Serialize.{
  Serialized, nothing, flag, numeric, str, items, fields, Fields, end, field,
}
use next_loggers_ts.OpenTelemetry.{whole, Runtime, AttributeLimits, Attributes, bounded_string}
use next_loggers_ts.OpenTelemetry.Records.{
  LogRecord, RecordOptions, Answer, returned, threw, TraceState, absent, as_text, carrier,
  SpanContext, valid_span_context, emitted_attributes, metric_attributes,
}

pub record Span (E N : Type 0) : Type 0 where
  pub span_context : Answer E (SpanContext E N)
  pub is_recording : Option (Answer E Bool)
  pub add_event : Option E
  pub record_exception : Option (Option E)
  pub set_status : Option (Option E)
  pub ended : Option (Option E)

pub record Options (E N C : Type 0) : Type 0 where
  pub limits : AttributeLimits
  pub record_options : RecordOptions N
  -- What `logger.emit` throws, and what the callbacks give.
  pub emit_failure : Option E
  pub active_span : Option (Answer E (Option (Span E N)))
  pub active_context : Option (Answer E (Option C))
  pub record_metric : Option (String → Option E)
  pub emit_span_events : Option Bool
  pub record_exceptions : Option Bool
  pub has_on_error : Bool
  pub has_on_bridge_error : Bool
  pub fail_open : Option Bool

-- `errorFromRecord`: an `Error` with its name and stack, or an object with a message.
pub data Exception : Type 0 where
  error_object : String → Option String → Option String → Exception
  message_object : String → Exception

pub data Call (E N C : Type 0) : Type 0 where
  emitted : Level → String → Attributes N → Option C → Call E N C
  reported bridge_reported : E → String → Call E N C
  event_added : String → Attributes N → Call E N C
  exception_recorded : Exception → Call E N C
  status_set : ℕ → String → Call E N C
  metric_recorded : String → Attributes N → Call E N C

pub record Written (E N C : Type 0) : Type 0 where
  pub calls : List (Call E N C)
  pub thrown : Option E

abbrev pub is_error_level : Level → Bool
is_error_level trace = false
is_error_level debug = false
is_error_level info = false
is_error_level warn = false
is_error_level error = true
is_error_level fatal = true

abbrev event_name : Level → String
event_name trace = "log.trace"
event_name debug = "log.debug"
event_name info = "log.info"
event_name warn = "log.warn"
event_name error = "log.error"
event_name fatal = "log.fatal"

abbrev pub legacy_operations : List (String × String)
legacy_operations =
    ("read active span", "active-span")
    ∷ ("read span context", "span-context")
    ∷ ("read active context", "active-context")
    ∷ ("emit log", "emit-log")
    ∷ ("add span event", "span-event")
    ∷ ("record exception", "record-exception")
    ∷ ("set span status", "span-status")
    ∷ ("record log metric", "metric")
    ∷ ("record error metric", "metric")
    ∷ []

module _ {N : Type 0} where
  abbrev property : String → Fields N → Option (Serialized N)
  property key end = none
  property key (field k v fs) = if str_eq k key then some v else property key fs

  abbrev text_property : Option (Serialized N) → Option String
  text_property none = none
  text_property (some nothing) = none
  text_property (some (flag b)) = none
  text_property (some (numeric x)) = none
  text_property (some (str s)) = some s
  text_property (some (items xs)) = none
  text_property (some (fields fs)) = none

  abbrev exception_of : Runtime N → String → Serialized N → Option Exception
  exception_of rt message nothing = none
  exception_of rt message (flag b) = if b then some (message_object (rt.to_text (flag b))) else none
  exception_of rt message (numeric x) =
      if rt.is_zero x then none else some (message_object (rt.to_text (numeric x)))
  exception_of rt message (str s) = if str_eq s "" then none else some (message_object s)
  exception_of rt message (items xs) = some (message_object (rt.to_text (items xs)))
  exception_of rt message (fields fs) = some (
      error_object (or_else (text_property (property "message" fs)) message)
        (text_property (property "name" fs)) (text_property (property "stack" fs)))

  unfoldable pub error_from_record : Runtime N → String → List (Serialized N) → Option Exception
  error_from_record rt message [] = none
  error_from_record rt message (first ∷ others) = exception_of rt message first

module _ {E : Type 0} where
  abbrev pub failure_of : {A : Type 0} → Option (Answer E A) → Option E
  failure_of none = none
  failure_of (some (returned a)) = none
  failure_of (some (threw e)) = some e

  abbrev pub answer_value : {A : Type 0} → Option (Answer E (Option A)) → Option A
  answer_value none = none
  answer_value (some (returned a)) = a
  answer_value (some (threw e)) = none

  -- What `serialize` throws in `traceStateText`.
  abbrev state_failure : TraceState E → Option E
  state_failure absent = none
  state_failure (as_text s) = none
  state_failure (carrier answer) = failure_of answer

  -- `safeIsRecording`.
  abbrev pub answers_recording : Option (Answer E Bool) → Bool
  answers_recording none = true
  answers_recording (some (returned recording)) = recording
  answers_recording (some (threw e)) = false

module _ {E N : Type 0} where
  abbrev pub context_answer : Option (Span E N) → Option (Answer E (SpanContext E N))
  context_answer none = none
  context_answer (some span) = some span.span_context

  unfoldable pub valid_context :
      Runtime N → Option (Answer E (SpanContext E N)) → Option (SpanContext E N)
  valid_context rt none = none
  valid_context rt (some (returned c)) = if valid_span_context rt c then some c else none
  valid_context rt (some (threw e)) = none

  abbrev pub trace_state_failure : Option (SpanContext E N) → Option E
  trace_state_failure none = none
  trace_state_failure (some c) = state_failure c.trace_state

module _ {E N C : Type 0} where
  -- `reportDiagnostic(options.onBridgeError, error, operation)`.
  abbrev pub report_bridge : Options E N C → Option E → String → List (Call E N C)
  report_bridge o none operation = []
  report_bridge o (some e) operation =
      if o.has_on_bridge_error then bridge_reported e operation ∷ [] else []

  unfoldable pub report_transport_error : Options E N C → Option E → String → List (Call E N C)
  report_transport_error o none operation = []
  report_transport_error o (some e) operation =
      (if o.has_on_error then reported e operation ∷ [] else [])
      ++ report_bridge o (some e) (or_else (lookup operation legacy_operations) operation)

  -- A call in a `try` block of its own.
  abbrev pub isolated : Options E N C → Call E N C → Option E → String → List (Call E N C)
  isolated o call failure operation = call ∷ report_transport_error o failure operation

  abbrev pub optional_call :
      Options E N C → Call E N C → Option (Option E) → String → List (Call E N C)
  optional_call o call none operation = []
  optional_call o call (some failure) operation = isolated o call failure operation

  abbrev pub active_span : Options E N C → Option (Span E N)
  active_span o = answer_value o.active_span

  unfoldable pub write_context : Runtime N → Options E N C → Option (SpanContext E N)
  write_context rt o = valid_context rt (context_answer (active_span o))

  -- The reports of the calls before the emission.
  unfoldable pub read_reports : Runtime N → Options E N C → List (Call E N C)
  read_reports rt o =
      report_transport_error o (failure_of o.active_span) "read active span"
      ++ report_transport_error o (failure_of (context_answer (active_span o))) "read span context"
      ++ report_bridge o (trace_state_failure (write_context rt o)) "trace-state"
      ++ report_transport_error o (failure_of o.active_context) "read active context"

  abbrev pub exception_calls : Options E N C → Span E N → Option Exception → List (Call E N C)
  exception_calls o span none = []
  exception_calls o span (some e) =
      if or_else o.record_exceptions true
      then optional_call o (exception_recorded e) span.record_exception "record exception"
      else []

  unfoldable pub error_calls :
      Runtime N → Options E N C → LogRecord N → Span E N → List (Call E N C)
  error_calls rt o r span =
      exception_calls o span (error_from_record rt r.message r.errors)
      ++ optional_call o (status_set 2 (bounded_string r.message (whole 1024) false))
          span.set_status "set span status"

  unfoldable pub event_calls :
      Runtime N → Options E N C → LogRecord N → Attributes N → Span E N → List (Call E N C)
  event_calls rt o r attributes span =
      isolated o (event_added (event_name r.level) attributes) span.add_event "add span event"
      ++ (if is_error_level r.level then error_calls rt o r span else [])

  unfoldable pub span_calls :
      Runtime N → Options E N C → LogRecord N → Attributes N → Option (Span E N) → List (Call E N C)
  span_calls rt o r attributes none = []
  span_calls rt o r attributes (some span) =
      if or_else o.emit_span_events true
      then report_bridge o (failure_of span.is_recording) "is-recording"
        ++ (if answers_recording span.is_recording then event_calls rt o r attributes span else [])
      else []

  unfoldable pub metric_calls :
      Options E N C → Bool → Attributes N → Option (String → Option E) → List (Call E N C)
  metric_calls o is_error labels none = []
  metric_calls o is_error labels (some record_metric) =
      let records = record_metric "next_loggers.records" in
      let errors = record_metric "next_loggers.errors" in
      let error_metric = metric_recorded "next_loggers.errors" labels in
      isolated o (metric_recorded "next_loggers.records" labels) records "record log metric"
      ++ (if o.has_on_error
          then (if is_error then isolated o error_metric errors "record error metric" else [])
          else (if is_error && not (is_some records)
              then isolated o error_metric errors "record log metric"
              else []))

  abbrev pub is_fail_open : Options E N C → Bool
  is_fail_open o = or_else o.fail_open (o.has_on_error || o.has_on_bridge_error)

  abbrev pub after_emit : Options E N C → Option E → List (Call E N C) → Written E N C
  after_emit o none rest = record { calls = rest; thrown = none }
  after_emit o (some e) rest =
      if is_fail_open o
      then record { calls = rest; thrown = none }
      else record { calls = []; thrown = some e }

  unfoldable pub write : Runtime N → Options E N C → LogRecord N → Written E N C
  write rt o r =
      let attributes = emitted_attributes rt o.limits o.record_options r (write_context rt o) in
      let emission = emitted r.level r.message attributes (answer_value o.active_context) in
      let labels = metric_attributes rt o.record_options r in
      let rest =
        span_calls rt o r attributes (active_span o)
        ++ metric_calls o (is_error_level r.level) labels o.record_metric in
      let after = after_emit o o.emit_failure rest in
      record {
        calls = read_reports rt o ++ isolated o emission o.emit_failure "emit log" ++ after.calls;
        thrown = after.thrown;
      }
