-- ===== src/OpenTelemetry/Tests.antt =====
-- Records of src/otel.ts with their attributes and labels, writes, and spans.
use Prim.Native.String.{String}
use next_loggers_ts.Prelude.{
  ℕ, ◌≡◌, ◌≤◌, refl, [], ◌∷◌, true, false, Option, none, some, leb, length,
}
use next_loggers_ts.Cli.Text.{lookup}
use next_loggers_ts.BaseLogger.Event.{error}
use next_loggers_ts.BaseLogger.Serialize.{str, numeric, nil}
use next_loggers_ts.OpenTelemetry.{whole, Runtime, AttributeLimits, no_attributes}
use next_loggers_ts.OpenTelemetry.Records.{
  LogRecord, RecordOptions, SpanContext, absent, Answer, returned, threw, emitted_attributes,
  metric_attributes, as_text, valid_span_context, trace_state_text, add_correlation_attributes,
}
use next_loggers_ts.OpenTelemetry.Bounds.{all_fit, emitted_attributes-all_fit}
use next_loggers_ts.OpenTelemetry.Labels.{metric_attributes-HasNoForbidden}
use next_loggers_ts.OpenTelemetry.Transport.{Span, Options, write, write_context, valid_context}
use next_loggers_ts.OpenTelemetry.Provider.{
  provided, in_context, provide_context, provide, provide-correlation,
}
use next_loggers_ts.OpenTelemetry.Calls.{concat_map, emissions, metrics}
use next_loggers_ts.OpenTelemetry.Calls.Writes.{write-emits_once}
use next_loggers_ts.OpenTelemetry.Spans.{SpanOptions, Tracer, off, runs}

abbrev rt : Runtime ℕ
rt = record {
  is_finite = λ n. true;
  is_whole = λ n. true;
  at_most = leb;
  number = λ n. n;
  stringify = λ v. "[object]";
  to_text = λ v. "text";
  is_zero = λ n. leb n 0;
  is_blank = λ s. false;
}

-- Eight attributes, texts of at most ten characters.
abbrev limits : AttributeLimits
limits = record {
  max_attributes = some (whole 8);
  max_attribute_value_length = some (whole 10);
  max_array_length = some (whole 2);
  max_attribute_length = none;
  max_attribute_array_length = none;
}

abbrev logged_record : LogRecord ℕ
logged_record = record {
  schema = "next-loggers/v1";
  id = "r-1";
  level = error;
  runtime = "node";
  app_name = "payments";
  name = none;
  message = "refused";
  values = nil;
  fields = ("amount", numeric 3) ∷ ("card", str "a long description") ∷ [];
  trace_id = none;
  routine_id = none;
  tags = "a" ∷ "b" ∷ "c" ∷ [];
  errors = [];
}

-- Attributes that try to stand for the record's own, and one that is no label.
abbrev options : RecordOptions ℕ
options = record {
  attributes = ("service.name", str "other") ∷ ("environment", str "test") ∷ [];
  metric_attributes = ("trace.id", str "1") ∷ [];
  metric_attribute_keys = some ("trace.id" ∷ "environment" ∷ []);
  include_fields = none;
  include_values = true;
}

abbrev context : SpanContext String ℕ
context = record {
  trace_id = "t";
  span_id = "s";
  trace_flags = 1;
  trace_state = absent;
  is_remote = none;
}

emitted_attributes-all_fit_example :
    (all_fit limits (emitted_attributes rt limits options logged_record (some context)) ≡ true)
    × (length (emitted_attributes rt limits options logged_record (some context)) ≤ 8)
emitted_attributes-all_fit_example =
    emitted_attributes-all_fit rt limits refl options logged_record (some context)

metric_attributes-HasNoForbidden_example :
    lookup "trace.id" (metric_attributes rt options logged_record) ≡ none
metric_attributes-HasNoForbidden_example =
    metric_attributes-HasNoForbidden rt options logged_record "trace.id" refl

abbrev span : Span String ℕ
span = record {
  span_context = returned context;
  is_recording = none;
  add_event = some "no event";
  record_exception = none;
  set_status = some (some "no status");
  ended = some none;
}

-- The exporter fails, and so does the span's event.
abbrev transport : Options String ℕ ℕ
transport = record {
  limits = limits;
  record_options = options;
  emit_failure = some "offline";
  active_span = some (returned (some span));
  active_context = some (threw "no context");
  record_metric = some (λ name. none);
  emit_span_events = none;
  record_exceptions = none;
  has_on_error = true;
  has_on_bridge_error = false;
  fail_open = none;
}

write-emits_once_example :
    (concat_map emissions (write rt transport logged_record).calls
      ≡ emitted_attributes rt limits options logged_record (write_context rt transport) ∷ [])
    × ((write rt transport logged_record).thrown ≡ none)
    × (concat_map metrics (write rt transport logged_record).calls
        ≡ "next_loggers.records" ∷ "next_loggers.errors" ∷ [])
write-emits_once_example = write-emits_once transport rt logged_record

abbrev span_options : SpanOptions
span_options = record {
  lifecycle_level = off;
  ok_status_code = none;
  error_status_code = none;
  fail_on_start_error = false;
}

abbrev tracer : Tracer String ℕ
tracer = runs

abbrev callback : Option (Span String ℕ) → Answer String ℕ
callback given = threw "failed"

-- Canonical ids, a trace state and a mark.
abbrev canonical : SpanContext String ℕ
canonical = record {
  trace_id = "0af7651916cd43dd8448eb211c80319c";
  span_id = "b7ad6b7169203331";
  trace_flags = 1;
  trace_state = as_text "vendor=1";
  is_remote = some true;
}

abbrev canonical_span : Span String ℕ
canonical_span = record span { span_context = returned canonical }

provide-correlation_example :
    add_correlation_attributes rt limits {E = String}
      (in_context (provided canonical) (("amount", numeric 3) ∷ []) logged_record)
      none
      no_attributes
    ≡ add_correlation_attributes rt limits
        (in_context (provided canonical) (("amount", numeric 3) ∷ []) logged_record)
        (some canonical)
        no_attributes
unfolding provide provide_context valid_context valid_span_context trace_state_text
provide-correlation_example =
    provide-correlation rt limits true canonical_span (provided canonical) canonical
      (("amount", numeric 3) ∷ []) logged_record no_attributes refl refl refl refl refl
      (record { span_id = refl; trace_flags = refl; trace_state = refl; remote = refl })
