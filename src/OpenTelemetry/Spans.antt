-- ===== src/OpenTelemetry/Spans.antt =====
-- `withOpenTelemetrySpan` of src/otel.ts: what it does around the application's callback, in order,
-- and how its promise ends. Fields, tags and durations of the records are left out; what a logger
-- does with a record is its own, since `logSafely` drops every error of it.
pub mod Once
use Prim.Native.String.{String}
use next_loggers_ts.Prelude.{
  ℕ, suc, ◌+◌, ◌≡◌, refl, List, [], ◌∷◌, ◌++◌, Bool, true, false, ◌&&◌, Option, none, some, or_else,
  is_some, if◌then◌else◌, arith, if_cases,
}
use next_loggers_ts.Cli.Text.{lookup}
use next_loggers_ts.BaseLogger.Event.{Level, trace, debug, info, warn, error, fatal}
use next_loggers_ts.OpenTelemetry.Records.{Answer, returned, threw}
use next_loggers_ts.OpenTelemetry.Transport.{Span}

-- `lifecycleLevel`: left out, `false`, or a text.
pub data LifecycleLevel : Type 0 where
  unset off : LifecycleLevel
  named : String → LifecycleLevel

pub record SpanOptions : Type 0 where
  pub lifecycle_level : LifecycleLevel
  pub ok_status_code : Option ℕ
  pub error_status_code : Option ℕ
  pub fail_on_start_error : Bool

-- What `startActiveSpan` does: it throws, it gives what its callback gives, it calls its callback
-- and fails after it, or it gives a value without a call.
pub data Tracer (E T : Type 0) : Type 0 where
  refuses : E → Tracer E T
  runs : Tracer E T
  fails_after : E → Tracer E T
  skips : T → Tracer E T

pub data Operation : Type 0 where
  set_success_status set_error_status : ℕ → Operation
  record_exception end_span : Operation

pub data Log : Type 0 where
  span_started span_completed span_failed start_failed : Log
  operation_failed : Operation → Log

pub data Step : Type 0 where
  logged : Level → Log → Step
  invoked : Operation → Step
  called_back : Step

abbrev level_names : List (String × Level)
level_names =
    ("TRACE", trace)
    ∷ ("DEBUG", debug)
    ∷ ("INFO", info)
    ∷ ("WARN", warn)
    ∷ ("ERROR", error)
    ∷ ("FATAL", fatal)
    ∷ []

unfoldable pub normalize_lifecycle_level : (String → String) → LifecycleLevel → Option Level
normalize_lifecycle_level to_upper unset = some debug
normalize_lifecycle_level to_upper off = none
normalize_lifecycle_level to_upper (named s) =
    some (or_else (lookup (to_upper s) level_names) debug)

abbrev lifecycle_log : Option Level → Log → List Step
lifecycle_log none log = []
lifecycle_log (some level) log = logged level log ∷ []

-- `invokeSpanSafely` on an optional method.
abbrev pub invoke_span_safely : {E : Type 0} → Operation → Option (Option E) → List Step
invoke_span_safely operation none = []
invoke_span_safely operation (some none) = invoked operation ∷ []
invoke_span_safely operation (some (some e)) =
    invoked operation ∷ logged warn (operation_failed operation) ∷ []

module _ {E N T : Type 0} (to_upper : String → String) (o : SpanOptions) where
  -- From the callback's outcome on, up to `finally`.
  unfoldable pub after_callback : Span E N → Answer E T → List Step
  after_callback span (returned t) =
      invoke_span_safely (set_success_status (or_else o.ok_status_code 1)) span.set_status
      ++ lifecycle_log (normalize_lifecycle_level to_upper o.lifecycle_level) span_completed
  after_callback span (threw e) =
      invoke_span_safely record_exception span.record_exception
      ++ invoke_span_safely (set_error_status (or_else o.error_status_code 2)) span.set_status
      ++ logged error span_failed ∷ []

  unfoldable pub in_span : Span E N → Answer E T → List Step
  in_span span outcome =
      lifecycle_log (normalize_lifecycle_level to_upper o.lifecycle_level) span_started
      ++ called_back ∷ []
      ++ after_callback span outcome
      ++ invoke_span_safely end_span span.ended

  -- The callback is given a span, or the one without effect of a span that did not start.
  unfoldable pub with_open_telemetry_span :
      Tracer E T → Span E N → (Option (Span E N) → Answer E T) → List Step × Answer E T
  with_open_telemetry_span (refuses e) span callback =
      if o.fail_on_start_error
      then (logged error start_failed ∷ [], threw e)
      else (logged error start_failed ∷ called_back ∷ [], callback none)
  with_open_telemetry_span runs span callback =
      (in_span span (callback (some span)), callback (some span))
  with_open_telemetry_span (fails_after e) span callback =
      (in_span span (callback (some span)), threw e)
  with_open_telemetry_span (skips t) span callback = ([], returned t)
