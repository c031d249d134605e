-- ===== src/OpenTelemetry/Spans/Once.antt =====
-- How often `withOpenTelemetrySpan` of src/otel.ts calls the application back and ends a span.
use Prim.Native.String.{String}
use next_loggers_ts.Prelude.{
  ℕ, suc, ◌≡◌, List, [], ◌∷◌, Bool, true, false, ◌&&◌, Option, none, some, is_some, if◌then◌else◌,
}
use next_loggers_ts.BaseLogger.Event.{Level}
use next_loggers_ts.OpenTelemetry.Records.{Answer, returned, threw}
use next_loggers_ts.OpenTelemetry.Transport.{Span}
use next_loggers_ts.OpenTelemetry.Spans.{
  SpanOptions, Tracer, refuses, runs, fails_after, skips, Operation, set_success_status,
  set_error_status, record_exception, end_span, Log, Step, logged, invoked, called_back,
}

abbrev pub count : (Step → Bool) → List Step → ℕ
count p [] = 0
count p (x ∷ xs) = if p x then suc (count p xs) else count p xs

abbrev pub is_called_back : Step → Bool
is_called_back (logged level log) = false
is_called_back (invoked operation) = false
is_called_back called_back = true

abbrev ends : Operation → Bool
ends (set_success_status code) = false
ends (set_error_status code) = false
ends record_exception = false
ends end_span = true

abbrev pub is_ended : Step → Bool
is_ended (logged level log) = false
is_ended (invoked operation) = ends operation
is_ended called_back = false

-- How often the callback runs, and whether it runs in a span of the tracer.
abbrev pub callback_runs : {E T : Type 0} → SpanOptions → Tracer E T → ℕ
callback_runs o (refuses e) = if o.fail_on_start_error then 0 else 1
callback_runs o runs = 1
callback_runs o (fails_after e) = 1
callback_runs o (skips t) = 0

abbrev pub is_entered : {E T : Type 0} → Tracer E T → Bool
is_entered (refuses e) = false
is_entered runs = true
is_entered (fails_after e) = true
is_entered (skips t) = false

-- A kind of steps that are no records, none that a span's outcome brings.
record IsOutside (p : Step → Bool) : Type 0 where
  on_log : (level : Level) (log : Log) → p (logged level log) ≡ false
  on_success : (code : ℕ) → p (invoked (set_success_status code)) ≡ false
  on_error : (code : ℕ) → p (invoked (set_error_status code)) ≡ false
  on_exception : p (invoked record_exception) ≡ false

module _ {E N T : Type 0} (to_upper : String → String) (o : SpanOptions) where
  -- The outcome that the caller gets: the callback's wherever the tracer lets it through.
  abbrev pub outcome_of : Tracer E T → Span E N → (Option (Span E N) → Answer E T) → Answer E T
  outcome_of (refuses e) span callback = if o.fail_on_start_error then threw e else callback none
  outcome_of runs span callback = callback (some span)
  outcome_of (fails_after e) span callback = threw e
  outcome_of (skips t) span callback = returned t

  abbrev Once :
      Tracer E T → Span E N → (Option (Span E N) → Answer E T) → List Step × Answer E T → Type 0
  Once tracer span callback (steps, outcome) =
      (count is_called_back steps ≡ callback_runs o tracer)
      × (count is_ended steps ≡ (if is_entered tracer && is_some span.ended then 1 else 0))
      × (outcome ≡ outcome_of tracer span callback)
