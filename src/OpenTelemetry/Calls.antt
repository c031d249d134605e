-- ===== src/OpenTelemetry/Calls.antt =====
-- What the calls of `OpenTelemetryTransport.write` in src/otel.ts come to, whatever the
-- application's telemetry throws.
pub mod Writes
use Prim.Native.String.{String}
use next_loggers_ts.Prelude.{
  ℕ, ◌≡◌, refl, sym, ap, ◌∙◌, List, [], ◌∷◌, ◌++◌, Bool, true, false, not, ◌&&◌, ◌||◌, Option, none,
  some, or_else, is_some, append-nil, append_assoc, Bool-cases, inl, inr, if_both, if_cases,
  if◌then◌else◌,
}
use next_loggers_ts.Cli.Text.{lookup}
use next_loggers_ts.OpenTelemetry.{Runtime, Attributes}
use next_loggers_ts.OpenTelemetry.Records.{LogRecord, emitted_attributes, metric_attributes}
use next_loggers_ts.OpenTelemetry.Transport.{
  Options, Span, Exception, Call, emitted, reported, bridge_reported, event_added,
  exception_recorded, status_set, metric_recorded, Written, is_error_level, legacy_operations,
  error_from_record, report_bridge, report_transport_error, isolated, optional_call,
  answers_recording, active_span, answer_value, failure_of, context_answer, trace_state_failure,
  write_context, read_reports, exception_calls, error_calls, event_calls, span_calls, metric_calls,
  is_fail_open, after_emit, write,
}

module _ {E N C : Type 0} where
  abbrev pub concat_map : {A : Type 0} → (Call E N C → List A) → List (Call E N C) → List A
  concat_map f [] = []
  concat_map f (x ∷ xs) = f x ++ concat_map f xs

  concat_map-append :
      {A : Type 0} (f : Call E N C → List A) (xs ys : List (Call E N C))
      → concat_map f (xs ++ ys) ≡ concat_map f xs ++ concat_map f ys
  concat_map-append f [] ys = refl
  concat_map-append f (x ∷ xs) ys =
      ap (λ l. f x ++ l) (concat_map-append f xs ys)
      ∙ sym (append_assoc (f x) (concat_map f xs) (concat_map f ys))

  -- A part of the calls that comes to nothing.
  silent :
      {A : Type 0} (f : Call E N C → List A) (xs ys : List (Call E N C))
      → concat_map f xs ≡ []
      → concat_map f (xs ++ ys) ≡ concat_map f ys
  silent f xs ys h = concat_map-append f xs ys ∙ ap (λ l. l ++ concat_map f ys) h

  -- A part that comes to one.
  one-append :
      {A : Type 0} (f : Call E N C → List A) (xs ys : List (Call E N C)) (a : A)
      → concat_map f xs ≡ a ∷ []
      → concat_map f (xs ++ ys) ≡ a ∷ concat_map f ys
  one-append f xs ys a h = concat_map-append f xs ys ∙ ap (λ l. l ++ concat_map f ys) h

  abbrev pub emissions : Call E N C → List (Attributes N)
  emissions (emitted level message attributes context) = attributes ∷ []
  emissions (reported e operation) = []
  emissions (bridge_reported e operation) = []
  emissions (event_added name attributes) = []
  emissions (exception_recorded e) = []
  emissions (status_set code message) = []
  emissions (metric_recorded name labels) = []

  abbrev pub metrics : Call E N C → List String
  metrics (emitted level message attributes context) = []
  metrics (reported e operation) = []
  metrics (bridge_reported e operation) = []
  metrics (event_added name attributes) = []
  metrics (exception_recorded e) = []
  metrics (status_set code message) = []
  metrics (metric_recorded name labels) = name ∷ []

  -- What counts neither reports nor what is done to a span.
  record IgnoresSpan {A : Type 0} (f : Call E N C → List A) : Type 0 where
    on_report : (e : E) (operation : String) → f (reported e operation) ≡ []
    on_bridge : (e : E) (operation : String) → f (bridge_reported e operation) ≡ []
    on_event : (name : String) (attributes : Attributes N) → f (event_added name attributes) ≡ []
    on_exception : (e : Exception) → f (exception_recorded e) ≡ []
    on_status : (code : ℕ) (message : String) → f (status_set code message) ≡ []

  module _ {A : Type 0} (f : Call E N C → List A) (ignores : IgnoresSpan f)
      (o : Options E N C) where
    Silent : List (Call E N C) → Type 0
    Silent xs = concat_map f xs ≡ []

    empty-Silent : Silent []
    unfolding Silent
    empty-Silent = refl

    nothing-Silent : (xs : List (Call E N C)) → Silent xs → concat_map f xs ≡ []
    unfolding Silent
    nothing-Silent xs h = h

    one-Silent : (x : Call E N C) → f x ≡ [] → Silent (x ∷ [])
    unfolding Silent
    one-Silent x h = ap (λ l. l ++ []) h

    bridge-Silent :
        (failure : Option E) (operation : String) → Silent (report_bridge o failure operation)
    bridge-Silent none operation = empty-Silent
    bridge-Silent (some e) operation =
        if_both Silent o.has_on_bridge_error (one-Silent _ (ignores.on_bridge e operation))
          empty-Silent

    append-Silent : (xs ys : List (Call E N C)) → Silent xs → Silent ys → Silent (xs ++ ys)
    unfolding Silent
    append-Silent xs ys h k = silent f xs ys h ∙ k

    report-Silent :
        (failure : Option E) (operation : String)
        → Silent (report_transport_error o failure operation)
    unfolding report_transport_error
    report-Silent none operation = empty-Silent
    report-Silent (some e) operation =
        append-Silent _ _
          (if_both Silent o.has_on_error (one-Silent _ (ignores.on_report e operation))
            empty-Silent)
          (bridge-Silent (some e) (or_else (lookup operation legacy_operations) operation))

    -- An isolated call comes to what it is itself.
    isolated-alone :
        (call : Call E N C) (failure : Option E) (operation : String)
        → concat_map f (isolated o call failure operation) ≡ f call
    isolated-alone call failure operation =
        ap (λ l. f call ++ l) (nothing-Silent _ (report-Silent failure operation))
        ∙ append-nil (f call)

    isolated-Silent :
        (call : Call E N C) (failure : Option E) (operation : String)
        → f call ≡ []
        → Silent (isolated o call failure operation)
    unfolding Silent
    isolated-Silent call failure operation h = isolated-alone call failure operation ∙ h

    optional-Silent :
        (call : Call E N C) (failure : Option (Option E)) (operation : String)
        → f call ≡ []
        → Silent (optional_call o call failure operation)
    optional-Silent call none operation h = empty-Silent
    optional-Silent call (some failure) operation h = isolated-Silent call failure operation h

    read_reports-Silent : (rt : Runtime N) → Silent (read_reports rt o)
    unfolding read_reports
    read_reports-Silent rt =
        append-Silent _ _
          (append-Silent _ _
            (append-Silent _ _ (report-Silent (failure_of o.active_span) "read active span")
              (report-Silent (failure_of (context_answer (active_span o))) "read span context"))
            (bridge-Silent (trace_state_failure (write_context rt o)) "trace-state"))
          (report-Silent (failure_of o.active_context) "read active context")

    exception-Silent : (span : Span E N) (e : Option Exception) → Silent (exception_calls o span e)
    exception-Silent span none = empty-Silent
    exception-Silent span (some e) =
        if_both Silent (or_else o.record_exceptions true)
          (optional-Silent _ span.record_exception _ (ignores.on_exception e)) empty-Silent

    event_calls-Silent :
        (rt : Runtime N) (r : LogRecord N) (attributes : Attributes N) (span : Span E N)
        → Silent (event_calls rt o r attributes span)
    unfolding event_calls error_calls
    event_calls-Silent rt r attributes span =
        append-Silent _ _ (isolated-Silent _ span.add_event _ (ignores.on_event _ attributes)) (
          if_both Silent (is_error_level r.level)
            (append-Silent _ _ (exception-Silent span (error_from_record rt r.message r.errors))
              (optional-Silent _ span.set_status _ (ignores.on_status 2 _)))
            empty-Silent)

    span_calls-Silent :
        (rt : Runtime N) (r : LogRecord N) (attributes : Attributes N) (span : Option (Span E N))
        → Silent (span_calls rt o r attributes span)
    unfolding span_calls
    span_calls-Silent rt r attributes none = empty-Silent
    span_calls-Silent rt r attributes (some span) =
        if_both Silent (or_else o.emit_span_events true)
          (append-Silent _ _ (bridge-Silent _ "is-recording") (
            if_both Silent (answers_recording span.is_recording)
              (event_calls-Silent rt r attributes span) empty-Silent))
          empty-Silent

  emissions-IgnoresSpan : IgnoresSpan emissions
  emissions-IgnoresSpan = record {
    on_report = λ e operation. refl;
    on_bridge = λ e operation. refl;
    on_event = λ name attributes. refl;
    on_exception = λ e. refl;
    on_status = λ code message. refl;
  }

  metrics-IgnoresSpan : IgnoresSpan metrics
  metrics-IgnoresSpan = record {
    on_report = λ e operation. refl;
    on_bridge = λ e operation. refl;
    on_event = λ name attributes. refl;
    on_exception = λ e. refl;
    on_status = λ code message. refl;
  }
