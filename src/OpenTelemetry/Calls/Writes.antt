-- ===== src/OpenTelemetry/Calls/Writes.antt =====
-- The emission, the error and the metrics of a `write` of src/otel.ts.
use Prim.Native.String.{String}
use next_loggers_ts.Prelude.{
  ◌≡◌, refl, ap, ◌∙◌, List, [], ◌∷◌, ◌++◌, Bool, true, false, not, ◌&&◌, ◌||◌, Option, none, some,
  is_some, Bool-cases, inl, inr, if_both, if_cases, if◌then◌else◌,
}
use next_loggers_ts.OpenTelemetry.{Runtime, Attributes}
use next_loggers_ts.OpenTelemetry.Records.{LogRecord, emitted_attributes, metric_attributes}
use next_loggers_ts.OpenTelemetry.Transport.{
  Options, Call, emitted, metric_recorded, Written, is_error_level, isolated, active_span,
  answer_value, write_context, read_reports, span_calls, metric_calls, is_fail_open, after_emit,
  write,
}
use next_loggers_ts.OpenTelemetry.Calls.{
  concat_map, silent, one-append, emissions, metrics, Silent, empty-Silent, nothing-Silent,
  append-Silent, isolated-alone, isolated-Silent, read_reports-Silent, span_calls-Silent,
  emissions-IgnoresSpan, metrics-IgnoresSpan,
}

-- The metrics that a written record counts in: an error counts as one also when `onError` is
-- given or the first metric did not fail.
abbrev pub counted : {E : Type 0} → Bool → Bool → Option (String → Option E) → List String
counted has_on_error is_error none = []
counted has_on_error is_error (some record_metric) =
    let tried = has_on_error || not (is_some (record_metric "next_loggers.records")) in
    "next_loggers.records" ∷ (if is_error && tried then "next_loggers.errors" ∷ [] else [])

module _ {E N C : Type 0} where
  module _ (o : Options E N C) where
    both_metrics :
        (labels : Attributes N) (failure : Option E) (operation : String) (c : Bool)
        → concat_map metrics (
            if c
            then isolated o (metric_recorded "next_loggers.errors" labels) failure operation
            else [])
          ≡ (if c then "next_loggers.errors" ∷ [] else [])
    both_metrics labels failure operation true =
        isolated-alone metrics metrics-IgnoresSpan o (metric_recorded "next_loggers.errors" labels)
          failure operation
    both_metrics labels failure operation false = refl

    errors_counted :
        (is_error on_error kept : Bool) (labels : Attributes N) (failure : Option E)
        → concat_map metrics (
            if on_error
            then (if is_error
                then isolated o
                    (metric_recorded "next_loggers.errors" labels)
                    failure
                    "record error metric"
                else [])
            else (if is_error && kept
                then isolated o
                    (metric_recorded "next_loggers.errors" labels)
                    failure
                    "record log metric"
                else []))
          ≡ (if is_error && (on_error || kept) then "next_loggers.errors" ∷ [] else [])
    errors_counted false true kept labels failure = refl
    errors_counted false false kept labels failure = refl
    errors_counted true true kept labels failure =
        both_metrics labels failure "record error metric" true
    errors_counted true false kept labels failure =
        both_metrics labels failure "record log metric" kept

    metrics-metric_calls :
        (is_error : Bool) (labels : Attributes N) (f : Option (String → Option E))
        → concat_map metrics (metric_calls o is_error labels f) ≡ counted o.has_on_error is_error f
    unfolding metric_calls
    metrics-metric_calls is_error labels none = refl
    metrics-metric_calls is_error labels (some f) =
        one-append metrics
          (isolated o (metric_recorded "next_loggers.records" labels) (f "next_loggers.records")
            "record log metric")
          _ "next_loggers.records"
          (isolated-alone metrics metrics-IgnoresSpan o
            (metric_recorded "next_loggers.records" labels) (f "next_loggers.records")
            "record log metric")
        ∙ ap (λ l. "next_loggers.records" ∷ l)
            (errors_counted is_error o.has_on_error (not (is_some (f "next_loggers.records")))
              labels (f "next_loggers.errors"))

    metric_calls-Silent :
        (is_error : Bool) (labels : Attributes N) (f : Option (String → Option E))
        → Silent emissions emissions-IgnoresSpan o (metric_calls o is_error labels f)
    unfolding metric_calls
    metric_calls-Silent is_error labels none = empty-Silent emissions emissions-IgnoresSpan o
    metric_calls-Silent is_error labels (some f) =
        let Quiet : List (Call E N C) → Type 0 = Silent emissions emissions-IgnoresSpan o in
        let empty = empty-Silent emissions emissions-IgnoresSpan o in
        let alone : (name : String) (failure : Option E) (operation : String)
            → Quiet (isolated o (metric_recorded name labels) failure operation) =
          λ name failure operation.
            isolated-Silent emissions emissions-IgnoresSpan o (metric_recorded name labels) failure
              operation refl in
        append-Silent emissions emissions-IgnoresSpan o _ _
          (alone "next_loggers.records" (f "next_loggers.records") "record log metric")
          (if_both Quiet o.has_on_error
            (if_both Quiet is_error
              (alone "next_loggers.errors" (f "next_loggers.errors") "record error metric") empty)
            (if_both Quiet (is_error && not (is_some (f "next_loggers.records")))
              (alone "next_loggers.errors" (f "next_loggers.errors") "record log metric") empty))

    silent-after_emit :
        (failure : Option E) (rest : List (Call E N C))
        → concat_map emissions rest ≡ []
        → concat_map emissions (after_emit o failure rest).calls ≡ []
    silent-after_emit none rest h = h
    silent-after_emit (some e) rest h =
        if_both (λ (w : Written E N C). concat_map emissions w.calls ≡ []) (is_fail_open o) h refl

    thrown-after_emit :
        (failure : Option E) (rest : List (Call E N C))
        → (after_emit o failure rest).thrown ≡ (if is_fail_open o then none else failure)
    thrown-after_emit none rest = if_both (λ (x : Option E). none ≡ x) (is_fail_open o) refl refl
    thrown-after_emit (some e) rest =
        if_cases (λ (w : Written E N C). w.thrown ≡ (if is_fail_open o then none else some e))
          (is_fail_open o) (λ open_. rw open_ refl) (λ shut. rw shut refl)

    metrics-after_emit :
        (failure : Option E) (rest : List (Call E N C))
        → concat_map metrics (after_emit o failure rest).calls
          ≡ (if is_fail_open o || not (is_some failure) then concat_map metrics rest else [])
    metrics-after_emit none rest = elim (Bool-cases (is_fail_open o)) [
      | inl open_ ↦ rw open_ refl
      | inr shut ↦ rw shut refl
    ]
    metrics-after_emit (some e) rest = elim (Bool-cases (is_fail_open o)) [
      | inl open_ ↦ rw open_ refl
      | inr shut ↦ rw shut refl
    ]

    -- A write emits the record once, with its attributes, whatever the application's telemetry
    -- throws. It throws just what the emission throws, and only if the transport is not fail-open,
    -- and unless it does the record is counted in the metrics.
    pub write-emits_once :
        (rt : Runtime N) (r : LogRecord N)
        → (concat_map emissions (write rt o r).calls
            ≡ emitted_attributes rt o.limits o.record_options r (write_context rt o) ∷ [])
          × ((write rt o r).thrown ≡ (if is_fail_open o then none else o.emit_failure))
          × (concat_map metrics (write rt o r).calls ≡ (
              if is_fail_open o || not (is_some o.emit_failure)
              then counted o.has_on_error (is_error_level r.level) o.record_metric
              else []))
    unfolding write
    write-emits_once rt r =
        let attributes = emitted_attributes rt o.limits o.record_options r (write_context rt o) in
        let emission = emitted r.level r.message attributes (answer_value o.active_context) in
        let is_error = is_error_level r.level in
        let labels = metric_attributes rt o.record_options r in
        let spans = span_calls rt o r attributes (active_span o) in
        let counts = metric_calls o is_error labels o.record_metric in
        let rest = spans ++ counts in
        let reports = read_reports rt o in
        let emitting = isolated o emission o.emit_failure "emit log" in
        (
          one-append emissions (reports ++ emitting) (after_emit o o.emit_failure rest).calls
                attributes
                (silent emissions reports emitting (
                    nothing-Silent emissions emissions-IgnoresSpan o reports
                      (read_reports-Silent emissions emissions-IgnoresSpan o rt))
                  ∙ isolated-alone emissions emissions-IgnoresSpan o emission o.emit_failure
                      "emit log")
              ∙ ap (λ l. attributes ∷ l)
                  (silent-after_emit o.emit_failure rest (
                    silent emissions spans counts (
                      nothing-Silent emissions emissions-IgnoresSpan o spans (
                        span_calls-Silent emissions emissions-IgnoresSpan o rt r attributes
                          (active_span o)))
                    ∙ nothing-Silent emissions emissions-IgnoresSpan o counts
                        (metric_calls-Silent is_error labels o.record_metric))),
          thrown-after_emit o.emit_failure rest,
          silent metrics (reports ++ emitting) (after_emit o o.emit_failure rest).calls (
                silent metrics reports emitting (
                  nothing-Silent metrics metrics-IgnoresSpan o reports
                    (read_reports-Silent metrics metrics-IgnoresSpan o rt))
                ∙ isolated-alone metrics metrics-IgnoresSpan o emission o.emit_failure "emit log")
              ∙ metrics-after_emit o.emit_failure rest
              ∙ ap (λ l. if is_fail_open o || not (is_some o.emit_failure) then l else [])
                  (silent metrics spans counts (
                      nothing-Silent metrics metrics-IgnoresSpan o spans (
                        span_calls-Silent metrics metrics-IgnoresSpan o rt r attributes
                          (active_span o)))
                    ∙ metrics-metric_calls is_error labels o.record_metric),
        )
