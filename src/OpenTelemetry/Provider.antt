-- ===== src/OpenTelemetry/Provider.antt =====
-- `createOpenTelemetryContextProvider` of src/otel.ts: the context that an active span gives to a
-- record, and what a transport without the span makes of it. Diagnostics are left out.
use Prim.Native.String.{String}
use text.Mathlib.Text.{◌==◌ as str_eq}
use next_loggers_ts.Prelude.{
  ◌≡◌, refl, ap, ◌∙◌, List, [], ◌∷◌, ◌++◌, Bool, true, false, not, ◌&&◌, ◌||◌, Option, none, some,
  of_some, some_of_if, some_of_unless, if_cases, leb, arith, Bool-cases, inl, inr, if◌then◌else◌,
}
use next_loggers_ts.Cli.Text.{lookup}
use next_loggers_ts.BaseLogger.Objects.{spread, last_of, lookup-spread}
use next_loggers_ts.BaseLogger.Serialize.{Serialized, flag, numeric, str, size}
use next_loggers_ts.OpenTelemetry.{Runtime, AttributeLimits, Builder, set, bounded_string, shorten}
use next_loggers_ts.OpenTelemetry.Texts.{size-shorten}
use next_loggers_ts.OpenTelemetry.Records.{
  LogRecord, Answer, returned, threw, TraceState, absent, as_text, carrier, SpanContext,
  is_valid_trace_id, is_valid_span_id, is_valid_trace_flags, valid_span_context, trace_state_text,
  bounded_state, when_state, string_of, boolean_of, bounded_field, set_truthy, set_remote,
  add_correlation_attributes, add_span_context,
}
use next_loggers_ts.OpenTelemetry.Transport.{Span, answers_recording, valid_context}

pub record Provided (N : Type 0) : Type 0 where
  pub trace_id : String
  pub trace_ids : List String
  pub fields : List (String × Serialized N)
  pub tags : List String

abbrev is_text : {E : Type 0} → TraceState E → Bool
is_text absent = false
is_text (as_text s) = true
is_text (carrier answer) = false

-- `this.traceId || context?.traceId`.
abbrev own_or_context : Option String → String → Option String
own_or_context none given = some given
own_or_context (some s) given = if str_eq s "" then some given else some s

module _ {N : Type 0} where
  abbrev state_field : Option String → List (String × Serialized N)
  state_field none = []
  state_field (some s) = if str_eq s "" then [] else ("otel.trace_state", str s) ∷ []

  abbrev remote_field : Option Bool → List (String × Serialized N)
  remote_field none = []
  remote_field (some remote) = ("otel.remote", flag remote) ∷ []

  abbrev span_context_fields :
      String → N → Option String → Option Bool → List (String × Serialized N)
  span_context_fields span_id flags state remote =
      ("otel.span_id", str span_id)
      ∷ ("otel.trace_flags", numeric flags)
      ∷ (state_field state ++ remote_field remote)

  abbrev pub provided : {E : Type 0} → SpanContext E N → Provided N
  provided c = record {
    trace_id = c.trace_id;
    trace_ids = c.trace_id ∷ [];
    fields =
        span_context_fields c.span_id c.trace_flags (trace_state_text c.trace_state) c.is_remote;
    tags = "otel" ∷ [];
  }

  module _ {E : Type 0} (rt : Runtime N) (require_recording : Bool) where
    unfoldable pub provide_context : Bool → Answer E (SpanContext E N) → Option (Provided N)
    provide_context recording (threw e) = none
    provide_context recording (returned c) =
        if (require_recording && not recording)
          || not (valid_span_context rt c)
          || (not recording && not (is_valid_trace_id c.trace_id) && not (is_text c.trace_state))
        then none
        else some (provided c)

    unfoldable pub provide : Answer E (Option (Span E N)) → Option (Provided N)
    provide (threw e) = none
    provide (returned none) = none
    provide (returned (some span)) =
        provide_context (answers_recording span.is_recording) span.span_context

  -- What `toJSON` makes of the trace id of an event and of its fields, the runtime's included,
  -- where the logger has no fields; `r` is the record as it is without a context.
  abbrev pub in_context : Provided N → List (String × Serialized N) → LogRecord N → LogRecord N
  in_context p own r = record r {
    trace_id = own_or_context r.trace_id p.trace_id;
    fields = spread p.fields own;
  }

  -- The keys of the context are no keys of those fields.
  pub record IsApart (own : List (String × Serialized N)) : Type 0 where
    pub span_id : last_of "otel.span_id" own ≡ none
    pub trace_flags : last_of "otel.trace_flags" own ≡ none
    pub trace_state : last_of "otel.trace_state" own ≡ none
    pub remote : last_of "otel.remote" own ≡ none

bounded_state-short : (s : String) → leb (size s) 512 ≡ true → bounded_state s ≡ s
unfolding bounded_string shorten
bounded_state-short s short = rw short refl

size-bounded_state : (s : String) → leb (size (bounded_state s)) 512 ≡ true
unfolding bounded_string
size-bounded_state s = ground (arith, size-shorten s 512 false (omega arith))

abbrev short_state : Option String → Bool
short_state none = true
short_state (some s) = leb (size s) 512

when_state-short : (s : Option String) → short_state (when_state s) ≡ true
when_state-short none = refl
when_state-short (some s) =
    if_cases (λ (o : Option String). short_state o ≡ true) (str_eq s "") (λ blank. refl)
      (λ filled. size-bounded_state s)

trace_state_text-short : {E : Type 0} (t : TraceState E) → short_state (trace_state_text t) ≡ true
unfolding trace_state_text
trace_state_text-short absent = refl
trace_state_text-short (as_text s) = when_state-short (some s)
trace_state_text-short (carrier none) = refl
trace_state_text-short (carrier (some (returned s))) = when_state-short s
trace_state_text-short (carrier (some (threw e))) = refl

module _ {N : Type 0} where
  abbrev state_value : Option String → Option (Serialized N)
  state_value none = none
  state_value (some s) = if str_eq s "" then none else some (str s)

  abbrev remote_value : Option Bool → Option (Serialized N)
  remote_value none = none
  remote_value (some remote) = some (flag remote)

  state-span_context_fields :
      (span_id : String) (flags : N) (state : Option String) (remote : Option Bool)
      → lookup "otel.trace_state" (span_context_fields span_id flags state remote)
        ≡ state_value state
  state-span_context_fields span_id flags none none = refl
  state-span_context_fields span_id flags none (some remote) = refl
  state-span_context_fields span_id flags (some s) none = elim (Bool-cases (str_eq s "")) [
    | inl blank ↦ rw blank refl
    | inr filled ↦ rw filled refl
  ]
  state-span_context_fields span_id flags (some s) (some remote) = elim (Bool-cases (str_eq s "")) [
    | inl blank ↦ rw blank refl
    | inr filled ↦ rw filled refl
  ]

  remote-span_context_fields :
      (span_id : String) (flags : N) (state : Option String) (remote : Option Bool)
      → lookup "otel.remote" (span_context_fields span_id flags state remote) ≡ remote_value remote
  remote-span_context_fields span_id flags none none = refl
  remote-span_context_fields span_id flags none (some remote) = refl
  remote-span_context_fields span_id flags (some s) none = elim (Bool-cases (str_eq s "")) [
    | inl blank ↦ rw blank refl
    | inr filled ↦ rw filled refl
  ]
  remote-span_context_fields span_id flags (some s) (some remote) =
      elim (Bool-cases (str_eq s "")) [ inl blank ↦ rw blank refl | inr filled ↦ rw filled refl ]

  module _ (rt : Runtime N) (l : AttributeLimits) where
    set_state-same :
        (state : Option String) (b : Builder N)
        → short_state state ≡ true
        → set rt l "otel.trace_state" (bounded_field rt l (string_of rt l (state_value state))) b
          ≡ set_truthy rt l "otel.trace_state" state b
    unfolding set
    set_state-same none b short = refl
    set_state-same (some s) b short = elim (Bool-cases (str_eq s "")) [
      | inl blank ↦ rw blank refl
      | inr filled ↦ rw filled (rw (bounded_state-short s short) refl)
    ]

    set_remote-same :
        (remote : Option Bool) (b : Builder N)
        → set rt l "otel.remote" (boolean_of rt l (remote_value remote)) b
          ≡ set_remote rt l remote b
    unfolding set
    set_remote-same none b = refl
    set_remote-same (some remote) b = refl

    correlation-in_context :
        {E : Type 0} (c : SpanContext E N) (own : List (String × Serialized N)) (r : LogRecord N)
        (b : Builder N)
        → r.trace_id ≡ none
        → is_valid_trace_id c.trace_id ≡ true
        → is_valid_span_id c.span_id ≡ true
        → is_valid_trace_flags rt c.trace_flags ≡ true
        → IsApart own
        → add_correlation_attributes rt l {E = E} (in_context (provided c) own r) none b
          ≡ add_correlation_attributes rt l (in_context (provided c) own r) (some c) b
    unfolding add_correlation_attributes add_span_context
    correlation-in_context c own r b untraced trace_valid span_valid flags_valid apart =
        let given = (provided c).fields in
        let fields = spread given own in
        let state = trace_state_text c.trace_state in
        let at_span_id : lookup "otel.span_id" fields ≡ some (str c.span_id) =
          lookup-spread "otel.span_id" given own ∙ rw apart.span_id refl in
        let at_flags : lookup "otel.trace_flags" fields ≡ some (numeric c.trace_flags) =
          lookup-spread "otel.trace_flags" given own ∙ rw apart.trace_flags refl in
        let at_state : lookup "otel.trace_state" fields ≡ state_value state =
          lookup-spread "otel.trace_state" given own
          ∙ rw apart.trace_state
              (state-span_context_fields c.span_id c.trace_flags state c.is_remote) in
        let at_remote : lookup "otel.remote" fields ≡ remote_value c.is_remote =
          lookup-spread "otel.remote" given own
          ∙ rw apart.remote
              (remote-span_context_fields c.span_id c.trace_flags state c.is_remote) in
        rw untraced (
          rw at_span_id (
            rw trace_valid (
              rw span_valid (
                rw at_flags (
                  rw flags_valid (
                    rw at_state (
                      rw at_remote (
                        ap
                          (λ (x : Builder N).
                            set rt l "otel.remote" (boolean_of rt l (remote_value c.is_remote)) x)
                          (set_state-same state _ (trace_state_text-short c.trace_state))
                        ∙ set_remote-same c.is_remote _))))))))

    flags-valid_span_context :
        {E : Type 0} (c : SpanContext E N)
        → valid_span_context rt c ≡ true
        → is_valid_trace_flags rt c.trace_flags ≡ true
    unfolding valid_span_context
    flags-valid_span_context c h = ground (arith, h)

    -- A span gives the context that the transport reads from it, if that is valid.
    provided-valid_context :
        {E : Type 0} (require_recording recording : Bool) (a : Answer E (SpanContext E N))
        (p : Provided N) (c : SpanContext E N)
        → provide_context rt require_recording recording a ≡ some p
        → valid_context rt (some a) ≡ some c
        → (p ≡ provided c) × (is_valid_trace_flags rt c.trace_flags ≡ true)
    unfolding provide_context valid_context
    provided-valid_context require_recording recording (threw e) p c h v =
        absurd (ground (arith, h))
    provided-valid_context {E} require_recording recording (returned x) p c h v =
        let same : some x ≡ some c = some_of_if (valid_span_context rt x) v in
        let refused =
          (require_recording && not recording)
          || not (valid_span_context rt x)
          || (not recording && not (is_valid_trace_id x.trace_id) && not (is_text x.trace_state)) in
        let given : some (provided x) ≡ some p = some_of_unless refused h in
        elim (Bool-cases (valid_span_context rt x)) [
          | inl valid ↦
              of_some
                (λ (y : SpanContext E N).
                  (p ≡ provided y) × (is_valid_trace_flags rt y.trace_flags ≡ true))
                same
                (
                  of_some (λ (q : Provided N). q ≡ provided x) given refl,
                  flags-valid_span_context x valid,
                )
          | inr invalid ↦ absurd (ground (arith, rw invalid at v))
        ]

    -- When a span with canonical ids gives its context to a record whose event has no trace id of its
    -- own, on a logger without fields, and the event's and the runtime's fields have none of the
    -- context's keys, a transport exports the record without the span as with it: with the same ids,
    -- flags, state and remote mark, in the same attributes, where nothing of these is redacted.
    pub provide-correlation :
        {E : Type 0} (require_recording : Bool) (span : Span E N) (p : Provided N)
        (c : SpanContext E N) (own : List (String × Serialized N)) (r : LogRecord N) (b : Builder N)
        → provide rt require_recording (returned (some span)) ≡ some p
        → valid_context rt (some span.span_context) ≡ some c
        → r.trace_id ≡ none
        → is_valid_trace_id c.trace_id ≡ true
        → is_valid_span_id c.span_id ≡ true
        → IsApart own
        → add_correlation_attributes rt l {E = E} (in_context p own r) none b
          ≡ add_correlation_attributes rt l (in_context p own r) (some c) b
    unfolding provide
    provide-correlation {E} require_recording span p c own r b h v untraced trace_valid span_valid
          apart =
        let (same, flags_valid) =
          provided-valid_context require_recording (answers_recording span.is_recording)
            span.span_context p c h v in
        rw same (correlation-in_context c own r b untraced trace_valid span_valid flags_valid apart)
