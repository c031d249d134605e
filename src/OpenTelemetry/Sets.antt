-- ===== src/OpenTelemetry/Sets.antt =====
-- What `AttributeBuilder.set` keeps, the functions of src/otel.ts that call it keep too.
use Prim.Native.String.{String, ◌++◌ as ◌<>◌}
use text.Mathlib.Text.{◌==◌ as str_eq}
use next_loggers_ts.Prelude.{
  ◌≡◌, refl, List, [], ◌∷◌, Bool, true, false, ◌&&◌, Option, none, some, or_else, if_both, if_cases,
}
use next_loggers_ts.Cli.Text.{member, lookup}
use next_loggers_ts.BaseLogger.Serialize.{Serialized, flag, str}
use next_loggers_ts.OpenTelemetry.{Runtime, AttributeLimits, Builder, set}
use next_loggers_ts.OpenTelemetry.Texts.{begins-append, begins-member}
use next_loggers_ts.OpenTelemetry.Records.{
  LogRecord, RecordOptions, SpanContext, field_prefix, protected_record_attributes, set_truthy,
  set_trace_id, set_tags, set_unprotected, set_fields, add_identity, add_optional,
  add_record_attributes, set_remote, add_span_context, set_ids, set_valid_ids, string_of,
  add_correlation_attributes, trace_state_text, is_valid_trace_id, is_valid_span_id,
}

module _ {N : Type 0} (rt : Runtime N) (l : AttributeLimits) (P : Builder N → Type 0) where
  -- Of the names that only the record may give, `set` is asked nothing here.
  abbrev pub Kept : Type 0
  Kept =
      (name : String) (v : Option (Serialized N)) (b : Builder N)
      → member name protected_record_attributes ≡ false
      → P b
      → P (set rt l name v b)

  module _ (keep : Kept) where
    truthy-kept :
        (name : String) (s : Option String) (b : Builder N)
        → member name protected_record_attributes ≡ false
        → P b
        → P (set_truthy rt l name s b)
    truthy-kept name none b free h = h
    truthy-kept name (some s) b free h =
        if_both P (str_eq s "") h (keep name (some (str s)) b free h)

    trace_id-kept : (s : Option String) (b : Builder N) → P b → P (set_trace_id rt l s b)
    trace_id-kept none b h = h
    trace_id-kept (some s) b h =
        if_both P (is_valid_trace_id s) (keep "trace.id" (some (str s)) b refl h) h

    tags-kept : (tags : List String) (b : Builder N) → P b → P (set_tags rt l tags b)
    tags-kept [] b h = h
    tags-kept (t ∷ ts) b h = keep "next_logger.tags" _ b refl h

    unprotected-kept :
        (entries : List (String × Serialized N)) (b : Builder N)
        → P b
        → P (set_unprotected rt l entries b)
    unfolding set_unprotected
    unprotected-kept [] b h = h
    unprotected-kept ((k, v) ∷ rest) b h = unprotected-kept rest _ (
        if_cases P (member k protected_record_attributes) (λ known. h)
          (λ free. keep k (some v) b free h))

    fields-kept :
        (entries : List (String × Serialized N)) (b : Builder N)
        → P b
        → P (set_fields rt l entries b)
    unfolding set_fields
    fields-kept [] b h = h
    fields-kept ((k, v) ∷ rest) b h = fields-kept rest _ (
        keep (field_prefix <> k) (some v) b
          (begins-member field_prefix (field_prefix <> k) protected_record_attributes
            (begins-append field_prefix k) refl)
          h)

    optional-kept : (r : LogRecord N) (b : Builder N) → P b → P (add_optional rt l r b)
    unfolding add_optional
    optional-kept r b h = tags-kept r.tags _ (
        truthy-kept "next_logger.routine_id" r.routine_id _ refl
          (trace_id-kept r.trace_id _ (truthy-kept "logger.name" r.name b refl h)))

    pub record-kept :
        (o : RecordOptions N) (r : LogRecord N) (b : Builder N)
        → P (add_identity rt l r b)
        → P (add_record_attributes rt l o r b)
    unfolding add_record_attributes
    record-kept o r b h =
        let given = unprotected-kept o.attributes _ (optional-kept r _ h) in
        let with_fields =
          if_both P (or_else o.include_fields true) (fields-kept r.fields _ given) given in
        if_both P o.include_values (keep "next_logger.values" _ _ refl with_fields) with_fields

    remote-kept : (remote : Option Bool) (b : Builder N) → P b → P (set_remote rt l remote b)
    remote-kept none b h = h
    remote-kept (some x) b h = keep "otel.remote" (some (flag x)) b refl h

    span_context-kept :
        {E : Type 0} (c : SpanContext E N) (b : Builder N) → P b → P (add_span_context rt l c b)
    unfolding add_span_context
    span_context-kept c b h = remote-kept c.is_remote _ (
        truthy-kept "otel.trace_state" (trace_state_text c.trace_state) _ refl
          (keep "otel.trace_flags" _ _ refl (keep "span.id" _ _ refl (keep "trace.id" _ b refl h))))

    ids-kept :
        (fs : List (String × Serialized N)) (tid sid : String) (b : Builder N)
        → P b
        → P (set_ids rt l fs tid sid b)
    ids-kept fs tid sid b h = keep "otel.remote" _ _ refl (
        keep "otel.trace_state" _ _ refl
          (keep "otel.trace_flags" _ _ refl (keep "span.id" _ _ refl (keep "trace.id" _ b refl h))))

    valid_ids-kept :
        (fs : List (String × Serialized N)) (tid sid : Option String) (b : Builder N)
        → P b
        → P (set_valid_ids rt l fs tid sid b)
    valid_ids-kept fs none sid b h = h
    valid_ids-kept fs (some tid) none b h = h
    valid_ids-kept fs (some tid) (some sid) b h =
        if_both P (is_valid_trace_id tid && is_valid_span_id sid) (ids-kept fs tid sid b h) h

    pub correlation-kept :
        {E : Type 0} (r : LogRecord N) (context : Option (SpanContext E N)) (b : Builder N)
        → P b
        → P (add_correlation_attributes rt l r context b)
    unfolding add_correlation_attributes
    correlation-kept r none b h =
        valid_ids-kept r.fields r.trace_id (string_of rt l (lookup "otel.span_id" r.fields)) b h
    correlation-kept r (some c) b h = span_context-kept c b h
