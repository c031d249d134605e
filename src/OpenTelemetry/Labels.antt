-- ===== src/OpenTelemetry/Labels.antt =====
-- The labels of the metrics of src/otel.ts: `metricAttributes`.
use Prim.Native.String.{String}
use text.Mathlib.Text.{◌==◌ as str_eq}
use text.Mathlib.TextEquality.{eq_iff}
use next_loggers_ts.Prelude.{
  ◌≡◌, refl, sym, ap, ◌∙◌, List, [], ◌∷◌, Bool, true, false, not, ◌&&◌, ◌||◌, Option, none, some,
  or_else, leb, arith, if_both, if_cases, Bool-cases, inl, inr,
}
use next_loggers_ts.Cli.Text.{member, lookup, lookup-insert}
use next_loggers_ts.BaseLogger.Objects.{spread}
use next_loggers_ts.BaseLogger.Serialize.{Serialized}
use next_loggers_ts.OpenTelemetry.{
  Runtime, AttributeValue, Attributes, Builder, no_attributes, attribute_value, maximum_attributes,
  attribute_name, exists, set,
}
use next_loggers_ts.OpenTelemetry.Texts.{attribute_name-short, begins-attribute_name}
use next_loggers_ts.OpenTelemetry.Records.{
  LogRecord, RecordOptions, forbidden_metric_attributes, default_metric_attributes, field_prefix,
  metric_limits, is_unlabelled, set_labels, copy, select_labels, all_labels, metric_attributes,
}
use next_loggers_ts.OpenTelemetry.Identity.{store-other, short_member}

-- A name that may not label a metric does not come from one that may.
attribute_name-unlabelled :
    (name : String) → is_unlabelled name ≡ false → is_unlabelled (attribute_name name) ≡ false
attribute_name-unlabelled name h =
    elim (Bool-cases (member (attribute_name name) forbidden_metric_attributes)) [
      | inl known ↦
          let same : name ≡ attribute_name name =
            attribute_name-short name (attribute_name name) refl
              (short_member (attribute_name name) forbidden_metric_attributes known refl) in
          ap is_unlabelled (sym same) ∙ h
      | inr free ↦ ground (arith, h, free, begins-attribute_name name field_prefix (omega arith))
    ]

module _ {N : Type 0} where
  abbrev HasNoForbidden : Attributes N → Type 0
  HasNoForbidden labels = (k : String) → is_unlabelled k ≡ true → lookup k labels ≡ none

  module _ (rt : Runtime N) where
    set-HasNoForbidden :
        (name : String) (v : Option (Serialized N)) (b : Builder N)
        → is_unlabelled name ≡ false
        → HasNoForbidden b.values
        → HasNoForbidden (set rt metric_limits name v b).values
    unfolding set
    set-HasNoForbidden name none b free h k unlabelled = h k unlabelled
    set-HasNoForbidden name (some v) b free h k unlabelled =
        let differs : str_eq (attribute_name name) k ≡ false = ground (
          arith,
          unlabelled,
          attribute_name-unlabelled name free,
          eq_iff (attribute_name name) k,
          ap is_unlabelled,
        ) in
        if_both (λ (t : Builder N). lookup k t.values ≡ none)
          (str_eq name ""
            || (not (exists (attribute_name name) b)
                && leb (maximum_attributes metric_limits) b.count))
          (h k unlabelled)
          (store-other k (attribute_name name) (attribute_value rt metric_limits v) b differs
            ∙ h k unlabelled)

    set_labels-HasNoForbidden :
        (entries : List (String × Serialized N)) (b : Builder N)
        → HasNoForbidden b.values
        → HasNoForbidden (set_labels rt entries b).values
    unfolding set_labels
    set_labels-HasNoForbidden [] b h = h
    set_labels-HasNoForbidden ((name, v) ∷ rest) b h = set_labels-HasNoForbidden rest _ (
        if_cases (λ (t : Builder N). HasNoForbidden t.values) (is_unlabelled name) (λ skipped. h)
          (λ free. set-HasNoForbidden name (some v) b free h))

    all_labels-HasNoForbidden :
        (o : RecordOptions N) (r : LogRecord N) → HasNoForbidden (all_labels rt o r).values
    unfolding all_labels
    all_labels-HasNoForbidden o r =
        set_labels-HasNoForbidden (spread (spread [] o.attributes) o.metric_attributes) _ (
          set-HasNoForbidden "next_logger.level" _ _ refl (
            set-HasNoForbidden "next_logger.runtime" _ _ refl
              (set-HasNoForbidden "service.name" _ no_attributes refl (λ k u. refl))))

  abbrev chosen :
      Bool → Option (AttributeValue N) → Option (AttributeValue N) → Option (AttributeValue N)
  chosen false label old = old
  chosen true none old = old
  chosen true (some v) old = some v

  chosen-none : (b : Bool) → chosen b none none ≡ none
  chosen-none false = refl
  chosen-none true = refl

  -- A choice over a choice of the same label.
  chosen-chosen :
      (b c : Bool) (x y old : Option (AttributeValue N))
      → (c ≡ true → y ≡ x)
      → chosen b x (chosen c y old) ≡ chosen (c || b) x old
  chosen-chosen false false x y old h = refl
  chosen-chosen false true x y old h = ap (λ z. chosen true z old) (h refl)
  chosen-chosen true false x y old h = refl
  chosen-chosen true true none y old h = ap (λ z. chosen true z old) (h refl)
  chosen-chosen true true (some v) y old h = refl

  lookup-copy :
      (k name : String) (label : Option (AttributeValue N)) (selected : Attributes N)
      → lookup k (copy name label selected) ≡ chosen (str_eq name k) label (lookup k selected)
  lookup-copy k name none selected = elim (Bool-cases (str_eq name k)) [
    | inl same ↦ rw same refl
    | inr other ↦ rw other refl
  ]
  lookup-copy k name (some v) selected =
      lookup-insert name k v selected
      ∙ (elim (Bool-cases (str_eq name k)) [ inl same ↦ rw same refl | inr other ↦ rw other refl ])

  lookup-select_labels :
      (k : String) (ks : List String) (labels selected : Attributes N)
      → lookup k (select_labels ks labels selected)
        ≡ chosen (member k ks) (lookup k labels) (lookup k selected)
  unfolding select_labels
  lookup-select_labels k [] labels selected = refl
  lookup-select_labels k (name ∷ ks) labels selected =
      lookup-select_labels k ks labels (copy name (lookup name labels) selected)
      ∙ ap (chosen (member k ks) (lookup k labels))
          (lookup-copy k name (lookup name labels) selected)
      ∙ chosen-chosen (member k ks) (str_eq name k) (lookup k labels) (lookup name labels)
          (lookup k selected)
          (λ same. ap (λ (t : String). lookup t labels) ((eq_iff name k).0 same))

  -- A metric has no label outside the keys that the caller allows, or outside the usual ones where
  -- it allows none of its own; and, whatever the options allow, none named trace.id, span.id,
  -- log.record.uid, otel.span_id, otel.parent_span_id or otel.trace_state, and none whose name
  -- begins with next_logger.field., the prefix of a record's fields.
  pub metric_attributes-HasNoForbidden :
      (rt : Runtime N) (o : RecordOptions N) (r : LogRecord N) (k : String)
      → (is_unlabelled k
          || not (member k (or_else o.metric_attribute_keys default_metric_attributes)))
        ≡ true
      → lookup k (metric_attributes rt o r) ≡ none
  unfolding metric_attributes
  metric_attributes-HasNoForbidden rt o r k h =
      let allowed = or_else o.metric_attribute_keys default_metric_attributes in
      let labels = (all_labels rt o r).values in
      lookup-select_labels k allowed labels [] ∙ (elim (Bool-cases (is_unlabelled k)) [
        | inl unlabelled ↦
            rw (all_labels-HasNoForbidden rt o r k unlabelled) (chosen-none (member k allowed))
        | inr free ↦
            let refused : member k allowed ≡ false = ground (arith, h, free) in rw refused refl
      ])
