-- ===== src/OpenTelemetry/Identity.antt =====
-- The attributes of src/otel.ts that only the record gives: `PROTECTED_RECORD_ATTRIBUTES`.
use Prim.Native.String.{String}
use text.Mathlib.Text.{◌==◌ as str_eq}
use text.Mathlib.TextEquality.{eq_iff}
use next_loggers_ts.Prelude.{
  ℕ, ◌<◌, ◌≡◌, refl, ap, ◌∙◌, List, [], ◌∷◌, Bool, true, false, not, ◌&&◌, ◌||◌, Option, none, some,
  take, ltb, leb, arith, if_both, Bool-cases, inl, inr,
}
use next_loggers_ts.Cli.Text.{member, lookup, lookup-insert}
use next_loggers_ts.BaseLogger.Serialize.{Serialized, size}
use next_loggers_ts.OpenTelemetry.{
  Runtime, AttributeLimits, of_string, AttributeValue, single, Attributes, Builder, bounded_by,
  attribute_value, maximum_attributes, attribute_name, exists, store, set,
}
use next_loggers_ts.OpenTelemetry.Texts.{attribute_name-short}
use next_loggers_ts.OpenTelemetry.Records.{LogRecord, level_text}

abbrev pub all_short : List String → Bool
all_short [] = true
all_short (t ∷ ts) = ltb (size t) 256 && all_short ts

pub short_member :
    (p : String) (ts : List String) → member p ts ≡ true → all_short ts ≡ true → size p < 256
short_member p [] h k = absurd cc
short_member p (t ∷ ts) h k = elim (Bool-cases (str_eq t p)) [
  | inl same ↦ ground (arith, k, ap size ((eq_iff t p).0 same))
  | inr other ↦ short_member p ts (ground (arith, h, other)) (ground (arith, k))
]

module _ {N : Type 0} where
  pub store-other :
      (p name : String) (v : Option (AttributeValue N)) (b : Builder N)
      → str_eq name p ≡ false
      → lookup p (store name v b).values ≡ lookup p b.values
  unfolding store
  store-other p name none b other = refl
  store-other p name (some v) b other = lookup-insert name p v b.values ∙ rw other refl

  -- The attributes that the record gives of itself.
  abbrev pub own_attributes : AttributeLimits → LogRecord N → Attributes N
  own_attributes l r =
      ("log.record.uid", single (of_string (bounded_by l r.id)))
      ∷ ("service.name", single (of_string (bounded_by l r.app_name)))
      ∷ ("next_logger.schema", single (of_string (bounded_by l r.schema)))
      ∷ ("next_logger.runtime", single (of_string (bounded_by l r.runtime)))
      ∷ ("next_logger.level", single (of_string (bounded_by l (level_text r.level))))
      ∷ []

  abbrev first_own : AttributeLimits → LogRecord N → ℕ → Builder N
  first_own l r n = record { values = take n (own_attributes l r); count = n }

  module _ (rt : Runtime N) (l : AttributeLimits) where
    -- A name that becomes a short one is that one.
    pub set-other :
        (p name : String) (v : Option (Serialized N)) (b : Builder N)
        → size p < 256
        → str_eq name p ≡ false
        → lookup p (set rt l name v b).values ≡ lookup p b.values
    unfolding set
    set-other p name none b short other = refl
    set-other p name (some v) b short other =
        if_both (λ (t : Builder N). lookup p t.values ≡ lookup p b.values)
          (str_eq name ""
            || (not (exists (attribute_name name) b) && leb (maximum_attributes l) b.count))
          refl
          (elim (Bool-cases (str_eq (attribute_name name) p)) [
            | inl same ↦ absurd (
                ground (
                  arith,
                  other,
                  eq_iff name p,
                  attribute_name-short name p ((eq_iff (attribute_name name) p).0 same) short,
                ))
            | inr differs ↦ store-other p (attribute_name name) (attribute_value rt l v) b differs
          ])
