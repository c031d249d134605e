-- ===== src/OpenTelemetry/Bounds.antt =====
-- The sizes of the attributes that src/otel.ts makes of a record.
use Prim.Native.String.{String}
use text.Mathlib.Text.{◌==◌ as str_eq}
use next_loggers_ts.Prelude.{
  ℕ, suc, ◌≤◌, ◌≡◌, refl, ap, max, List, [], ◌∷◌, Bool, true, false, not, ◌&&◌, ◌||◌, Option, none,
  some, is_some, map, take, length, length-take, length-map, leb, arith, if_both, if_cases, of_some,
}
use next_loggers_ts.Cli.Text.{insert}
use next_loggers_ts.BaseLogger.Serialize.{
  Serialized, nothing, flag, numeric, str, items, fields, size,
}
use next_loggers_ts.Prometheus.Bounds.{length-insert}
use next_loggers_ts.OpenTelemetry.{
  Runtime, AttributeLimits, Scalar, of_string, of_number, of_boolean, AttributeValue, single,
  several, Attributes, Builder, no_attributes, is_positive, floor, bounded_string, bounded_by,
  bounded_scalar, scalar, scalars, item_list, add_first, or_json, single_or_json, attribute_value,
  maximum_length, maximum_items, maximum_attributes, attribute_name, exists, store, set,
}
use next_loggers_ts.OpenTelemetry.Texts.{size-shorten, size-attribute_name}
use next_loggers_ts.OpenTelemetry.Records.{
  LogRecord, RecordOptions, SpanContext, add_identity, emitted_attributes,
}
use next_loggers_ts.OpenTelemetry.Sets.{Kept, record-kept, correlation-kept}

-- The most characters of a text, where texts are cut at all.
abbrev pub text_limit : AttributeLimits → ℕ
text_limit l = max 1 (floor (maximum_length l) 0)

module _ {N : Type 0} where
  abbrev scalar_fits : AttributeLimits → Scalar N → Bool
  scalar_fits l (of_string s) = leb (size s) (text_limit l)
  scalar_fits l (of_number x) = true
  scalar_fits l (of_boolean b) = true

  abbrev scalars_fit : AttributeLimits → List (Scalar N) → Bool
  scalars_fit l [] = true
  scalars_fit l (x ∷ xs) = scalar_fits l x && scalars_fit l xs

  abbrev pub value_fits : AttributeLimits → AttributeValue N → Bool
  value_fits l (single x) = scalar_fits l x
  value_fits l (several xs) = leb (length xs) (maximum_items l) && scalars_fit l xs

  abbrev pub all_fit : AttributeLimits → Attributes N → Bool
  all_fit l [] = true
  all_fit l ((name, value) ∷ rest) = leb (size name) 256 && value_fits l value && all_fit l rest

  module _ (rt : Runtime N) (l : AttributeLimits)
      (cut : is_positive (maximum_length l) ≡ true) where
    bounded_by-fits : (s : String) → leb (size (bounded_by l s)) (text_limit l) ≡ true
    unfolding bounded_string
    bounded_by-fits s =
        if_cases (λ (t : String). leb (size t) (text_limit l) ≡ true)
          (is_positive (maximum_length l))
          (λ t.
            ground
              (arith, size-shorten s (text_limit l) (is_some l.max_attribute_length) (omega arith)))
          (λ f. absurd (ground (arith, f, cut)))

    bounded_scalar-fits : (x : Scalar N) → scalar_fits l (bounded_scalar l x) ≡ true
    unfolding bounded_scalar
    bounded_scalar-fits (of_string s) = bounded_by-fits s
    bounded_scalar-fits (of_number x) = refl
    bounded_scalar-fits (of_boolean b) = refl

    map-bounded_fit : (xs : List (Scalar N)) → scalars_fit l (map (bounded_scalar l) xs) ≡ true
    map-bounded_fit [] = refl
    map-bounded_fit (x ∷ xs) = ground (arith, bounded_scalar-fits x, map-bounded_fit xs)

    add_first-length :
        (x : Option (Scalar N)) (rest : Option (List (Scalar N))) (n : ℕ)
        → ((ys : List (Scalar N)) → rest ≡ some ys → length ys ≡ n)
        → (ys : List (Scalar N)) → add_first x rest ≡ some ys
        → length ys ≡ suc n
    add_first-length none rest n h ys e = cc
    add_first-length (some x) none n h ys e = cc
    add_first-length (some x) (some xs) n h ys e =
        of_some (λ (zs : List (Scalar N)). length zs ≡ suc n) e (ap suc (h xs refl))

    length-scalars :
        (vs : List (Serialized N)) (ys : List (Scalar N))
        → scalars rt vs ≡ some ys
        → length ys ≡ length vs
    unfolding scalars
    length-scalars [] ys e = of_some (λ (zs : List (Scalar N)). length zs ≡ 0) e refl
    length-scalars (v ∷ vs) ys e =
        add_first-length (scalar rt v) (scalars rt vs) (length vs) (length-scalars vs) ys e

    or_json-fits :
        (json : String) (xs : Option (List (Scalar N)))
        → ((ys : List (Scalar N)) → xs ≡ some ys → length ys ≤ maximum_items l)
        → value_fits l (or_json l json xs) ≡ true
    or_json-fits json none h = bounded_scalar-fits (of_string json)
    or_json-fits json (some xs) h =
        ground (arith, h xs refl, length-map (bounded_scalar l) xs, map-bounded_fit xs)

    single_or_json-fits :
        (json : String) (x : Option (Scalar N)) → value_fits l (single_or_json l json x) ≡ true
    single_or_json-fits json none = bounded_scalar-fits (of_string json)
    single_or_json-fits json (some x) = bounded_scalar-fits x

    -- What holds of the value, if there is one.
    abbrev Fits : Option (AttributeValue N) → Type 0
    Fits none = Unit
    Fits (some v) = value_fits l v ≡ true

    attribute_value-Fits : (v : Serialized N) → Fits (attribute_value rt l v)
    unfolding attribute_value
    attribute_value-Fits nothing = tt
    attribute_value-Fits (flag b) = refl
    attribute_value-Fits (numeric x) =
        single_or_json-fits (rt.stringify (numeric x)) (scalar rt (numeric x))
    attribute_value-Fits (str s) = bounded_scalar-fits (of_string s)
    attribute_value-Fits (fields fs) = bounded_scalar-fits (of_string (rt.stringify (fields fs)))
    attribute_value-Fits (items xs) =
        let kept = take (maximum_items l) (item_list xs) in
        or_json-fits (rt.stringify (items xs)) (scalars rt kept) (λ ys e.
          omega (arith, length-scalars kept ys e, length-take (maximum_items l) (item_list xs)))

    all_fit-insert :
        (name : String) (v : AttributeValue N) (values : Attributes N)
        → size name ≤ 256
        → value_fits l v ≡ true
        → all_fit l values ≡ true
        → all_fit l (insert name v values) ≡ true
    unfolding insert
    all_fit-insert name v [] short fits h = ground (arith, short, fits)
    all_fit-insert name v ((k, w) ∷ values) short fits h =
        if_both (λ (m : Attributes N). all_fit l m ≡ true) (str_eq k name)
          (ground (arith, short, fits, h))
          (ground (arith, h, all_fit-insert name v values short fits (ground (arith, h))))

    abbrev IsBounded : Builder N → Type 0
    IsBounded b =
        (all_fit l b.values ≡ true) × (length b.values ≡ b.count) × (b.count ≤ maximum_attributes l)

    store-IsBounded :
        (name : String) (v : Option (AttributeValue N)) (b : Builder N)
        → size name ≤ 256
        → Fits v
        → (not (exists name b) && leb (maximum_attributes l) b.count) ≡ false
        → IsBounded b
        → IsBounded (store name v b)
    unfolding store
    store-IsBounded name none b short fits room h = h
    store-IsBounded name (some v) b short fits room (fit, counted, bounded) = (
      all_fit-insert name v b.values short fits fit,
      ground (arith, counted, length-insert name v b.values),
      ground (arith, bounded, room),
    )

    set-IsBounded :
        (name : String) (v : Option (Serialized N)) (b : Builder N)
        → IsBounded b
        → IsBounded (set rt l name v b)
    unfolding set
    set-IsBounded name none b h = h
    set-IsBounded name (some v) b h =
        let stop =
          str_eq name ""
          || (not (exists (attribute_name name) b) && leb (maximum_attributes l) b.count) in
        if_cases (λ (t : Builder N). IsBounded t) stop (λ t. h)
          (λ f.
            store-IsBounded (attribute_name name) (attribute_value rt l v) b
              (size-attribute_name name) (attribute_value-Fits v) (ground (arith, f)) h)

    identity-IsBounded : (r : LogRecord N) → IsBounded (add_identity rt l r no_attributes)
    unfolding add_identity
    identity-IsBounded r = set-IsBounded _ _ _ (
        set-IsBounded _ _ _ (
          set-IsBounded _ _ _
            (set-IsBounded _ _ _ (set-IsBounded _ _ _ (refl, refl, omega arith)))))

    -- Where texts are cut, that is unless `maxAttributeLength` is given and not above 0, the
    -- attributes that `write` emits are at most `maxAttributes`; no name is longer than 256, no
    -- text longer than its limit, and no array longer than its limit, whatever the record, the
    -- options and the span hold.
    pub emitted_attributes-all_fit :
        {E : Type 0} (o : RecordOptions N) (r : LogRecord N) (context : Option (SpanContext E N))
        → (all_fit l (emitted_attributes rt l o r context) ≡ true)
          × (length (emitted_attributes rt l o r context) ≤ maximum_attributes l)
    unfolding emitted_attributes
    emitted_attributes-all_fit o r context =
        let keep : Kept rt l IsBounded = λ name v b free h. set-IsBounded name v b h in
        let (fit, counted, bounded) =
          correlation-kept rt l IsBounded keep r context _
            (record-kept rt l IsBounded keep o r no_attributes (identity-IsBounded r)) in
        (fit, omega (arith, counted, bounded))
