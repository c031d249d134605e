-- ===== src/BaseLogger/Serialize/Nodes.antt =====
-- A rule for what `serialize` of src/base-logger.ts builds: a property of the lengths of its lists
-- and of its fields holds everywhere in a result if it holds at each place that builds a node.
use Prim.Native.String.{String}
use mathlib.Core.Path.{subst}
use mathlib.Core.Sum.{inl-injective}
use text.Mathlib.Text.{◌==◌ as str_eq}
use next_loggers_ts.Prelude.{
  ℕ, zero, suc, ◌≤◌, ◌≡◌, refl, ap, ◌⊎◌, inl, inr, List, [], ◌∷◌, Bool, true, false, ◌||◌, Option,
  none, some, ltb, length, take, if◌then◌else◌, arith, if_both, if_cases, length-take,
}
use next_loggers_ts.BaseLogger.Serialize.{
  Limits, Value, null, undefined, boolean, number, string, bigint, symbol, function, object,
  Property, holds, throws, ErrorObject, Cell, error, date, regexp, array, set, map, plain,
  Serialized, nothing, flag, numeric, str, items, fields, Items, nil, cons, Fields, end, field,
  Runtime, put, count_items, push, Outcome, truncate_string, should_redact, redacted,
  cap_collection, and_cons, each, pair, each_entry, capped, read, guarded, each_property,
  put_result, each_error_property, put_stack, put_cause, as_object, serialize_error, put_truncated,
  put_type, serialize_cell, primitive, has_seen, serialize,
}

-- What is asked of the length of a list, and of a field.
pub record Rule (N : Type 0) : Type 1 where
  pub Length : ℕ → Type 0
  pub Field : String → Serialized N → Type 0

unfoldable mutual
  pub All : {N : Type 0} → Rule N → Serialized N → Type 0
  All r nothing = Unit {0}
  All r (flag b) = Unit {0}
  All r (numeric n) = Unit {0}
  All r (str s) = Unit {0}
  All r (items xs) = r.Length (count_items xs) × AllItems r xs
  All r (fields fs) = AllFields r fs

  pub AllItems : {N : Type 0} → Rule N → Items N → Type 0
  AllItems r nil = Unit {0}
  AllItems r (cons x xs) = All r x × AllItems r xs

  pub AllFields : {N : Type 0} → Rule N → Fields N → Type 0
  AllFields r end = Unit {0}
  AllFields r (field k v fs) = r.Field k v × All r v × AllFields r fs

abbrev pub is_own : String → Bool
is_own k =
    str_eq k "name"
    || str_eq k "message"
    || str_eq k "stack"
    || str_eq k "cause"
    || str_eq k "__truncatedKeys"
    || str_eq k "__type"

abbrev pub AllOutcome : {N : Type 0} → Rule N → Outcome N → Type 0
AllOutcome r (inl v) = All r v
AllOutcome r (inr thrown) = Unit {0}

-- A list of at most `n` nodes, if nothing was thrown.
abbrev Collected : {N : Type 0} → Rule N → ℕ → (Items N ⊎ String) → Type 0
Collected r n (inl xs) = AllItems r xs × (count_items xs ≤ n)
Collected r n (inr thrown) = Unit {0}

abbrev AllResult : {N : Type 0} → Rule N → (Fields N ⊎ String) → Type 0
AllResult r (inl fs) = AllFields r fs
AllResult r (inr thrown) = Unit {0}

module _ {N : Type 0} (r : Rule N) where
  put-All :
      (k : String) (v : Serialized N) (fs : Fields N)
      → r.Field k v
      → All r v
      → AllFields r fs
      → AllFields r (put k v fs)
  unfolding put All
  put-All k v end f a h = (f, a, tt)
  put-All k v (field j w fs) f a (g, b, h) =
      if_both (AllFields r) (str_eq j k) (f, a, h) (g, b, put-All k v fs f a h)

  push-All : (v : Serialized N) (xs : Items N) → All r v → AllItems r xs → AllItems r (push v xs)
  unfolding push All
  push-All v nil a h = (a, tt)
  push-All v (cons x xs) a (b, h) = (b, push-All v xs a h)

  and_cons-All :
      (o : Outcome N) (rest : Items N ⊎ String) (n : ℕ)
      → AllOutcome r o
      → Collected r n rest
      → Collected r (suc n) (and_cons o rest)
  unfolding All
  and_cons-All (inr thrown) rest n a h = tt
  and_cons-All (inl x) (inr thrown) n a h = tt
  and_cons-All (inl x) (inl xs) n a (h, k) = ((a, h), omega (arith, k))

count_items-push :
    {N : Type 0} (v : Serialized N) (xs : Items N) → count_items (push v xs) ≡ suc (count_items xs)
unfolding push
count_items-push v nil = refl
count_items-push v (cons x xs) = ap suc (count_items-push v xs)

length-take-le : {A : Type 0} (n : ℕ) (xs : List A) → length (take n xs) ≤ n
length-take-le n xs = omega (arith, length-take n xs)

module _ {N : Type 0} (rt : Runtime N) (limits : Limits) (redact : Option (List String))
    (r : Rule N) (short : (n : ℕ) → n ≤ suc limits.max_array_length → r.Length n) (two : r.Length 2)
    (hidden : (k : String) → r.Field k redacted)
    (shown : (k : String) (v : Serialized N)
      → should_redact rt limits redact k ≡ false
      → r.Field k v)
    (own : (k : String) (v : Serialized N) → is_own k ≡ true → r.Field k v) where
  cap_collection-All :
      (xs : Items N) (total : ℕ)
      → AllItems r xs
      → count_items xs ≤ limits.max_array_length
      → All r (items (cap_collection rt limits redact xs total))
  unfolding cap_collection All
  cap_collection-All xs total h k =
      if_both (λ ys. All r (items ys)) (ltb limits.max_array_length total)
        (short _ (omega (arith, count_items-push)), push-All r _ xs tt h)
        (short _ (omega (arith, k)), h)

  module _ (deeper : Value N → Outcome N) (ih : (v : Value N) → AllOutcome r (deeper v)) where
    each-All : (vs : List (Value N)) → Collected r (length vs) (each rt limits redact deeper vs)
    unfolding each All
    each-All [] = (tt, omega arith)
    each-All (v ∷ vs) = and_cons-All r (deeper v) _ (length vs) (ih v) (each-All vs)

    pair-All : (k v : Outcome N) → AllOutcome r k → AllOutcome r v → AllOutcome r (pair k v)
    unfolding All
    pair-All (inr thrown) v a b = tt
    pair-All (inl k) (inr thrown) a b = tt
    pair-All (inl k) (inl v) a b = (two, (a, (b, tt)))

    each_entry-All :
        (es : List (Value N × Value N))
        → Collected r (length es) (each_entry rt limits redact deeper es)
    unfolding each_entry All
    each_entry-All [] = (tt, omega arith)
    each_entry-All ((k, v) ∷ es) =
        let value : Outcome N =
          if should_redact rt limits redact (rt.key_text k) then inl redacted else deeper v in
        and_cons-All r (pair (deeper k) value) _ (length es)
          (pair-All (deeper k) value (ih k)
            (if_both (AllOutcome r) (should_redact rt limits redact (rt.key_text k)) tt (ih v)))
          (each_entry-All es)

    capped-All :
        (total n : ℕ) (o : Items N ⊎ String)
        → n ≤ limits.max_array_length
        → Collected r n o
        → AllOutcome r (capped rt limits redact deeper total o)
    capped-All total n (inr thrown) h c = tt
    capped-All total n (inl xs) h (a, k) = cap_collection-All xs total a (omega (arith, h, k))

    read-All : (p : Property N) → AllOutcome r (read rt limits redact deeper p)
    read-All (holds v) = ih v
    read-All (throws m) = tt

    guarded-All : (o : Outcome N) → AllOutcome r o → All r (guarded o)
    unfolding All
    guarded-All (inl v) a = a
    guarded-All (inr m) a = tt

    each_property-All :
        (ps : List (String × Property N)) (result : Fields N)
        → AllFields r result
        → AllFields r (each_property rt limits redact deeper ps result)
    unfolding each_property All
    each_property-All [] result h = h
    each_property-All ((k, p) ∷ ps) result h =
        let hide = should_redact rt limits redact k in
        let v = guarded (read rt limits redact deeper p) in
        each_property-All ps _ (
          put-All r k (if hide then redacted else v) result
            (if_cases (r.Field k) hide (λ y. hidden k) (λ n. shown k v n))
            (if_both (All r) hide tt (guarded-All _ (read-All p))) h)

    put_result-All :
        (k : String) (o : Outcome N) (result : Fields N ⊎ String)
        → ((v : Serialized N) → o ≡ inl v → r.Field k v)
        → AllOutcome r o
        → AllResult r result
        → AllResult r (put_result k o result)
    put_result-All k (inl v) (inl fs) f a h = put-All r k v fs (f v refl) a h
    put_result-All k (inr thrown) (inl fs) f a h = tt
    put_result-All k o (inr thrown) f a h = tt

    -- The value of a property is redacted, or its key is not to be.
    shown_or_hidden :
        (k : String) (hide : Bool) (o : Outcome N) (v : Serialized N)
        → should_redact rt limits redact k ≡ hide
        → (if hide then inl redacted else o) ≡ inl v
        → r.Field k v
    shown_or_hidden k true o v h e = subst (r.Field k) (inl-injective _ _ e) (hidden k)
    shown_or_hidden k false o v h e = shown k v h

    each_error_property-All :
        (ps : List (String × Property N)) (result : Fields N ⊎ String)
        → AllResult r result
        → AllResult r (each_error_property rt limits redact deeper ps result)
    unfolding each_error_property All
    each_error_property-All [] result h = h
    each_error_property-All ((k, p) ∷ ps) result h =
        let hide = should_redact rt limits redact k in
        let o = read rt limits redact deeper p in
        each_error_property-All ps _ (
          put_result-All k (if hide then inl redacted else o) result
            (λ v e. shown_or_hidden k hide o v refl e) (if_both (AllOutcome r) hide tt (read-All p))
            h)

    put_stack-All :
        (stack : Option String) (fs : Fields N)
        → AllFields r fs
        → AllFields r (put_stack rt limits redact deeper stack fs)
    unfolding All
    put_stack-All none fs h = h
    put_stack-All (some stack) fs h = if_both (AllFields r) (str_eq stack "") h (
        put-All r "stack" (str (truncate_string rt limits redact stack)) fs (own "stack" _ refl) tt
          h)

    put_cause-All :
        (cause : Option (Value N)) (fs : Fields N)
        → AllFields r fs
        → AllResult r (put_cause rt limits redact deeper cause fs)
    put_cause-All none fs h = h
    put_cause-All (some v) fs h =
        put_result-All "cause" (deeper v) (inl fs) (λ v e. own "cause" v refl) (ih v) h

    as_object-All :
        (result : Fields N ⊎ String) → AllResult r result → AllOutcome r (as_object result)
    unfolding All
    as_object-All (inl fs) h = h
    as_object-All (inr thrown) h = tt

    serialize_error-All :
        (e : ErrorObject N) → AllOutcome r (serialize_error rt limits redact deeper e)
    unfolding serialize_error All
    serialize_error-All e =
        let message : Serialized N = str (truncate_string rt limits redact e.message) in
        let named : Fields N = field "name" (str e.name) (field "message" message end) in
        let named-All : AllFields r named =
          (own "name" _ refl, tt, (own "message" _ refl, tt, tt)) in
        as_object-All _ (
          each_error_property-All e.properties _
            (put_cause-All e.cause _ (put_stack-All e.stack named named-All)))

    put_truncated-All :
        (total : ℕ) (fs : Fields N)
        → AllFields r fs
        → AllFields r (put_truncated rt limits redact deeper total fs)
    unfolding All
    put_truncated-All total fs h =
        if_both (AllFields r) (ltb limits.max_properties total)
          (put-All r "__truncatedKeys" _ fs (own "__truncatedKeys" _ refl) tt h) h

    put_type-All :
        (name : Option String) (fs : Fields N) → AllFields r fs → AllFields r (put_type name fs)
    unfolding All
    put_type-All none fs h = h
    put_type-All (some name) fs h =
        if_both (AllFields r) (str_eq name "" || str_eq name "Object") h
          (put-All r "__type" (str name) fs (own "__type" _ refl) tt h)

    serialize_cell-All : (c : Cell N) → AllOutcome r (serialize_cell rt limits redact deeper c)
    unfolding serialize_cell All
    serialize_cell-All (error e) = serialize_error-All e
    serialize_cell-All (date d) = tt
    serialize_cell-All (regexp s) = tt
    serialize_cell-All (array vs) =
        let kept = take limits.max_array_length vs in
        capped-All (length vs) (length kept) _ (length-take-le _ vs) (each-All kept)
    serialize_cell-All (map es) =
        let kept = take limits.max_array_length es in
        capped-All (length es) (length kept) _ (length-take-le _ es) (each_entry-All kept)
    serialize_cell-All (set vs) =
        let kept = take limits.max_array_length vs in
        capped-All (length vs) (length kept) _ (length-take-le _ vs) (each-All kept)
    serialize_cell-All (plain ps name) =
        put_type-All name _ (
          put_truncated-All (length ps) _
            (each_property-All (take limits.max_properties ps) end tt))

  primitive-All : (v : Value N) → AllOutcome r (primitive rt limits redact v)
  unfolding All
  primitive-All null = tt
  primitive-All undefined = tt
  primitive-All (boolean b) = tt
  primitive-All (number n) = if_both (All r) (rt.is_finite n) tt tt
  primitive-All (string s) = tt
  primitive-All (bigint s) = tt
  primitive-All (symbol s) = tt
  primitive-All (function name) = tt
  primitive-All (object a) = tt

  pub serialize-All :
      (heap : ℕ → Cell N) (left : ℕ) (seen : List ℕ) (v : Value N)
      → AllOutcome r (serialize rt limits redact heap left seen v)
  unfolding serialize All
  serialize-All heap zero seen (object a) = if_both (All r) (has_seen a seen) tt tt
  serialize-All heap (suc left) seen (object a) = if_both (AllOutcome r) (has_seen a seen) tt (
      serialize_cell-All (serialize rt limits redact heap left (a ∷ seen))
        (serialize-All heap left (a ∷ seen)) (heap a))
  serialize-All heap left seen v = primitive-All v
