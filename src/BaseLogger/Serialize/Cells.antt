-- ===== src/BaseLogger/Serialize/Cells.antt =====
-- What `serialize` of src/base-logger.ts leaves of the keys of one object, error or map.
use Prim.Native.String.{String}
use text.Mathlib.Text.{◌==◌ as str_eq}
use next_loggers_ts.Prelude.{
  ℕ, ◌≡◌, refl, inl, inr, ◌⊎◌, List, [], ◌∷◌, Bool, true, false, not, ◌&&◌, ◌||◌, Option, none,
  some, implies, ltb, length, take, if◌then◌else◌, arith, if_both,
}
use next_loggers_ts.BaseLogger.Serialize.{
  Limits, Value, Property, ErrorObject, Cell, error, date, regexp, array, set, map, plain,
  Serialized, str, items, fields, Items, nil, cons, Fields, end, field, Runtime, put, push, Outcome,
  should_redact, redacted, cap_collection, and_cons, pair, each_entry, capped, read, guarded,
  each_property, put_result, each_error_property, put_stack, put_cause, as_object, serialize_error,
  put_truncated, put_type, serialize_cell,
}

abbrev pub is_redacted : {N : Type 0} → Serialized N → Bool
is_redacted (str s) = str_eq s "[REDACTED]"
is_redacted _ = false

-- The keys that the serializer adds to an object, and those of an error.
abbrev pub is_note : String → Bool
is_note k = str_eq k "__truncatedKeys" || str_eq k "__type"

abbrev pub is_error_key : String → Bool
is_error_key k = str_eq k "name" || str_eq k "message" || str_eq k "stack" || str_eq k "cause"

abbrev pub all_fields : {N : Type 0} → (String → Serialized N → Bool) → Fields N → Bool
all_fields p end = true
all_fields p (field k v fs) = p k v && all_fields p fs

all_fields-put :
    {N : Type 0} (p : String → Serialized N → Bool) (k : String) (v : Serialized N) (fs : Fields N)
    → p k v ≡ true
    → all_fields p fs ≡ true
    → all_fields p (put k v fs) ≡ true
unfolding put
all_fields-put p k v end f h = ground (arith, f)
all_fields-put {N} p k v (field j w fs) f h =
    if_both (λ (m : Fields N). all_fields p m ≡ true) (str_eq j k) (ground (arith, f, h))
      (ground (arith, h, all_fields-put p k v fs f (ground (arith, h))))

added_key : (hide x : Bool) → implies (hide && false) x ≡ true
added_key true x = refl
added_key false x = refl

kept_key : (added x : Bool) → implies (false && not added) x ≡ true
kept_key added x = refl

hidden_key : (b x : Bool) → x ≡ true → implies b x ≡ true
hidden_key true x h = h
hidden_key false x h = refl

both : (a b : Bool) → a ≡ true → b ≡ true → (a && b) ≡ true
both true b h k = k
both false b h k = cc

module _ {N : Type 0} (rt : Runtime N) (limits : Limits) (redact : Option (List String)) where
  abbrev pub field_hidden : (String → Bool) → String → Serialized N → Bool
  field_hidden added k v =
      implies (should_redact rt limits redact k && not (added k)) (is_redacted v)

  abbrev pub fields_hidden : (String → Bool) → Fields N → Bool
  fields_hidden added fs = all_fields (field_hidden added) fs

  -- The pair that stands for a map's entry with this key.
  abbrev pub entry_hidden : Value N → Serialized N → Bool
  entry_hidden k (items (cons key (cons value nil))) =
      implies (should_redact rt limits redact (rt.key_text k)) (is_redacted value)
  entry_hidden k _ = false

  -- The pairs of these entries stand first.
  abbrev pub entries_hidden : List (Value N × Value N) → Items N → Bool
  entries_hidden [] xs = true
  entries_hidden (e ∷ es) nil = false
  entries_hidden ((k, v) ∷ es) (cons x xs) = entry_hidden k x && entries_hidden es xs

  abbrev pub cell_hidden : Cell N → Serialized N → Bool
  cell_hidden (plain ps name) (fields fs) = fields_hidden is_note fs
  cell_hidden (plain ps name) _ = false
  cell_hidden (error e) (fields fs) = fields_hidden is_error_key fs
  cell_hidden (error e) _ = false
  cell_hidden (map es) (items xs) = entries_hidden (take limits.max_array_length es) xs
  cell_hidden (map es) _ = false
  cell_hidden (date d) v = true
  cell_hidden (regexp s) v = true
  cell_hidden (array vs) v = true
  cell_hidden (set vs) v = true

  abbrev pub outcome_hidden : Cell N → Outcome N → Bool
  outcome_hidden c (inl v) = cell_hidden c v
  outcome_hidden c (inr thrown) = true

  entries_hidden-push :
      (es : List (Value N × Value N)) (v : Serialized N) (xs : Items N)
      → entries_hidden es xs ≡ true
      → entries_hidden es (push v xs) ≡ true
  unfolding push
  entries_hidden-push [] v xs h = refl
  entries_hidden-push (e ∷ es) v nil h = absurd (ground (arith, h))
  entries_hidden-push ((k, w) ∷ es) v (cons x xs) h =
      ground (arith, h, entries_hidden-push es v xs (ground (arith, h)))

  abbrev collected_hidden : List (Value N × Value N) → (Items N ⊎ String) → Bool
  collected_hidden es (inl xs) = entries_hidden es xs
  collected_hidden es (inr thrown) = true

  hide_if :
      (hide added : Bool) (v : Serialized N)
      → implies (hide && not added) (is_redacted (if hide then redacted else v)) ≡ true
  hide_if true added v = hidden_key (not added) true refl
  hide_if false added v = refl

  module _ (deeper : Value N → Outcome N) where
    paired :
        (hide : Bool) (k v : Value N) (a b : Serialized N) (es : List (Value N × Value N))
        (rest : Items N ⊎ String)
        → should_redact rt limits redact (rt.key_text k) ≡ hide
        → implies hide (is_redacted b) ≡ true
        → collected_hidden es rest ≡ true
        → collected_hidden ((k, v) ∷ es) (and_cons (inl (items (cons a (cons b nil)))) rest) ≡ true
    paired hide k v a b es (inr thrown) e f h = refl
    paired hide k v a b es (inl xs) e f h = both _ _ (rw e f) h

    pair_hidden :
        (hide : Bool) (k v : Value N) (key value : Outcome N) (es : List (Value N × Value N))
        (rest : Items N ⊎ String)
        → should_redact rt limits redact (rt.key_text k) ≡ hide
        → collected_hidden es rest ≡ true
        → collected_hidden
            ((k, v) ∷ es)
            (and_cons (pair key (if hide then inl redacted else value)) rest)
          ≡ true
    pair_hidden hide k v (inr thrown) value es rest e h = refl
    pair_hidden true k v (inl a) value es rest e h = paired true k v a redacted es rest e refl h
    pair_hidden false k v (inl a) (inr thrown) es rest e h = refl
    pair_hidden false k v (inl a) (inl b) es rest e h = paired false k v a b es rest e refl h

    each_entry_hidden :
        (es : List (Value N × Value N))
        → collected_hidden es (each_entry rt limits redact deeper es) ≡ true
    unfolding each_entry
    each_entry_hidden [] = refl
    each_entry_hidden ((k, v) ∷ es) =
        pair_hidden (should_redact rt limits redact (rt.key_text k)) k v (deeper k) (deeper v) es
          (each_entry rt limits redact deeper es) refl (each_entry_hidden es)

    map_hidden :
        (total : ℕ) (es : List (Value N × Value N)) (o : Items N ⊎ String)
        → collected_hidden (take limits.max_array_length es) o ≡ true
        → outcome_hidden (map es) (capped rt limits redact deeper total o) ≡ true
    unfolding cap_collection
    map_hidden total es (inr thrown) h = refl
    map_hidden total es (inl xs) h =
        let kept = take limits.max_array_length es in
        if_both (λ (ys : Items N). entries_hidden kept ys ≡ true)
          (ltb limits.max_array_length total) (entries_hidden-push kept _ xs h) h

    each_property_hidden :
        (ps : List (String × Property N)) (result : Fields N)
        → fields_hidden is_note result ≡ true
        → fields_hidden is_note (each_property rt limits redact deeper ps result) ≡ true
    unfolding each_property
    each_property_hidden [] result h = h
    each_property_hidden ((k, p) ∷ ps) result h =
        let hide = should_redact rt limits redact k in
        let v = guarded (read rt limits redact deeper p) in
        each_property_hidden ps _ (
          all_fields-put (field_hidden is_note) k (if hide then redacted else v) result
            (hide_if hide (is_note k) v) h)

    plain_hidden :
        (total : ℕ) (name : Option String) (fs : Fields N)
        → fields_hidden is_note fs ≡ true
        → fields_hidden is_note (put_type name (put_truncated rt limits redact deeper total fs))
          ≡ true
    plain_hidden total name fs h = typed name (put_truncated rt limits redact deeper total fs) (
        if_both (λ (m : Fields N). fields_hidden is_note m ≡ true) (ltb limits.max_properties total)
          (all_fields-put (field_hidden is_note) "__truncatedKeys" _ fs
            (added_key (should_redact rt limits redact "__truncatedKeys") _) h)
          h)
      where
        typed :
            (given : Option String) (m : Fields N)
            → fields_hidden is_note m ≡ true
            → fields_hidden is_note (put_type given m) ≡ true
        typed none m h = h
        typed (some given) m h =
            if_both (λ (n : Fields N). fields_hidden is_note n ≡ true)
              (str_eq given "" || str_eq given "Object") h
              (all_fields-put (field_hidden is_note) "__type" (str given) m
                (added_key (should_redact rt limits redact "__type") _) h)

    abbrev result_hidden : (Fields N ⊎ String) → Bool
    result_hidden (inl fs) = fields_hidden is_error_key fs
    result_hidden (inr thrown) = true

    put_result_hidden :
        (k : String) (hide : Bool) (o : Outcome N) (result : Fields N ⊎ String)
        → should_redact rt limits redact k ≡ hide
        → result_hidden result ≡ true
        → result_hidden (put_result k (if hide then inl redacted else o) result) ≡ true
    put_result_hidden k hide o (inr thrown) e h = refl
    put_result_hidden k true o (inl fs) e h =
        all_fields-put (field_hidden is_error_key) k redacted fs (hidden_key _ true refl) h
    put_result_hidden k false (inl v) (inl fs) e h =
        all_fields-put (field_hidden is_error_key) k v fs (rw e refl) h
    put_result_hidden k false (inr thrown) (inl fs) e h = refl

    each_error_property_hidden :
        (ps : List (String × Property N)) (result : Fields N ⊎ String)
        → result_hidden result ≡ true
        → result_hidden (each_error_property rt limits redact deeper ps result) ≡ true
    unfolding each_error_property
    each_error_property_hidden [] result h = h
    each_error_property_hidden ((k, p) ∷ ps) result h = each_error_property_hidden ps _ (
        put_result_hidden k (should_redact rt limits redact k) (read rt limits redact deeper p)
          result refl h)

    put_stack_hidden :
        (stack : Option String) (fs : Fields N)
        → fields_hidden is_error_key fs ≡ true
        → fields_hidden is_error_key (put_stack rt limits redact deeper stack fs) ≡ true
    put_stack_hidden none fs h = h
    put_stack_hidden (some stack) fs h =
        if_both (λ (m : Fields N). fields_hidden is_error_key m ≡ true) (str_eq stack "") h
          (all_fields-put (field_hidden is_error_key) "stack" _ fs
            (added_key (should_redact rt limits redact "stack") _) h)

    put_cause_hidden :
        (cause : Option (Value N)) (fs : Fields N)
        → fields_hidden is_error_key fs ≡ true
        → result_hidden (put_cause rt limits redact deeper cause fs) ≡ true
    put_cause_hidden none fs h = h
    put_cause_hidden (some v) fs h = cause_hidden (deeper v)
      where
        cause_hidden : (o : Outcome N) → result_hidden (put_result "cause" o (inl fs)) ≡ true
        cause_hidden (inl w) =
            all_fields-put (field_hidden is_error_key) "cause" w fs
              (added_key (should_redact rt limits redact "cause") _) h
        cause_hidden (inr thrown) = refl

    error_hidden :
        (e : ErrorObject N) (result : Fields N ⊎ String)
        → result_hidden result ≡ true
        → outcome_hidden (error e) (as_object result) ≡ true
    error_hidden e (inl fs) h = h
    error_hidden e (inr thrown) h = refl

    list_hidden :
        (c : Cell N) (total : ℕ) (o : Items N ⊎ String)
        → ((v : Serialized N) → cell_hidden c v ≡ true)
        → outcome_hidden c (capped rt limits redact deeper total o) ≡ true
    list_hidden c total (inl xs) h = h _
    list_hidden c total (inr thrown) h = refl

    pub serialize_cell_hidden :
        (c : Cell N) → outcome_hidden c (serialize_cell rt limits redact deeper c) ≡ true
    unfolding serialize_cell serialize_error
    serialize_cell_hidden (error e) = error_hidden e _ (
        each_error_property_hidden e.properties _ (
          put_cause_hidden e.cause _ (
            put_stack_hidden e.stack _ (
              both _ _ (added_key (should_redact rt limits redact "name") _)
                (both _ _ (added_key (should_redact rt limits redact "message") _) refl)))))
    serialize_cell_hidden (date d) = refl
    serialize_cell_hidden (regexp s) = refl
    serialize_cell_hidden (array vs) = list_hidden (array vs) (length vs) _ (λ v. refl)
    serialize_cell_hidden (map es) =
        map_hidden (length es) es _ (each_entry_hidden (take limits.max_array_length es))
    serialize_cell_hidden (set vs) = list_hidden (set vs) (length vs) _ (λ v. refl)
    serialize_cell_hidden (plain ps name) =
        plain_hidden (length ps) name _
          (each_property_hidden (take limits.max_properties ps) end refl)
