-- ===== src/BaseLogger/Serialize.antt =====
-- `serialize` and its helpers in src/base-logger.ts. Objects live in a heap, so that a value may
-- reach itself; a property whose getter throws gives the message of its error. How JavaScript
-- prints numbers and keys, and lower case, are the parameter `Runtime`.
pub mod Nodes
pub mod Cells
pub mod Redaction
use Prim.Native.Char.{Char, code}
use Prim.Native.String.{String, ◌++◌ as ◌<>◌}
use text.Mathlib.Text.{◌==◌ as str_eq}
use next_loggers_ts.Prelude.{
  ℕ, zero, suc, ◌+◌, ◌-◌, ◌==◌, ◌⊎◌, inl, inr, List, [], ◌∷◌, Bool, true, false, not, ◌&&◌, ◌||◌,
  Option, none, some, ltb, leb, length, take, if◌then◌else◌,
}

pub record Limits : Type 0 where
  pub max_string_length : ℕ
  pub max_depth : ℕ
  pub max_array_length : ℕ
  pub max_properties : ℕ

abbrev pub default_limits : Limits
default_limits = record {
  max_string_length = 20000;
  max_depth = 12;
  max_array_length = 1000;
  max_properties = 200;
}

abbrev pub default_redacted : List String
default_redacted =
    "password" ∷ "authtoken" ∷ "ssn" ∷ "bankaccount" ∷ "email" ∷ "phone" ∷ "token" ∷ "secret" ∷ []

-- A JavaScript value; `object` is an address in the heap.
pub data Value (N : Type 0) : Type 0 where
  null undefined : Value N
  boolean : Bool → Value N
  number : N → Value N
  string bigint symbol function : String → Value N
  object : ℕ → Value N

-- What reading a property gives.
pub data Property (N : Type 0) : Type 0 where
  holds : Value N → Property N
  throws : String → Property N

pub record ErrorObject (N : Type 0) : Type 0 where
  pub name : String
  pub message : String
  pub stack : Option String
  pub cause : Option (Value N)
  pub properties : List (String × Property N)

pub data Cell (N : Type 0) : Type 0 where
  error : ErrorObject N → Cell N
  date : Option String → Cell N
  regexp : String → Cell N
  array set : List (Value N) → Cell N
  map : List (Value N × Value N) → Cell N
  plain : List (String × Property N) → Option String → Cell N

mutual
  pub data Serialized (N : Type 0) : Type 0 where
    nothing : Serialized N
    flag : Bool → Serialized N
    numeric : N → Serialized N
    str : String → Serialized N
    items : Items N → Serialized N
    fields : Fields N → Serialized N

  pub data Items (N : Type 0) : Type 0 where
    nil : Items N
    cons : Serialized N → Items N → Items N

  pub data Fields (N : Type 0) : Type 0 where
    end : Fields N
    field : String → Serialized N → Fields N → Fields N

pub record Runtime (N : Type 0) : Type 0 where
  pub is_finite : N → Bool
  pub number_text : N → String
  pub count : ℕ → N
  pub digits : ℕ → String
  pub to_lower : String → String
  pub key_text : Value N → String

abbrev pub size : String → ℕ
size String.[] = 0
size (String.◌∷◌ c s) = suc (size s)

abbrev pub slice : ℕ → String → String
slice n String.[] = String.[]
slice zero (String.◌∷◌ c s) = String.[]
slice (suc n) (String.◌∷◌ c s) = String.◌∷◌ c (slice n s)

abbrev pub begins : String → String → Bool
begins s String.[] = true
begins String.[] (String.◌∷◌ d p) = false
begins (String.◌∷◌ c s) (String.◌∷◌ d p) = code c == code d && begins s p

unfoldable pub includes : String → String → Bool
includes String.[] p = begins String.[] p
includes (String.◌∷◌ c s) p = begins (String.◌∷◌ c s) p || includes s p

abbrev pub any_includes : String → List String → Bool
any_includes s [] = false
any_includes s (p ∷ ps) = includes s p || any_includes s ps

module _ {N : Type 0} where
  -- `result[key] = value` on a fresh object.
  unfoldable pub put : String → Serialized N → Fields N → Fields N
  put k v end = field k v end
  put k v (field j w fs) = if str_eq j k then field k v fs else field j w (put k v fs)

  abbrev pub count_items : Items N → ℕ
  count_items nil = 0
  count_items (cons x xs) = suc (count_items xs)

  abbrev pub count_fields : Fields N → ℕ
  count_fields end = 0
  count_fields (field k v fs) = suc (count_fields fs)

  -- `serialized.push(marker)`.
  unfoldable pub push : Serialized N → Items N → Items N
  push v nil = cons v nil
  push v (cons x xs) = cons x (push v xs)

-- A serialized value, or the message of an error that a getter threw.
abbrev pub Outcome : Type 0 → Type 0
Outcome N = Serialized N ⊎ String

abbrev date_text : Option String → String
date_text none = "Invalid Date"
date_text (some iso) = iso

abbrev pub function_text : String → String
function_text name = if str_eq name "" then "[Function]" else ("[Function: " <> name) <> "]"

abbrev pub has_seen : ℕ → List ℕ → Bool
has_seen a [] = false
has_seen a (b ∷ bs) = a == b || has_seen a bs

module _ {N : Type 0} where
  abbrev pub redacted : Serialized N
  redacted = str "[REDACTED]"

  abbrev pub circular : Serialized N
  circular = str "[Circular]"

  abbrev pub and_cons : Outcome N → (Items N ⊎ String) → Items N ⊎ String
  and_cons (inr thrown) rest = inr thrown
  and_cons (inl x) (inr thrown) = inr thrown
  and_cons (inl x) (inl xs) = inl (cons x xs)

  abbrev pub pair : Outcome N → Outcome N → Outcome N
  pair (inr thrown) v = inr thrown
  pair (inl k) (inr thrown) = inr thrown
  pair (inl k) (inl v) = inl (items (cons k (cons v nil)))

  -- A property of a plain object that throws spoils itself only.
  abbrev pub guarded : Outcome N → Serialized N
  guarded (inl v) = v
  guarded (inr message) = str (("[Unserializable: " <> message) <> "]")

  abbrev pub put_result : String → Outcome N → (Fields N ⊎ String) → Fields N ⊎ String
  put_result k (inl v) (inl result) = inl (put k v result)
  put_result k (inr thrown) (inl result) = inr thrown
  put_result k v (inr thrown) = inr thrown

  abbrev pub as_object : (Fields N ⊎ String) → Outcome N
  as_object (inl result) = inl (fields result)
  as_object (inr thrown) = inr thrown

  abbrev pub put_type : Option String → Fields N → Fields N
  put_type none result = result
  put_type (some name) result =
      if str_eq name "" || str_eq name "Object" then result else put "__type" (str name) result

module _ {N : Type 0} (rt : Runtime N) (limits : Limits) (redact : Option (List String)) where
  unfoldable pub truncate_string : String → String
  truncate_string value =
      if leb limits.max_string_length 0 || leb (size value) limits.max_string_length
      then value
      else (slice limits.max_string_length value
          <> (("…[truncated " <> rt.digits (size value - limits.max_string_length)) <> " chars]"))

  abbrev pub matches : Option (List String) → String → Bool
  matches none key = false
  matches (some patterns) key = any_includes (rt.to_lower key) patterns

  unfoldable pub should_redact : String → Bool
  should_redact key = matches redact key

  unfoldable pub cap_collection : Items N → ℕ → Items N
  cap_collection serialized total =
      let marker =
        ((("[+" <> rt.digits (total - limits.max_array_length)) <> " more of ") <> rt.digits total)
        <> "]" in
      if ltb limits.max_array_length total then push (str marker) serialized else serialized

  -- What is in a collection is serialized one level deeper, by `deeper`.
  module _ (deeper : Value N → Outcome N) where
    unfoldable pub each : List (Value N) → Items N ⊎ String
    each [] = inl nil
    each (v ∷ vs) = and_cons (deeper v) (each vs)

    unfoldable pub each_entry : List (Value N × Value N) → Items N ⊎ String
    each_entry [] = inl nil
    each_entry ((k, v) ∷ entries) =
        let value = if should_redact (rt.key_text k) then inl redacted else deeper v in
        and_cons (pair (deeper k) value) (each_entry entries)

    abbrev pub capped : ℕ → (Items N ⊎ String) → Outcome N
    capped total (inr thrown) = inr thrown
    capped total (inl xs) = inl (items (cap_collection xs total))

    abbrev pub read : Property N → Outcome N
    read (holds v) = deeper v
    read (throws message) = inr message

    unfoldable pub each_property : List (String × Property N) → Fields N → Fields N
    each_property [] result = result
    each_property ((k, p) ∷ ps) result =
        each_property ps (put k (if should_redact k then redacted else guarded (read p)) result)

    -- The own properties of an error; one that throws is not caught here.
    unfoldable pub each_error_property :
        List (String × Property N) → (Fields N ⊎ String) → Fields N ⊎ String
    each_error_property [] result = result
    each_error_property ((k, p) ∷ ps) result =
        each_error_property ps
          (put_result k (if should_redact k then inl redacted else read p) result)

    abbrev pub put_stack : Option String → Fields N → Fields N
    put_stack none result = result
    put_stack (some stack) result =
        if str_eq stack "" then result else put "stack" (str (truncate_string stack)) result

    abbrev pub put_cause : Option (Value N) → Fields N → Fields N ⊎ String
    put_cause none result = inl result
    put_cause (some cause) result = put_result "cause" (deeper cause) (inl result)

    unfoldable pub serialize_error : ErrorObject N → Outcome N
    serialize_error e =
        let named =
          field "name" (str e.name) (field "message" (str (truncate_string e.message)) end) in
        as_object (each_error_property e.properties (put_cause e.cause (put_stack e.stack named)))

    abbrev pub put_truncated : ℕ → Fields N → Fields N
    put_truncated total result =
        if ltb limits.max_properties total
        then put "__truncatedKeys" (numeric (rt.count (total - limits.max_properties))) result
        else result

    unfoldable pub serialize_cell : Cell N → Outcome N
    serialize_cell (error e) = serialize_error e
    serialize_cell (date d) = inl (str (date_text d))
    serialize_cell (regexp s) = inl (str s)
    serialize_cell (array vs) = capped (length vs) (each (take limits.max_array_length vs))
    serialize_cell (map entries) =
        capped (length entries) (each_entry (take limits.max_array_length entries))
    serialize_cell (set vs) = capped (length vs) (each (take limits.max_array_length vs))
    serialize_cell (plain ps name) = inl (
        fields (
          put_type name
            (put_truncated (length ps) (each_property (take limits.max_properties ps) end))))

  abbrev pub too_deep : Serialized N
  too_deep = str (("[Max depth " <> rt.digits limits.max_depth) <> " exceeded]")

  -- A value that is no object.
  abbrev pub primitive : Value N → Outcome N
  primitive null = inl nothing
  primitive undefined = inl (str "[undefined]")
  primitive (boolean b) = inl (flag b)
  primitive (number n) = inl (if rt.is_finite n then numeric n else str (rt.number_text n))
  primitive (string s) = inl (str (truncate_string s))
  primitive (bigint s) = inl (str (s <> "n"))
  primitive (symbol s) = inl (str s)
  primitive (function name) = inl (str (function_text name))
  primitive (object a) = inl circular

  -- `left` is `maxDepth - depth`. The objects that are being serialized are `seen`.
  unfoldable pub serialize : (ℕ → Cell N) → ℕ → List ℕ → Value N → Outcome N
  serialize heap zero seen (object a) = inl (if has_seen a seen then circular else too_deep)
  serialize heap (suc left) seen (object a) =
      let cell = serialize_cell (serialize heap left (a ∷ seen)) (heap a) in
      if has_seen a seen then inl circular else cell
  serialize heap left seen v = primitive v

  unfoldable pub serialize_log_value : (ℕ → Cell N) → Value N → Outcome N
  serialize_log_value heap v = serialize heap limits.max_depth [] v
