-- ===== src/OpenTelemetry.antt =====
-- src/otel.ts: attributes with limits, in this file; its parts in child modules. A JavaScript
-- number that limits something is a `Number`; one that is logged is of the parameter type N. Where
-- the source counts UTF-16 units, these count characters; an object is the list of its entries,
-- in which `__proto__` is a key as any other.
pub mod Records
pub mod Texts
pub mod Sets
pub mod Bounds
pub mod Identity
pub mod Labels
pub mod Transport
pub mod Calls
pub mod Provider
pub mod Spans
pub mod Tests
use Prim.Native.String.{String, ◌++◌ as ◌<>◌}
use text.Mathlib.Text.{◌==◌ as str_eq}
use next_loggers_ts.Prelude.{
  ℕ, ◌+◌, ◌-◌, max, List, [], ◌∷◌, Bool, true, false, not, ◌&&◌, ◌||◌, Option, none, some, is_some,
  map, take, ltb, leb, if◌then◌else◌,
}
use next_loggers_ts.Cli.Text.{lookup, insert}
use next_loggers_ts.BaseLogger.Serialize.{
  Serialized, nothing, flag, numeric, str, items, fields, Items, nil, cons, size, slice,
}

-- `fraction n` lies between n and n + 1; NaN and the infinities are `not_finite`.
pub data Number : Type 0 where
  whole fraction : ℕ → Number
  negative not_finite : Number

-- What the source asks of the language and its library: `stringify` is `JSON.stringify` with the
-- fallback of `stableJson`, and `to_text` is `String`.
pub record Runtime (N : Type 0) : Type 0 where
  pub is_finite : N → Bool
  pub is_whole : N → Bool
  pub at_most : N → N → Bool
  pub number : ℕ → N
  pub stringify : Serialized N → String
  pub to_text : Serialized N → String
  pub is_zero : N → Bool
  pub is_blank : String → Bool

pub record AttributeLimits : Type 0 where
  pub max_attributes : Option Number
  pub max_attribute_value_length : Option Number
  pub max_array_length : Option Number
  pub max_attribute_length : Option Number
  pub max_attribute_array_length : Option Number

pub data Scalar (N : Type 0) : Type 0 where
  of_string : String → Scalar N
  of_number : N → Scalar N
  of_boolean : Bool → Scalar N

pub data AttributeValue (N : Type 0) : Type 0 where
  single : Scalar N → AttributeValue N
  several : List (Scalar N) → AttributeValue N

abbrev pub Attributes : Type 0 → Type 0
Attributes N = List (String × AttributeValue N)

abbrev pub positive_integer : Option Number → ℕ → ℕ
positive_integer none fallback = fallback
positive_integer (some (whole n)) fallback = if ltb 0 n then n else fallback
positive_integer (some (fraction n)) fallback = fallback
positive_integer (some negative) fallback = fallback
positive_integer (some not_finite) fallback = fallback

-- `Number.isFinite(maximum) && maximum > 0`.
abbrev pub is_positive : Number → Bool
is_positive (whole n) = ltb 0 n
is_positive (fraction n) = true
is_positive negative = false
is_positive not_finite = false

abbrev pub floor : Number → ℕ → ℕ
floor (whole n) infinite = n
floor (fraction n) infinite = n
floor negative infinite = 0
floor not_finite infinite = infinite

abbrev pub truncated : String
truncated = "…[truncated]"

unfoldable pub shorten : String → ℕ → Bool → String
shorten value limit marker =
    if leb (size value) limit
    then value
    else if not marker
    then slice (limit - 1) value <> "…"
    else if leb limit (size truncated)
    then slice limit truncated
    else slice (limit - size truncated) value <> truncated

unfoldable pub bounded_string : String → Number → Bool → String
bounded_string value maximum marker =
    if is_positive maximum then shorten value (max 1 (floor maximum 0)) marker else value

abbrev pub length_limit : Option Number → Option Number → Number
length_limit none plain = whole (positive_integer plain 4096)
length_limit (some alias) plain = if is_positive alias then alias else not_finite

abbrev pub array_limit : Option Number → Option Number → ℕ
array_limit none plain = positive_integer plain 64
array_limit (some alias) plain = max 1 (floor alias 64)

-- The limits as `attributeValue` reads them.
abbrev pub maximum_length : AttributeLimits → Number
maximum_length l = length_limit l.max_attribute_length l.max_attribute_value_length

abbrev pub maximum_items : AttributeLimits → ℕ
maximum_items l = array_limit l.max_attribute_array_length l.max_array_length

abbrev pub bounded_by : AttributeLimits → String → String
bounded_by l value = bounded_string value (maximum_length l) (is_some l.max_attribute_length)

module _ {N : Type 0} where
  abbrev pub scalar : Runtime N → Serialized N → Option (Scalar N)
  scalar rt nothing = none
  scalar rt (flag b) = some (of_boolean b)
  scalar rt (numeric x) = if rt.is_finite x then some (of_number x) else none
  scalar rt (str s) = some (of_string s)
  scalar rt (items xs) = none
  scalar rt (fields fs) = none

  abbrev pub item_list : Items N → List (Serialized N)
  item_list nil = []
  item_list (cons x xs) = x ∷ item_list xs

  abbrev pub add_first : Option (Scalar N) → Option (List (Scalar N)) → Option (List (Scalar N))
  add_first none rest = none
  add_first (some x) none = none
  add_first (some x) (some xs) = some (x ∷ xs)

  -- The items when each of them is a scalar.
  unfoldable pub scalars : Runtime N → List (Serialized N) → Option (List (Scalar N))
  scalars rt [] = some []
  scalars rt (x ∷ xs) = add_first (scalar rt x) (scalars rt xs)

  unfoldable pub bounded_scalar : AttributeLimits → Scalar N → Scalar N
  bounded_scalar l (of_string s) = of_string (bounded_by l s)
  bounded_scalar l (of_number x) = of_number x
  bounded_scalar l (of_boolean b) = of_boolean b

  abbrev pub or_json : AttributeLimits → String → Option (List (Scalar N)) → AttributeValue N
  or_json l json none = single (bounded_scalar l (of_string json))
  or_json l json (some xs) = several (map (bounded_scalar l) xs)

  abbrev pub single_or_json : AttributeLimits → String → Option (Scalar N) → AttributeValue N
  single_or_json l json none = single (bounded_scalar l (of_string json))
  single_or_json l json (some x) = single (bounded_scalar l x)

  unfoldable pub attribute_value :
      Runtime N → AttributeLimits → Serialized N → Option (AttributeValue N)
  attribute_value rt l nothing = none
  attribute_value rt l (items xs) =
      some
        (or_json l (rt.stringify (items xs)) (scalars rt (take (maximum_items l) (item_list xs))))
  attribute_value rt l (flag b) = some (single (of_boolean b))
  attribute_value rt l (numeric x) =
      some (single_or_json l (rt.stringify (numeric x)) (scalar rt (numeric x)))
  attribute_value rt l (str s) = some (single (bounded_scalar l (of_string s)))
  attribute_value rt l (fields fs) =
      some (single (bounded_scalar l (of_string (rt.stringify (fields fs)))))

-- `AttributeBuilder`.
pub record Builder (N : Type 0) : Type 0 where
  pub values : Attributes N
  pub count : ℕ

abbrev pub maximum_attributes : AttributeLimits → ℕ
maximum_attributes l = positive_integer l.max_attributes 128

abbrev pub attribute_name : String → String
attribute_name name = bounded_string name (whole 256) false

module _ {N : Type 0} where
  abbrev pub no_attributes : Builder N
  no_attributes = record { values = []; count = 0 }

  abbrev pub exists : String → Builder N → Bool
  exists name b = is_some (lookup name b.values)

  unfoldable pub store : String → Option (AttributeValue N) → Builder N → Builder N
  store name none b = b
  store name (some converted) b = record b {
    count = if exists name b then b.count else b.count + 1;
    values = insert name converted b.values;
  }

  unfoldable pub set :
      Runtime N → AttributeLimits → String → Option (Serialized N) → Builder N → Builder N
  set rt l name none b = b
  set rt l name (some value) b =
      let normalized = attribute_name name in
      if str_eq name "" || (not (exists normalized b) && leb (maximum_attributes l) b.count)
      then b
      else store normalized (attribute_value rt l value) b
