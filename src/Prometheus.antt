-- ===== src/Prometheus.antt =====
-- src/prometheus.ts: labels, series and values of a metric. A JavaScript number is the parameter
-- `Numbers`; a `Map` is the list of its entries; `JSON.stringify` is a parameter.
pub mod Bounds
pub mod Values
pub mod Histogram
pub mod Reading
pub mod Cardinality
pub mod Escaping
pub mod Rendering
pub mod Tests
use Prim.Native.Char.{Char, code}
use Prim.Native.String.{String, ◌++◌ as ◌<>◌}
use next_loggers_ts.Prelude.{
  ℕ, ◌+◌, ◌-◌, ◌⊎◌, inl, inr, max, List, [], ◌∷◌, ◌++◌, map, Bool, true, false, not, ◌&&◌, ◌||◌,
  Option, none, some, or_else, is_some, length, leb, if◌then◌else◌,
}
use package.text.Mathlib.Text.{◌==◌ as str_eq}
use next_loggers_ts.Cli.Text.{is_char, is_digit, tail, member, lookup, insert}

-- The JavaScript numbers as the metrics use them.
pub record Numbers (N : Type 0) : Type 0 where
  pub zero_value : N
  pub plus : N → N → N
  pub negate : N → N
  pub is_finite : N → Bool
  pub is_negative : N → Bool
  pub at_most : N → N → Bool
  pub number_text : N → String

pub data MetricLabelValue (N : Type 0) : Type 0 where
  text : String → MetricLabelValue N
  number : N → MetricLabelValue N
  boolean : Bool → MetricLabelValue N

-- `LABEL_NAME.test(name)`.
abbrev pub is_letter : Char → Bool
is_letter c =
    ((leb b'a' (code c) && leb (code c) b'z') || (leb b'A' (code c) && leb (code c) b'Z'))
    || is_char c b'_'

abbrev pub all_name_chars : String → Bool
all_name_chars String.[] = true
all_name_chars (String.◌∷◌ c s) = (is_letter c || is_digit c) && all_name_chars s

abbrev pub is_label_identifier : String → Bool
is_label_identifier String.[] = false
is_label_identifier (String.◌∷◌ c s) = is_letter c && all_name_chars s

abbrev starts_underscore : String → Bool
starts_underscore String.[] = false
starts_underscore (String.◌∷◌ c s) = is_char c b'_'

abbrev starts_underscores : String → Bool
starts_underscores s = starts_underscore s && starts_underscore (tail s)

-- `assertLabelName` accepts.
abbrev pub accepts_label_name : String → Bool
accepts_label_name name =
    is_label_identifier name && not (starts_underscores name) && not (str_eq name "le")

-- The options of a metric, as its constructor leaves them.
pub record Metric : Type 0 where
  pub label_names : List String
  pub max_series : ℕ
  pub max_label_value_length : ℕ
  pub reserve_overflow : Bool

pub record NormalizedLabels : Type 0 where
  pub key : String
  pub rendered : String

pub data MetricError : Type 0 where
  unexpected_labels missing_labels : List String → MetricError
  negative_increment not_finite : MetricError

-- The series that a metric knows, with their rendered labels, and how many labels were refused.
pub record Series : Type 0 where
  pub label_text : List (String × String)
  pub dropped : ℕ

abbrev pub no_series : Series
no_series = record { label_text = []; dropped = 0 }

abbrev pub size : String → ℕ
size String.[] = 0
size (String.◌∷◌ c s) = size s + 1

unfoldable pub slice : ℕ → String → String
slice n String.[] = String.[]
slice n (String.◌∷◌ c s) =
    let rest = slice (n - 1) s in if leb n 0 then String.[] else String.◌∷◌ c rest

abbrev pub bounded_label_value : String → ℕ → String
bounded_label_value value maximum =
    if leb (size value) maximum then value else slice (max 0 (maximum - 1)) value <> "…"

-- `value.replace(/c/gu, by)` for a character.
unfoldable pub replace : ℕ → String → String → String
replace n by String.[] = String.[]
replace n by (String.◌∷◌ c s) =
    let rest = replace n by s in if is_char c n then by <> rest else String.◌∷◌ c rest

abbrev pub escape_label : String → String
escape_label value = replace b'"' "\\\"" (replace b'\n' "\\n" (replace b'\\' "\\\\" value))

abbrev names_of : {V : Type 0} → List (String × V) → List String
names_of [] = []
names_of ((name, value) ∷ entries) = name ∷ names_of entries

abbrev without : List String → List String → List String
without [] known = []
without (n ∷ ns) known = let rest = without ns known in if member n known then rest else n ∷ rest

abbrev pub is_empty : List String → Bool
is_empty [] = true
is_empty (n ∷ ns) = false

abbrev pub pairs : List String → List String → List String
pairs [] values = []
pairs (n ∷ ns) [] = ((n <> "=\"") <> "\"") ∷ pairs ns []
pairs (n ∷ ns) (v ∷ vs) = (((n <> "=\"") <> escape_label v) <> "\"") ∷ pairs ns vs

abbrev pub join_commas : List String → String
join_commas [] = ""
join_commas (s ∷ []) = s
join_commas (s ∷ t ∷ ss) = (s <> ",") <> join_commas (t ∷ ss)

abbrev pub rendered_labels : List String → List String → String
rendered_labels names values =
    if is_empty names then "" else ("{" <> join_commas (pairs names values)) <> "}"

abbrev pub has : String → Series → Bool
has key s = is_some (lookup key s.label_text)

abbrev pub add_series : NormalizedLabels → Series → Series
add_series l s = record s { label_text = insert l.key l.rendered s.label_text }

abbrev pub ordinary_budget : Metric → ℕ
ordinary_budget m = if m.reserve_overflow then max 0 (m.max_series - 1) else m.max_series

module _ {N : Type 0} (nums : Numbers N) (stringify : List String → String) where
  abbrev pub value_text : Option (MetricLabelValue N) → String
  value_text none = ""
  value_text (some (text s)) = s
  value_text (some (number n)) = nums.number_text n
  value_text (some (boolean b)) = if b then "true" else "false"

  abbrev pub normalized : List String → List (String × MetricLabelValue N) → ℕ → NormalizedLabels
  normalized names supplied maximum =
      let value : String → String =
        λ name. bounded_label_value (value_text (lookup name supplied)) maximum in
      let values = map value names in
      record { key = stringify values; rendered = rendered_labels names values }

  unfoldable pub normalize_labels :
      List String → List (String × MetricLabelValue N) → ℕ → MetricError ⊎ NormalizedLabels
  normalize_labels names supplied maximum =
      let unknown = without (names_of supplied) names in
      let missing = without names (names_of supplied) in
      if not (is_empty unknown)
      then inl (unexpected_labels unknown)
      else if not (is_empty missing)
      then inl (missing_labels missing)
      else inr (normalized names supplied maximum)

  abbrev overflow_label : String → String × MetricLabelValue N
  overflow_label name = (name, text "__overflow__")

  -- Its labels are just those of the metric, so that `normalizeLabels` accepts them.
  unfoldable pub overflow : Metric → NormalizedLabels
  overflow m =
      normalized m.label_names (map overflow_label m.label_names)
        (max m.max_label_value_length (size "__overflow__"))

  abbrev pub ordinary_count : Metric → Series → ℕ
  ordinary_count m s =
      if has (overflow m).key s then length s.label_text - 1 else length s.label_text

  -- The rest of `labels`, behind the normalization: the series to use, and the new state.
  unfoldable pub choose_series : Metric → NormalizedLabels → Series → NormalizedLabels × Series
  choose_series m l s =
      let refused = record s { dropped = s.dropped + 1 } in
      if has l.key s
      then (l, s)
      else if is_empty m.label_names
      then (l, add_series l s)
      else if leb (ordinary_budget m) (ordinary_count m s)
      then (overflow m, if m.reserve_overflow then add_series (overflow m) refused else refused)
      else (l, add_series l s)

  -- The key of the series that a reading of these labels takes.
  unfoldable pub key_for_get : Metric → NormalizedLabels → Series → String
  key_for_get m l s =
      if has l.key s || is_empty m.label_names
      then l.key
      else if has (overflow m).key s
      then (overflow m).key
      else l.key
