-- ===== src/Loki/Payload.antt =====
-- `normalizeStaticLabels`, `streamLabels` and `buildPayload` of src/loki.ts: the labels, and the
-- records of a batch grouped into streams. An object is the list of its entries in insertion
-- order. Sorting the entries by `localeCompare`, lower case, dates and JSON are parameters.
use Prim.Native.Char.{Char, code}
use Prim.Native.String.{String, ◌++◌ as ◌<>◌}
use next_loggers_ts.Prelude.{
  ◌⊎◌, inl, inr, List, [], ◌∷◌, ◌++◌, map, Bool, true, false, ◌&&◌, ◌||◌, leb, Option, none, some,
  or_else, if◌then◌else◌,
}
use next_loggers_ts.Cli.Text.{is_char, is_digit, member, lookup, insert}

abbrev pub Labels : Type 0
Labels = List (String × String)

pub record LogRecord : Type 0 where
  pub app_name : String
  pub runtime : String
  pub level : String
  pub timestamp : String

-- What the source calls of the language and its library.
pub record Runtime : Type 0 where
  pub sort_entries : Labels → Labels
  pub to_lower_case : String → String
  pub to_nanoseconds : String → String
  pub stringify : LogRecord → String

pub data LabelError : Type 0 where
  invalid_name reserved_name : String → LabelError

-- `/^[a-zA-Z_]/` and `/^[a-zA-Z0-9_]*$/`.
abbrev is_name_start : Char → Bool
is_name_start c =
    (leb b'a' (code c) && leb (code c) b'z')
    || (leb b'A' (code c) && leb (code c) b'Z')
    || is_char c b'_'

abbrev are_name_chars : String → Bool
are_name_chars String.[] = true
are_name_chars (String.◌∷◌ c s) = (is_name_start c || is_digit c) && are_name_chars s

abbrev pub is_label_name : String → Bool
is_label_name String.[] = false
is_label_name (String.◌∷◌ c s) = is_name_start c && are_name_chars s

abbrev pub reserved_labels : List String
reserved_labels = "service_name" ∷ "runtime" ∷ "level" ∷ []

abbrev pub is_blank : String → Bool
is_blank String.[] = true
is_blank (String.◌∷◌ c s) = false

-- The entries from here on, onto the labels normalized so far: an error, or the labels.
unfoldable pub normalize_from : Labels → Labels → LabelError ⊎ Labels
normalize_from [] normalized = inr normalized
normalize_from ((name, value) ∷ rest) normalized =
    let kept =
      normalize_from rest (if is_blank value then normalized else insert name value normalized) in
    if is_label_name name
    then if member name reserved_labels then inl (reserved_name name) else kept
    else inl (invalid_name name)

unfoldable pub normalize_static_labels : Option Labels → LabelError ⊎ Labels
normalize_static_labels labels = normalize_from (or_else labels []) []

abbrev pub spread : Labels → Labels → Labels
spread [] m = m
spread ((name, value) ∷ rest) m = spread rest (insert name value m)

unfoldable pub stream_labels : Runtime → LogRecord → Labels → Labels
stream_labels t r static = spread static (
    ("service_name", r.app_name) ∷ ("runtime", r.runtime) ∷ ("level", t.to_lower_case r.level) ∷ [])

-- The entries joined: a zero character behind a name, a one between two entries.
abbrev join : Labels → String
join [] = ""
join ((name, value) ∷ []) = (name <> "\0") <> value
join ((name, value) ∷ e ∷ rest) = ((name <> "\0") <> value) <> ("\u{1}" <> join (e ∷ rest))

unfoldable pub stream_key : Runtime → Labels → String
stream_key t labels = join (t.sort_entries labels)

pub record LokiStream : Type 0 where
  pub stream : Labels
  pub values : List (String × String)

abbrev pub entry : Runtime → LogRecord → String × String
entry t r = (t.to_nanoseconds r.timestamp, t.stringify r)

abbrev pub stream_or_new : Labels → Option LokiStream → LokiStream
stream_or_new labels none = record { stream = labels; values = [] }
stream_or_new labels (some s) = s

unfoldable pub add_record :
    Runtime → Labels → List (String × LokiStream) → LogRecord → List (String × LokiStream)
add_record t static streams r =
    let labels = stream_labels t r static in
    let key = stream_key t labels in
    let s = stream_or_new labels (lookup key streams) in
    insert key (record s { values = s.values ++ entry t r ∷ [] }) streams

unfoldable pub group :
    Runtime → Labels → List LogRecord → List (String × LokiStream) → List (String × LokiStream)
group t static [] streams = streams
group t static (r ∷ rs) streams = group t static rs (add_record t static streams r)

abbrev pub second : String × LokiStream → LokiStream
second (k, s) = s

unfoldable pub build_payload : Runtime → Labels → List LogRecord → List LokiStream
build_payload t static rs = map second (group t static rs [])
