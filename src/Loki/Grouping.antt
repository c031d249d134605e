-- ===== src/Loki/Grouping.antt =====
-- The streams that `buildPayload` of src/loki.ts makes of a batch.
use Prim.Native.String.{String}
use mathlib.Core.Sum.{inl-ne-inr, inr-injective}
use text.Mathlib.Text.{◌==◌ as str_eq}
use text.Mathlib.TextEquality.{eq_iff}
use next_loggers_ts.Prelude.{
  ◌⊎◌, inl, inr, ℕ, ◌+◌, ◌≡◌, refl, ap, ◌∙◌, sym, List, [], ◌∷◌, ◌++◌, append_assoc, append-nil,
  map, Bool, true, false, not, ◌&&◌, is_some, Option, none, some, or_else, if◌then◌else◌, arith,
  length, length-append, if_both, Bool-cases,
}
use next_loggers_ts.Cli.Text.{member, lookup, insert, lookup-insert}
use next_loggers_ts.Loki.Payload.{
  Labels, LogRecord, Runtime, LabelError, reserved_labels, normalize_from, normalize_static_labels,
  stream_labels, stream_key, LokiStream, entry, stream_or_new, add_record, group, build_payload,
  spread, second, is_blank, is_label_name,
}

abbrev values_in : Option LokiStream → List (String × String)
values_in none = []
values_in (some s) = s.values

abbrev values_at : String → List (String × LokiStream) → List (String × String)
values_at k streams = values_in (lookup k streams)

-- The lines of the records with this key, in their order, and the labels of the first of them.
abbrev pub lines_of : Runtime → Labels → String → List LogRecord → List (String × String)
lines_of t static k [] = []
lines_of t static k (r ∷ rs) =
    let rest = lines_of t static k rs in
    if str_eq (stream_key t (stream_labels t r static)) k then entry t r ∷ rest else rest

abbrev pub first_labels : Runtime → Labels → String → List LogRecord → Option Labels
first_labels t static k [] = none
first_labels t static k (r ∷ rs) =
    let labels = stream_labels t r static in
    let later = first_labels t static k rs in
    if str_eq (stream_key t labels) k then some labels else later

-- A stream there is exactly where there is a first record for it.
abbrev pub stream_with : Option Labels → List (String × String) → Option LokiStream
stream_with none lines = none
stream_with (some labels) lines = some (record { stream = labels; values = lines })

-- No key stands twice.
abbrev pub has_distinct_keys : List (String × LokiStream) → Bool
has_distinct_keys [] = true
has_distinct_keys ((k, s) ∷ streams) = not (is_some (lookup k streams)) && has_distinct_keys streams

-- A stream that is there already keeps its labels, and gets the lines behind its own.
abbrev extended : Option LokiStream → Option Labels → List (String × String) → Option LokiStream
extended none labels lines = stream_with labels lines
extended (some s) labels lines = some (record s { values = s.values ++ lines })

extended-entry :
    (o : Option LokiStream) (labels : Labels) (line : String × String) (later : Option Labels)
    (lines : List (String × String))
    → extended
        (some (record (stream_or_new labels o) {
          values = (stream_or_new labels o).values ++ line ∷ [];
        }))
        later
        lines
      ≡ extended o (some labels) (line ∷ lines)
extended-entry none labels line later lines = refl
extended-entry (some s) labels line later lines =
    ap (λ l. some (record s { values = l })) (append_assoc s.values (line ∷ []) lines)

distinct-insert :
    (k : String) (v : LokiStream) (m : List (String × LokiStream))
    → has_distinct_keys m ≡ true
    → has_distinct_keys (insert k v m) ≡ true
unfolding insert
distinct-insert k v [] h = refl
distinct-insert k v ((j, w) ∷ m) h =
    ground (arith, h, distinct-insert k v m, lookup-insert k j v m, eq_iff j k, eq_iff k j)

module _ (t : Runtime) (static : Labels) where
  lookup-group :
      (k : String) (rs : List LogRecord) (streams : List (String × LokiStream))
      → lookup k (group t static rs streams)
        ≡ extended (lookup k streams) (first_labels t static k rs) (lines_of t static k rs)
  unfolding group add_record
  lookup-group k [] streams = nothing_new (lookup k streams)
    where
      nothing_new : (o : Option LokiStream) → o ≡ extended o none []
      nothing_new none = refl
      nothing_new (some s) = ap (λ l. some (record s { values = l })) (sym (append-nil s.values))
  lookup-group k (r ∷ rs) streams =
      let labels = stream_labels t r static in
      let key = stream_key t labels in
      let s = stream_or_new labels (lookup key streams) in
      let added : LokiStream = record s { values = s.values ++ entry t r ∷ [] } in
      let later = first_labels t static k rs in
      let lines = lines_of t static k rs in
      lookup-group k rs (insert key added streams)
      ∙ ap (λ o. extended o later lines) (lookup-insert key k added streams)
      ∙ (elim (Bool-cases (str_eq key k)) [
        | inl same ↦ rw same (
            extended-entry (lookup key streams) labels (entry t r) later lines
            ∙ ap (λ x. extended (lookup x streams) (some labels) (entry t r ∷ lines))
                ((eq_iff key k).0 same))
        | inr other ↦ rw other refl
      ])

  distinct-group :
      (rs : List LogRecord) (streams : List (String × LokiStream))
      → has_distinct_keys streams ≡ true
      → has_distinct_keys (group t static rs streams) ≡ true
  unfolding group add_record
  distinct-group [] streams h = h
  distinct-group (r ∷ rs) streams h = distinct-group rs _ (distinct-insert _ _ streams h)

-- The streams that a batch is grouped into have no key twice. There is one under a key exactly
-- where some record of the batch has that key; it has the labels of the first such record and the
-- lines of just the records with the key, in the order of the batch.
pub group-lines_of :
    (t : Runtime) (static : Labels) (k : String) (rs : List LogRecord)
    → (has_distinct_keys (group t static rs []) ≡ true)
      × (lookup k (group t static rs [])
          ≡ stream_with (first_labels t static k rs) (lines_of t static k rs))
group-lines_of t static k rs = (distinct-group t static rs [] refl, lookup-group t static k rs [])

total : List (String × LokiStream) → ℕ
total [] = 0
total ((k, s) ∷ ss) = length s.values + total ss

total-insert :
    (k : String) (v : LokiStream) (m : List (String × LokiStream))
    → total (insert k v m) + length (values_at k m) ≡ total m + length v.values
unfolding insert total
total-insert k v [] = omega arith
total-insert k v ((j, w) ∷ m) = ground (arith, total-insert k v m)

length-values :
    (t : Runtime) (static : Labels) (r : LogRecord) (o : Option LokiStream)
    → length ((stream_or_new (stream_labels t r static) o).values ++ entry t r ∷ [])
      ≡ length (values_in o) + 1
length-values t static r none = refl
length-values t static r (some s) = length-append s.values (entry t r ∷ [])

total-group :
    (t : Runtime) (static : Labels) (rs : List LogRecord) (streams : List (String × LokiStream))
    → total (group t static rs streams) ≡ total streams + length rs
unfolding group add_record
total-group t static [] streams = omega arith
total-group t static (r ∷ rs) streams =
    let labels = stream_labels t r static in
    let key = stream_key t labels in
    let o = lookup key streams in
    let s = stream_or_new labels o in
    let s' : LokiStream = record s { values = s.values ++ entry t r ∷ [] } in
    omega (
      arith,
      total-group t static rs (insert key s' streams),
      total-insert key s' streams,
      length-values t static r o,
    )

abbrev pub total_lines : List LokiStream → ℕ
total_lines [] = 0
total_lines (s ∷ ss) = length s.values + total_lines ss

total_lines-map :
    (streams : List (String × LokiStream)) → total_lines (map second streams) ≡ total streams
unfolding total
total_lines-map [] = refl
total_lines-map ((k, s) ∷ streams) = ap (λ n. length s.values + n) (total_lines-map streams)

-- The payload of a batch has one line for each of its records.
total_lines-build_payload :
    (t : Runtime) (static : Labels) (rs : List LogRecord)
    → total_lines (build_payload t static rs) ≡ length rs
unfolding build_payload total
total_lines-build_payload t static rs =
    omega (arith, total_lines-map (group t static rs []), total-group t static rs [])

-- Labels come out only of the branch without an error.
no_error :
    (b c : Bool) (x y : LabelError) {m : LabelError ⊎ Labels} {static : Labels}
    → (if b then (if c then inl x else m) else inl y) ≡ inr static
    → (c ≡ false) × (m ≡ inr static)
no_error true true x y q = absurd (inl-ne-inr q)
no_error true false x y q = (refl, q)
no_error false c x y q = absurd (inl-ne-inr q)

module _ (j : String) (reserved : member j reserved_labels ≡ true) where
  insert-absent :
      (k v : String) (m : Labels)
      → member k reserved_labels ≡ false
      → lookup j m ≡ none
      → lookup j (insert k v m) ≡ none
  insert-absent k v m h q = grind (arith, reserved, h, q, eq_iff k j, lookup-insert k j v m)

  normalize_from-absent :
      (es m : Labels) (static : Labels)
      → lookup j m ≡ none
      → normalize_from es m ≡ inr static
      → lookup j static ≡ none
  unfolding normalize_from
  normalize_from-absent [] m static h q = ap (lookup j) (sym (inr-injective m static q)) ∙ h
  normalize_from-absent ((name, value) ∷ es) m static h q =
      let (fresh, rest) = no_error (is_label_name name) (member name reserved_labels) _ _ q in
      normalize_from-absent es _ static
        (if_both (λ (l : Labels). lookup j l ≡ none) (is_blank value) h
          (insert-absent name value m fresh h))
        rest

  spread-absent : (es m : Labels) → lookup j es ≡ none → lookup j (spread es m) ≡ lookup j m
  spread-absent [] m h = refl
  spread-absent ((k, v) ∷ es) m h =
      let eq = lookup-insert k j v m in
      elim (Bool-cases (str_eq k j)) [
        | inl same ↦ absurd (grind (arith, same, h))
        | inr other ↦ grind (arith, other, h, eq, spread-absent es (insert k v m))
      ]

-- The labels that a transport was built with never stand over a record's own: whatever labels
-- `normalizeStaticLabels` accepts, a stream has the record's application, runtime and level.
stream_labels-normalize_static_labels :
    (t : Runtime) (r : LogRecord) (given : Option Labels) (static : Labels)
    → normalize_static_labels given ≡ inr static
    → (lookup "service_name" (stream_labels t r static) ≡ some r.app_name)
      × (lookup "runtime" (stream_labels t r static) ≡ some r.runtime)
      × (lookup "level" (stream_labels t r static) ≡ some (t.to_lower_case r.level))
unfolding normalize_static_labels stream_labels
stream_labels-normalize_static_labels t r given static q =
    let entries = or_else given [] in
    (
      spread-absent "service_name" refl static _
          (normalize_from-absent "service_name" refl entries [] static refl q),
      spread-absent "runtime" refl static _
          (normalize_from-absent "runtime" refl entries [] static refl q),
      spread-absent "level" refl static _
          (normalize_from-absent "level" refl entries [] static refl q),
    )
