-- ===== src/Prometheus/Rendering.antt =====
-- The rendered labels of src/prometheus.ts, read back by a reader of the Prometheus text format.
use Prim.Native.Char.{Char}
use Prim.Native.String.{String, ◌++◌ as ◌<>◌}
use text.Mathlib.TextLemmas.{nil-append, cons-append, append_assoc as text-append_assoc}
use next_loggers_ts.Prelude.{
  ℕ, zero, suc, ◌≡◌, refl, ap, ◌∙◌, Bool, true, false, not, ◌&&◌, ◌||◌, Option, none, some, List,
  [], ◌∷◌, length, map, if◌then◌else◌, arith,
}
use next_loggers_ts.Cli.Text.{is_char, is_digit, lookup}
use next_loggers_ts.Prometheus.{
  Numbers, MetricLabelValue, normalized, bounded_label_value, value_text, is_empty, is_letter,
  escape_label, all_name_chars, accepts_label_name, pairs, join_commas,
}
use next_loggers_ts.Prometheus.Escaping.{
  before, before-some, read_value, read_value-escape, closed_value,
}

-- A name up to its equals sign, with the text behind it.
unfoldable pub read_name : String → Option (String × String)
read_name String.[] = none
read_name (String.◌∷◌ c s) =
    let rest = read_name s in if is_char c b'=' then some (String.[], s) else before c rest

abbrev expect : ℕ → String → Option String
expect n String.[] = none
expect n (String.◌∷◌ c s) = if is_char c n then some s else none

abbrev with_name : String → Option (String × String) → Option ((String × String) × String)
with_name name none = none
with_name name (some (v, rest)) = some ((name, v), rest)

abbrev quoted_value : String → Option String → Option ((String × String) × String)
quoted_value name none = none
quoted_value name (some s) = with_name name (read_value false s)

abbrev named_value : Option (String × String) → Option ((String × String) × String)
named_value none = none
named_value (some (name, s)) = quoted_value name (expect b'"' s)

abbrev pub read_label : String → Option ((String × String) × String)
read_label s = named_value (read_name s)

is_char-equals : (c : Char) → (is_letter c || is_digit c) ≡ true → is_char c b'=' ≡ false
is_char-equals c h = ground (arith, h)

read_name_cons :
    (c : Char) (s : String)
    → is_char c b'=' ≡ false
    → read_name (String.◌∷◌ c s) ≡ before c (read_name s)
unfolding read_name
read_name_cons c s h = ground (arith, h)

and_left : (a b : Bool) → (a && b) ≡ true → a ≡ true
and_left a b h = ground (arith, h)

and_right : (a b : Bool) → (a && b) ≡ true → b ≡ true
and_right a b h = ground (arith, h)

read_name-append :
    (n t : String) → all_name_chars n ≡ true → read_name (n <> String.◌∷◌ "=" t) ≡ some (n, t)
unfolding read_name
read_name-append String.[] t h = ap read_name (nil-append (String.◌∷◌ "=" t))
read_name-append (String.◌∷◌ c s) t h =
    let apart = is_char-equals c (and_left (is_letter c || is_digit c) (all_name_chars s) h) in
    let later = read_name-append s t (and_right (is_letter c || is_digit c) (all_name_chars s) h) in
    ap read_name (cons-append c s (String.◌∷◌ "=" t))
    ∙ read_name_cons c (s <> String.◌∷◌ "=" t) apart
    ∙ before-some c s t later

name_chars : (n : String) → accepts_label_name n ≡ true → all_name_chars n ≡ true
name_chars String.[] h = refl
name_chars (String.◌∷◌ c s) h = ground (arith, h)

one : (a : Char) (s : String) → (String.◌∷◌ a String.[]) <> s ≡ String.◌∷◌ a s
one a s = cons-append a String.[] s ∙ ap (λ t. String.◌∷◌ a t) (nil-append s)

-- `name="value"`.
abbrev label_text : String → String → String
label_text n v = ((n <> "=\"") <> escape_label v) <> "\""

quoted :
    (v rest : String)
    → "=\"" <> closed_value v rest ≡ String.◌∷◌ "=" (String.◌∷◌ "\"" (closed_value v rest))
quoted v rest =
    cons-append "=" (String.◌∷◌ "\"" String.[]) (closed_value v rest)
    ∙ ap (λ t. String.◌∷◌ "=" t) (one "\"" (closed_value v rest))

label_text-append :
    (n v rest : String)
    → label_text n v <> rest ≡ n <> String.◌∷◌ "=" (String.◌∷◌ "\"" (closed_value v rest))
label_text-append n v rest =
    text-append_assoc ((n <> "=\"") <> escape_label v) "\"" rest
    ∙ ap (λ t. ((n <> "=\"") <> escape_label v) <> t) (one "\"" rest)
    ∙ text-append_assoc (n <> "=\"") (escape_label v) (String.◌∷◌ "\"" rest)
    ∙ text-append_assoc n "=\"" (closed_value v rest)
    ∙ ap (λ t. n <> t) (quoted v rest)

read_label-append :
    (n v rest : String)
    → accepts_label_name n ≡ true
    → read_label (label_text n v <> rest) ≡ some ((n, v), rest)
read_label-append n v rest h =
    ap read_label (label_text-append n v rest)
    ∙ ap named_value (read_name-append n (String.◌∷◌ "\"" (closed_value v rest)) (name_chars n h))
    ∙ ap (with_name n) (read_value-escape v rest)

abbrev Labels : Type 0
Labels = List (String × String)

abbrev prepend : String × String → Option Labels → Option Labels
prepend l none = none
prepend l (some ls) = some (l ∷ ls)

abbrev at_end : String × String → String → Option Labels
at_end l String.[] = some (l ∷ [])
at_end l (String.◌∷◌ c s) = none

abbrev next_label : (String → Option Labels) → String × String → String → Option Labels
next_label more l String.[] = none
next_label more l (String.◌∷◌ c s) =
    if is_char c b',' then prepend l (more s) else if is_char c b'}' then at_end l s else none

abbrev continue_with :
    (String → Option Labels) → Option ((String × String) × String) → Option Labels
continue_with more none = none
continue_with more (some (l, s)) = next_label more l s

-- At most so many labels, up to the closing brace at the end of the text.
unfoldable pub read_labels : ℕ → String → Option Labels
read_labels zero s = none
read_labels (suc n) s = continue_with (read_labels n) (read_label s)

abbrev and_labels : ℕ → Option String → Option Labels
and_labels n none = none
and_labels n (some s) = read_labels n s

abbrev pub read_rendered : ℕ → String → Option Labels
read_rendered n s = and_labels n (expect b'{' s)

abbrev pub all_accepted : List String → Bool
all_accepted [] = true
all_accepted (n ∷ ns) = accepts_label_name n && all_accepted ns

module _ (value : String → String) where
  abbrev pub labelled : List String → Labels
  labelled [] = []
  labelled (n ∷ ns) = (n, value n) ∷ labelled ns

  read_labels-join_commas :
      (n : String) (ns : List String)
      → all_accepted (n ∷ ns) ≡ true
      → read_labels (length (n ∷ ns)) (join_commas (pairs (n ∷ ns) (map value (n ∷ ns))) <> "}")
        ≡ some (labelled (n ∷ ns))
  unfolding read_labels
  read_labels-join_commas n [] h =
      ap (continue_with (read_labels 0))
        (read_label-append n (value n) "}" (and_left (accepts_label_name n) true h))
  read_labels-join_commas n (m ∷ ns) h =
      let joined = join_commas (pairs (m ∷ ns) (map value (m ∷ ns))) in
      let more = read_labels (length (m ∷ ns)) in
      let later =
        read_labels-join_commas m ns (and_right (accepts_label_name n) (all_accepted (m ∷ ns)) h) in
      ap (λ t. continue_with more (read_label t))
        (text-append_assoc (label_text n (value n) <> ",") joined "}"
          ∙ text-append_assoc (label_text n (value n)) "," (joined <> "}"))
      ∙ ap (continue_with more) (
          read_label-append n (value n) ("," <> (joined <> "}"))
            (and_left (accepts_label_name n) (all_accepted (m ∷ ns)) h))
      ∙ ap (next_label more (n, value n)) (one "," (joined <> "}"))
      ∙ ap (prepend (n, value n)) later

abbrev some_name : List String → Bool
some_name names = not (is_empty names)

-- Rendered labels read back, as the Prometheus text format prescribes, as the metric's label names
-- in their order, each with its value as it was bounded; no value can end its quotes, or add a
-- label, whatever characters it has. The metric has a label, and its label names are accepted.
pub read_rendered-normalized :
    {N : Type 0} (nums : Numbers N) (stringify : List String → String) (names : List String)
    (supplied : List (String × MetricLabelValue N)) (maximum : ℕ)
    → some_name names ≡ true
    → all_accepted names ≡ true
    → read_rendered (length names) (normalized nums stringify names supplied maximum).rendered
      ≡ some (
          labelled
            (λ n. bounded_label_value (value_text nums stringify (lookup n supplied)) maximum)
            names)
read_rendered-normalized nums stringify [] supplied maximum h k = cc
read_rendered-normalized nums stringify (n ∷ ns) supplied maximum h k =
    let value : String → String =
      λ n. bounded_label_value (value_text nums stringify (lookup n supplied)) maximum in
    let joined = join_commas (pairs (n ∷ ns) (map value (n ∷ ns))) in
    ap (λ t. and_labels (length (n ∷ ns)) (expect b'{' t))
      (text-append_assoc "{" joined "}" ∙ one "{" (joined <> "}"))
    ∙ read_labels-join_commas value n ns k
