-- ===== src/Prometheus/Escaping.antt =====
-- The text of labels in src/prometheus.ts, read back as the Prometheus text format prescribes.
use Prim.Native.Char.{Char, code}
use Prim.Native.String.{String, ◌++◌ as ◌<>◌}
use text.Mathlib.TextEquality.{Char-path}
use text.Mathlib.TextLemmas.{nil-append, cons-append}
use next_loggers_ts.Prelude.{
  ℕ, ◌≡◌, sym, ap, ◌∙◌, Bool, true, false, ◌||◌, ==_iff, Option, none, some, inl, inr,
  if◌then◌else◌, Bool-cases, arith,
}
use next_loggers_ts.Cli.Text.{is_char}
use next_loggers_ts.Prometheus.{replace, escape_label}

abbrev pub before : Char → Option (String × String) → Option (String × String)
before c none = none
before c (some (v, rest)) = some (String.◌∷◌ c v, rest)

-- A label's value up to its closing quote, with the text behind it; the flag is set behind a
-- backslash.
unfoldable pub read_value : Bool → String → Option (String × String)
read_value escaping String.[] = none
read_value false (String.◌∷◌ c s) =
    let plain = read_value false s in
    let escaped = read_value true s in
    if is_char c b'"'
    then some (String.[], s)
    else if is_char c b'\\'
    then escaped
    else before c plain
read_value true (String.◌∷◌ c s) =
    let rest = read_value false s in
    if is_char c b'n'
    then before "\n" rest
    else if is_char c b'\\' || is_char c b'"'
    then before c rest
    else none

replace_hit :
    (n : ℕ) (by : String) (c : Char) (s : String)
    → is_char c n ≡ true
    → replace n by (String.◌∷◌ c s) ≡ by <> replace n by s
unfolding replace
replace_hit n by c s h = ground (arith, h)

replace_skip :
    (n : ℕ) (by : String) (c : Char) (s : String)
    → is_char c n ≡ false
    → replace n by (String.◌∷◌ c s) ≡ String.◌∷◌ c (replace n by s)
unfolding replace
replace_skip n by c s h = ground (arith, h)

two :
    (a b : Char) (s : String)
    → (String.◌∷◌ a (String.◌∷◌ b String.[])) <> s ≡ String.◌∷◌ a (String.◌∷◌ b s)
two a b s =
    cons-append a (String.◌∷◌ b String.[]) s
    ∙ ap (λ t. String.◌∷◌ a t) (cons-append b String.[] s ∙ ap (λ t. String.◌∷◌ b t) (nil-append s))

escape-backslash :
    (c : Char) (s : String)
    → is_char c b'\\' ≡ true
    → escape_label (String.◌∷◌ c s) ≡ String.◌∷◌ "\\" (String.◌∷◌ "\\" (escape_label s))
unfolding replace
escape-backslash c s h =
    ap (λ t. replace b'"' "\\\"" (replace b'\n' "\\n" t))
      (replace_hit b'\\' "\\\\" c s h ∙ two "\\" "\\" _)

escape-newline :
    (c : Char) (s : String)
    → is_char c b'\\' ≡ false
    → is_char c b'\n' ≡ true
    → escape_label (String.◌∷◌ c s) ≡ String.◌∷◌ "\\" (String.◌∷◌ "n" (escape_label s))
unfolding replace
escape-newline c s h k =
    ap (λ t. replace b'"' "\\\"" (replace b'\n' "\\n" t)) (replace_skip b'\\' "\\\\" c s h)
    ∙ ap (replace b'"' "\\\"") (
        replace_hit b'\n' "\\n" c (replace b'\\' "\\\\" s) k
        ∙ two "\\" "n" (replace b'\n' "\\n" (replace b'\\' "\\\\" s)))

escape-quote :
    (c : Char) (s : String)
    → is_char c b'\\' ≡ false
    → is_char c b'\n' ≡ false
    → is_char c b'"' ≡ true
    → escape_label (String.◌∷◌ c s) ≡ String.◌∷◌ "\\" (String.◌∷◌ "\"" (escape_label s))
escape-quote c s h k l =
    ap (λ t. replace b'"' "\\\"" (replace b'\n' "\\n" t)) (replace_skip b'\\' "\\\\" c s h)
    ∙ ap (replace b'"' "\\\"") (replace_skip b'\n' "\\n" c _ k)
    ∙ replace_hit b'"' "\\\"" c _ l
    ∙ two "\\" "\"" _

escape-other :
    (c : Char) (s : String)
    → is_char c b'\\' ≡ false
    → is_char c b'\n' ≡ false
    → is_char c b'"' ≡ false
    → escape_label (String.◌∷◌ c s) ≡ String.◌∷◌ c (escape_label s)
escape-other c s h k l =
    ap (λ t. replace b'"' "\\\"" (replace b'\n' "\\n" t)) (replace_skip b'\\' "\\\\" c s h)
    ∙ ap (replace b'"' "\\\"") (replace_skip b'\n' "\\n" c _ k)
    ∙ replace_skip b'"' "\\\"" c _ l

is_char-path : (c d : Char) → is_char c (code d) ≡ true → c ≡ d
is_char-path c d h = Char-path c d ((==_iff (code c) (code d)).0 h)

pub before-some :
    (c : Char) (v rest : String) {o : Option (String × String)}
    → o ≡ some (v, rest)
    → before c o ≡ some (String.◌∷◌ c v, rest)
before-some c v rest h = ap (before c) h

-- What reading one character of an escaped value, and then the rest, gives.
read_other :
    (c : Char) (s : String)
    → is_char c b'\\' ≡ false
    → is_char c b'"' ≡ false
    → read_value false (String.◌∷◌ c s) ≡ before c (read_value false s)
unfolding read_value
read_other c s h k = ground (arith, h, k)

-- The value of a label as it is rendered, with the closing quote and any text behind it.
abbrev pub closed_value : String → String → String
closed_value v rest = escape_label v <> String.◌∷◌ "\"" rest

pass_two :
    (a b : Char) (c : Char) (s rest : String)
    → escape_label (String.◌∷◌ c s) ≡ String.◌∷◌ a (String.◌∷◌ b (escape_label s))
    → closed_value (String.◌∷◌ c s) rest ≡ String.◌∷◌ a (String.◌∷◌ b (closed_value s rest))
pass_two a b c s rest h =
    ap (λ t. t <> String.◌∷◌ "\"" rest) h
    ∙ cons-append a (String.◌∷◌ b (escape_label s)) (String.◌∷◌ "\"" rest)
    ∙ ap (λ t. String.◌∷◌ a t) (cons-append b (escape_label s) (String.◌∷◌ "\"" rest))

pass_one :
    (c : Char) (s rest : String)
    → escape_label (String.◌∷◌ c s) ≡ String.◌∷◌ c (escape_label s)
    → closed_value (String.◌∷◌ c s) rest ≡ String.◌∷◌ c (closed_value s rest)
pass_one c s rest h =
    ap (λ t. t <> String.◌∷◌ "\"" rest) h ∙ cons-append c (escape_label s) (String.◌∷◌ "\"" rest)

read_nil : (rest : String) → read_value false (closed_value String.[] rest) ≡ some (String.[], rest)
unfolding read_value replace
read_nil rest = ap (read_value false) (nil-append (String.◌∷◌ "\"" rest))

-- An escaped character `c`, written as a backslash and `b`.
read_escaped :
    (c d : Char) (s rest : String)
    → is_char c (code d) ≡ true
    → before d (read_value false (closed_value s rest)) ≡ some (String.◌∷◌ d s, rest)
    → before d (read_value false (closed_value s rest)) ≡ some (String.◌∷◌ c s, rest)
read_escaped c d s rest h k = k ∙ ap (λ e. some (String.◌∷◌ e s, rest)) (sym (is_char-path c d h))

pub read_value-escape : (v rest : String) → read_value false (closed_value v rest) ≡ some (v, rest)
unfolding read_value
read_value-escape String.[] rest = read_nil rest
read_value-escape (String.◌∷◌ c s) rest =
    let later = read_value-escape s rest in
    elim (Bool-cases (is_char c b'\\')) [
      | inl b ↦
          ap (read_value false) (pass_two "\\" "\\" c s rest (escape-backslash c s b))
          ∙ read_escaped c "\\" s rest b (before-some "\\" s rest later)
      | inr nb ↦ elim (Bool-cases (is_char c b'\n')) [
        | inl n ↦
            ap (read_value false) (pass_two "\\" "n" c s rest (escape-newline c s nb n))
            ∙ read_escaped c "\n" s rest n (before-some "\n" s rest later)
        | inr nn ↦ elim (Bool-cases (is_char c b'"')) [
          | inl q ↦
              ap (read_value false) (pass_two "\\" "\"" c s rest (escape-quote c s nb nn q))
              ∙ read_escaped c "\"" s rest q (before-some "\"" s rest later)
          | inr nq ↦
              ap (read_value false) (pass_one c s rest (escape-other c s nb nn nq))
              ∙ read_other c (closed_value s rest) nb nq
              ∙ before-some c s rest later
        ]
      ]
    ]
