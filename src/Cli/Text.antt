-- ===== src/Cli/Text.antt =====
-- The string operations that src/cli uses, on native strings taken apart character by character.
-- Where the source indexes UTF-16 units, these index characters.
use Prim.Native.Char.{Char, code}
use Prim.Native.String.{String}
use text.Mathlib.Text.{◌==◌ as str_eq}
use text.Mathlib.TextEquality.{eq_iff}
use next_loggers_ts.Prelude.{
  ℕ, ◌==◌, ◌≡◌, refl, Bool, false, ◌&&◌, ◌||◌, leb, List, [], ◌∷◌, Option, none, some,
  if◌then◌else◌, arith,
}

abbrev pub is_char : Char → ℕ → Bool
is_char c n = code c == n

abbrev pub is_digit : Char → Bool
is_digit c = leb b'0' (code c) && leb (code c) b'9'

-- `s.startsWith('-')`.
abbrev pub starts_dash : String → Bool
starts_dash String.[] = false
starts_dash (String.◌∷◌ c s) = is_char c b'-'

-- `s.slice(1)`.
abbrev pub tail : String → String
tail String.[] = String.[]
tail (String.◌∷◌ c s) = s

-- `s.startsWith('--')`.
abbrev pub starts_dashes : String → Bool
starts_dashes s = starts_dash s && starts_dash (tail s)

-- `/^-\d/.test(s)`.
abbrev pub second_is_digit : String → Bool
second_is_digit String.[] = false
second_is_digit (String.◌∷◌ c s) = is_digit c

abbrev pub is_negative_number : String → Bool
is_negative_number s = starts_dash s && second_is_digit (tail s)

-- The text before the first `=`, and the text behind it if there is one.
unfoldable pub split_equals : String → String × Option String
split_equals String.[] = (String.[], none)
split_equals (String.◌∷◌ c s) =
    let (name, value) = split_equals s in
    if is_char c b'=' then (String.[], some s) else (String.◌∷◌ c name, value)

-- `s.startsWith('no-')` with the text behind it.
abbrev after_char : ℕ → String → Option String
after_char n String.[] = none
after_char n (String.◌∷◌ c s) = if is_char c n then some s else none

abbrev and_then : Option String → (String → Option String) → Option String
and_then none f = none
and_then (some s) f = f s

unfoldable pub strip_no : String → Option String
strip_no s = and_then (and_then (after_char b'n' s) (after_char b'o')) (after_char b'-')

-- The characters of a text.
abbrev pub letters : String → List Char
letters String.[] = []
letters (String.◌∷◌ c s) = c ∷ letters s

abbrev pub member : String → List String → Bool
member s [] = false
member s (t ∷ ts) = str_eq t s || member s ts

-- A JavaScript object or `Map` with string keys is the list of its entries; a new key goes to the
-- end, and an old one keeps its place.
module _ {ℓ} {V : Type ℓ} where
  abbrev pub lookup : String → List (String × V) → Option V
  lookup key [] = none
  lookup key ((name, value) ∷ entries) =
      let later = lookup key entries in if str_eq name key then some value else later

  unfoldable pub insert : String → V → List (String × V) → List (String × V)
  insert key new [] = (key, new) ∷ []
  insert key new ((name, value) ∷ entries) =
      let later = insert key new entries in
      if str_eq name key then (name, new) ∷ entries else (name, value) ∷ later

  pub lookup-insert :
      (key asked : String) (new : V) (entries : List (String × V))
      → lookup asked (insert key new entries)
        ≡ (if str_eq key asked then some new else lookup asked entries)
  unfolding insert
  lookup-insert key asked new [] = refl
  lookup-insert key asked new ((name, value) ∷ entries) =
      let rest = lookup-insert key asked new entries in
      ground (arith, rest, eq_iff name key, eq_iff key asked, eq_iff name asked)
