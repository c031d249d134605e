-- ===== src/BaseLogger/Objects.antt =====
-- Objects that are spread into one another, and sets of texts, as src/base-logger.ts uses them.
use Prim.Native.String.{String}
use text.Mathlib.Text.{◌==◌ as str_eq}
use text.Mathlib.TextEquality.{eq_iff}
use next_loggers_ts.Prelude.{
  ◌≡◌, refl, ◌∙◌, ap, List, [], ◌∷◌, ◌++◌, Bool, true, false, not, ◌&&◌, ◌||◌, Option, none, some,
  if◌then◌else◌, arith, if_cases, Bool-cases, inl, inr,
}
use next_loggers_ts.Cli.Text.{lookup, insert, lookup-insert, member}

module _ {V : Type 0} where
  -- `{ ...m, ...es }`.
  unfoldable pub spread : List (String × V) → List (String × V) → List (String × V)
  spread m [] = m
  spread m ((k, v) ∷ es) = spread (insert k v m) es

  abbrev pub orelse : Option V → Option V → Option V
  orelse none b = b
  orelse (some a) b = some a

  -- The value of a key, where an entry further on stands over an earlier one.
  abbrev pub last_of : String → List (String × V) → Option V
  last_of k [] = none
  last_of k ((j, v) ∷ es) = orelse (last_of k es) (if str_eq j k then some v else none)

  orelse_last :
      (o : Option V) (b : Bool) (v : V) (m : Option V)
      → orelse o (if b then some v else m) ≡ orelse (orelse o (if b then some v else none)) m
  orelse_last none true v m = refl
  orelse_last none false v m = refl
  orelse_last (some a) b v m = refl

  pub lookup-spread :
      (k : String) (m es : List (String × V))
      → lookup k (spread m es) ≡ orelse (last_of k es) (lookup k m)
  unfolding spread
  lookup-spread k m [] = refl
  lookup-spread k m ((j, v) ∷ es) =
      lookup-spread k (insert j v m) es
      ∙ ap (orelse (last_of k es)) (lookup-insert j k v m)
      ∙ orelse_last (last_of k es) (str_eq j k) v (lookup k m)

-- `set.add(value)`.
unfoldable pub add : String → List String → List String
add value values = if member value values then values else values ++ value ∷ []

-- A set of the values of a list.
unfoldable pub add_all : List String → List String → List String
add_all [] values = values
add_all (v ∷ vs) values = add_all vs (add v values)

-- No value stands twice.
abbrev pub is_distinct : List String → Bool
is_distinct [] = true
is_distinct (v ∷ vs) = not (member v vs) && is_distinct vs

member-append :
    (s : String) (us vs : List String) → member s (us ++ vs) ≡ (member s us || member s vs)
member-append s [] vs = refl
member-append s (u ∷ us) vs = ground (arith, member-append s us vs)

member_same :
    (s v : String) (vs : List String)
    → member v vs ≡ true
    → member s vs ≡ (member s vs || str_eq v s)
member_same s v vs h = elim (Bool-cases (str_eq v s)) [
  | inl e ↦ ground (arith, h, ap (λ x. member x vs) ((eq_iff v s).0 e))
  | inr e ↦ ground (arith, e)
]

pub member-add :
    (s v : String) (vs : List String) → member s (add v vs) ≡ (member s vs || str_eq v s)
unfolding add
member-add s v vs =
    if_cases (λ (ws : List String). member s ws ≡ (member s vs || str_eq v s)) (member v vs)
      (λ known. member_same s v vs known) (λ new. member-append s vs (v ∷ []) ∙ ground arith)

distinct-append :
    (v : String) (vs : List String)
    → is_distinct (vs ++ v ∷ []) ≡ (is_distinct vs && not (member v vs))
distinct-append v [] = refl
distinct-append v (u ∷ vs) =
    ground (arith, distinct-append v vs, member-append u vs (v ∷ []), eq_iff u v, eq_iff v u)

pub add-distinct :
    (v : String) (vs : List String) → is_distinct vs ≡ true → is_distinct (add v vs) ≡ true
unfolding add
add-distinct v vs h = ground (arith, distinct-append v vs)

pub add_all-distinct :
    (us vs : List String) → is_distinct vs ≡ true → is_distinct (add_all us vs) ≡ true
unfolding add_all
add_all-distinct [] vs h = h
add_all-distinct (u ∷ us) vs h = add_all-distinct us (add u vs) (add-distinct u vs h)

pub member-add_all :
    (s : String) (us vs : List String) → member s (add_all us vs) ≡ (member s vs || member s us)
unfolding add_all
member-add_all s [] vs = ground arith
member-add_all s (u ∷ us) vs = ground (arith, member-add_all s us (add u vs), member-add s u vs)
