-- ===== src/OpenTelemetry/Texts.antt =====
-- The texts that src/otel.ts shortens: their size and their beginning.
use Prim.Native.Char.{code}
use Prim.Native.String.{String, ◌++◌ as ◌<>◌}
use text.Mathlib.Text.{◌==◌ as str_eq}
use text.Mathlib.TextEquality.{eq_iff}
use text.Mathlib.TextLemmas.{nil-append, cons-append}
use next_loggers_ts.Prelude.{
  ℕ, zero, suc, ◌+◌, ◌-◌, ◌==◌, ◌≤◌, ◌<◌, ◌≡◌, ◌⊎◌, inl, inr, refl, sym, ap, ◌∙◌, min, Bool, true,
  false, not, ◌&&◌, leb, leb→le, List, [], ◌∷◌, arith, if_both, if_cases, Bool-cases,
}
use next_loggers_ts.Cli.Text.{member}
use next_loggers_ts.BaseLogger.Serialize.{size, slice, begins}
use next_loggers_ts.OpenTelemetry.{shorten, bounded_string, attribute_name, truncated}

size-append : (s t : String) → size (s <> t) ≡ size s + size t
size-append String.[] t = ap size (nil-append t) ∙ omega arith
size-append (String.◌∷◌ c s) t = ap size (cons-append c s t) ∙ omega (arith, size-append s t)

size-slice : (n : ℕ) (s : String) → size (slice n s) ≡ min n (size s)
size-slice n String.[] = omega arith
size-slice zero (String.◌∷◌ c s) = omega arith
size-slice (suc n) (String.◌∷◌ c s) = omega (arith, size-slice n s)

pub size-shorten :
    (s : String) (limit : ℕ) (marker : Bool) → 1 ≤ limit → size (shorten s limit marker) ≤ limit
unfolding shorten
size-shorten s limit marker positive =
    if_cases (λ (t : String). size t ≤ limit) (leb (size s) limit) (λ fits. leb→le _ _ fits)
      (λ long.
        if_both (λ (t : String). size t ≤ limit) (not marker)
          (omega (arith, size-append (slice (limit - 1) s) "…", size-slice (limit - 1) s))
          (if_cases (λ (t : String). size t ≤ limit) (leb limit (size truncated))
            (λ short. omega (arith, size-slice limit truncated))
            (λ roomy. ground (
              arith,
              roomy,
              size-append (slice (limit - size truncated) s) truncated,
              size-slice (limit - size truncated) s,
            ))))

-- A name is kept, or it is cut to the size of the longest name.
pub attribute_name-cases :
    (s : String)
    → (attribute_name s ≡ s)
      ⊎ ((attribute_name s ≡ slice 255 s <> "…") × (256 < size s) × (size (attribute_name s) ≡ 256))
unfolding bounded_string shorten
attribute_name-cases s =
    if_cases
      (λ (t : String). (t ≡ s) ⊎ ((t ≡ slice 255 s <> "…") × (256 < size s) × (size t ≡ 256)))
      (leb (size s) 256) (λ fits. inl refl)
      (λ long. inr (
        refl,
        ground (arith, long),
        ground (arith, long, size-append (slice 255 s) "…", size-slice 255 s),
      ))

pub size-attribute_name : (s : String) → size (attribute_name s) ≤ 256
unfolding bounded_string
size-attribute_name s = size-shorten s 256 false (omega arith)

-- Only a name itself becomes a name that is shorter than the longest.
pub attribute_name-short : (s t : String) → attribute_name s ≡ t → size t < 256 → s ≡ t
attribute_name-short s t h short = elim (attribute_name-cases s) [
  | inl same ↦ sym same ∙ h
  | inr (cut, long, full) ↦ absurd (omega (arith, full, ap size h))
]

begins-slice :
    (n : ℕ) (s t p : String) → size p ≤ n → n ≤ size s → begins (slice n s <> t) p ≡ begins s p
begins-slice n s t String.[] h k = refl
begins-slice n String.[] t (String.◌∷◌ d p) h k = absurd (omega arith)
begins-slice zero (String.◌∷◌ c s) t (String.◌∷◌ d p) h k = absurd (omega arith)
begins-slice (suc n) (String.◌∷◌ c s) t (String.◌∷◌ d p) h k =
    ap (λ (u : String). begins u (String.◌∷◌ d p)) (cons-append c (slice n s) t)
    ∙ ap (λ (b : Bool). (code c == code d) && b) (begins-slice n s t p (omega arith) (omega arith))

pub begins-attribute_name : (s p : String) → size p ≤ 255 → begins (attribute_name s) p ≡ begins s p
begins-attribute_name s p h = elim (attribute_name-cases s) [
  | inl same ↦ ap (λ (t : String). begins t p) same
  | inr (cut, long, full) ↦
      ap (λ (t : String). begins t p) cut ∙ begins-slice 255 s "…" p h (omega (arith, long))
]

begins-nil : (s : String) → begins s "" ≡ true
begins-nil String.[] = refl
begins-nil (String.◌∷◌ c s) = refl

pub begins-append : (p s : String) → begins (p <> s) p ≡ true
begins-append String.[] s = ap (λ (t : String). begins t "") (nil-append s) ∙ begins-nil s
begins-append (String.◌∷◌ c p) s =
    ap (λ (t : String). begins t (String.◌∷◌ c p)) (cons-append c p s)
    ∙ ground (arith, begins-append p s)

abbrev pub none_begins : String → List String → Bool
none_begins p [] = true
none_begins p (t ∷ ts) = not (begins t p) && none_begins p ts

-- A text is not among texts that begin otherwise.
pub begins-member :
    (p s : String) (ts : List String)
    → begins s p ≡ true
    → none_begins p ts ≡ true
    → member s ts ≡ false
begins-member p s [] h k = refl
begins-member p s (t ∷ ts) h k = elim (Bool-cases (str_eq t s)) [
  | inl same ↦ absurd (ground (arith, h, k, ap (λ (u : String). begins u p) ((eq_iff t s).0 same)))
  | inr other ↦ ground (arith, other, begins-member p s ts h (ground (arith, k)))
]
