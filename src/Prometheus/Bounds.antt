-- ===== src/Prometheus/Bounds.antt =====
-- The bound on the number of series of src/prometheus.ts.
use Prim.Native.String.{String}
use text.Mathlib.Text.{◌==◌ as str_eq}
use text.Mathlib.TextEquality.{eq_iff}
use next_loggers_ts.Prelude.{
  ◌+◌, ◌≤◌, ◌≡◌, refl, List, [], ◌∷◌, true, false, ◌||◌, is_some, length, leb, if◌then◌else◌, arith,
  if_both, if_cases,
}
use next_loggers_ts.Cli.Text.{lookup, insert, lookup-insert}
use next_loggers_ts.Prometheus.{
  Numbers, Metric, NormalizedLabels, Series, is_empty, overflow, has, add_series, ordinary_budget,
  ordinary_count, choose_series,
}

pub length-insert :
    {V : Type 0} (k : String) (v : V) (m : List (String × V))
    → length (insert k v m) ≡ (if is_some (lookup k m) then length m else length m + 1)
unfolding insert
length-insert k v [] = refl
length-insert k v ((j, w) ∷ m) = ground (arith, length-insert k v m, eq_iff j k)

module _ {N : Type 0} (nums : Numbers N) (stringify : List String → String) (m : Metric) where
  abbrev overflow_key : String
  overflow_key = (overflow nums stringify m).key

  -- The series besides the one for overflow are within the budget of ordinary series.
  abbrev pub IsBounded : Series → Type 0
  IsBounded s = length s.label_text ≤ ordinary_budget m + (if has overflow_key s then 1 else 0)

  length-add_series :
      (l : NormalizedLabels) (s : Series)
      → length (add_series l s).label_text
        ≡ (if has l.key s then length s.label_text else length s.label_text + 1)
  length-add_series l s = length-insert l.key l.rendered s.label_text

  pub has-add_series :
      (l : NormalizedLabels) (k : String) (s : Series)
      → has k (add_series l s) ≡ (str_eq l.key k || has k s)
  has-add_series l k s = grind (arith, lookup-insert l.key k l.rendered s.label_text)

  add_overflow-IsBounded :
      (s : Series) → IsBounded s → IsBounded (add_series (overflow nums stringify m) s)
  add_overflow-IsBounded s h =
      let o = overflow nums stringify m in
      ground (
        arith,
        length-add_series o s,
        has-add_series o overflow_key s,
        eq_iff overflow_key overflow_key,
      )

  add_new-IsBounded :
      (l : NormalizedLabels) (s : Series)
      → leb (ordinary_budget m) (ordinary_count nums stringify m s) ≡ false
      → IsBounded s
      → IsBounded (add_series l s)
  add_new-IsBounded l s free h =
      ground (arith, length-add_series l s, has-add_series l overflow_key s)

  pub choose_series-IsBounded :
      (l : NormalizedLabels) (s : Series)
      → is_empty m.label_names ≡ false
      → IsBounded s
      → IsBounded (choose_series nums stringify m l s).1
  unfolding choose_series
  choose_series-IsBounded l s labelled h =
      let P : NormalizedLabels × Series → Type 0 = λ c. IsBounded c.1 in
      let refused : Series = record s { dropped = s.dropped + 1 } in
      if_both P (has l.key s) h (
        if_cases P (is_empty m.label_names) (λ none. absurd (ground (arith, none, labelled)))
          (λ some.
            if_cases P (leb (ordinary_budget m) (ordinary_count nums stringify m s))
              (λ full. if_both IsBounded m.reserve_overflow (add_overflow-IsBounded refused h) h)
              (λ free. add_new-IsBounded l s free h)))

  -- Every series of a metric with labels that reserves its overflow series is within `maxSeries`.
  pub size-IsBounded :
      (s : Series)
      → m.reserve_overflow ≡ true
      → 1 ≤ m.max_series
      → IsBounded s
      → length s.label_text ≤ m.max_series
  size-IsBounded s r p h = ground arith
