-- ===== src/Prometheus/Reading.antt =====
-- What `get` of src/prometheus.ts reads after an increment.
use Prim.Native.String.{String}
use text.Mathlib.TextEquality.{eq_iff}
use next_loggers_ts.Prelude.{
  ◌+◌, ◌≡◌, refl, ap, ◌∙◌, List, Bool, Option, true, false, ◌||◌, ◌&&◌, not, some, leb,
  if◌then◌else◌, arith, if_both, if_cases, inr, or_else,
}
use next_loggers_ts.Cli.Text.{lookup, lookup-insert}
use next_loggers_ts.Prometheus.{
  Numbers, Metric, MetricLabelValue, NormalizedLabels, Series, is_empty, overflow, has, add_series,
  ordinary_budget, ordinary_count, choose_series, key_for_get,
}
use next_loggers_ts.Prometheus.Bounds.{has-add_series}
use next_loggers_ts.Prometheus.Values.{Values, update, on_labels, read, count_up, get, normalize}

module _ {N : Type 0} (nums : Numbers N) (stringify : List String → String) (m : Metric) where
  abbrev reads : NormalizedLabels → Series → String
  reads l s = key_for_get nums stringify m l s

  reads_known : (l : NormalizedLabels) (s : Series) → has l.key s ≡ true → reads l s ≡ l.key
  unfolding key_for_get
  reads_known l s h = grind (arith, h)

  reads_added : (l : NormalizedLabels) (s : Series) → reads l (add_series l s) ≡ l.key
  reads_added l s =
      reads_known l (add_series l s)
        (ground (arith, has-add_series nums stringify m l l.key s, eq_iff l.key l.key))

  reads-overflow :
      (l : NormalizedLabels) (s : Series)
      → is_empty m.label_names ≡ false
      → has l.key s ≡ false
      → reads l (add_series (overflow nums stringify m) s) ≡ (overflow nums stringify m).key
  unfolding key_for_get
  reads-overflow l s labelled new =
      let o = overflow nums stringify m in
      ground (
        arith,
        labelled,
        new,
        has-add_series nums stringify m o l.key s,
        has-add_series nums stringify m o o.key s,
        eq_iff o.key l.key,
        eq_iff o.key o.key,
      )

  -- `get` and `add` agree on the series of the labels.
  key_for_get-choose_series :
      (l : NormalizedLabels) (s : Series)
      → m.reserve_overflow ≡ true
      → reads l (choose_series nums stringify m l s).1 ≡ (choose_series nums stringify m l s).0.key
  unfolding choose_series
  key_for_get-choose_series l s reserved =
      let P : NormalizedLabels × Series → Type 0 = λ c. reads l c.1 ≡ c.0.key in
      let o = overflow nums stringify m in
      let refused : Series = record s { dropped = s.dropped + 1 } in
      if_cases P (has l.key s) (λ known. reads_known l s known)
        (λ new.
          if_cases P (is_empty m.label_names) (λ none. reads_added l s)
            (λ labelled.
              if_both P (leb (ordinary_budget m) (ordinary_count nums stringify m s))
                (if_cases (λ (t : Series). P (o, t)) m.reserve_overflow
                  (λ r. reads-overflow l refused labelled new)
                  (λ r. absurd (ground (arith, r, reserved))))
                (reads_added l s)))

  not_rejected :
      (a b : Bool) {X : Type 0} (x y : X) → (a && not b) ≡ true → (if not a || b then x else y) ≡ y
  not_rejected true true x y h = absurd (ground (arith, h))
  not_rejected true false x y h = refl
  not_rejected false b x y h = absurd (ground (arith, h))

  lookup-update :
      {V : Type 0} (initial : V) (f : V → V) (l : NormalizedLabels) (c : Values V)
      → lookup
          (choose_series nums stringify m l c.series).0.key
          (update nums stringify m initial f l c).values
        ≡ some (
            f (or_else (lookup (choose_series nums stringify m l c.series).0.key c.values) initial))
  unfolding update
  lookup-update initial f l c =
      let key = (choose_series nums stringify m l c.series).0.key in
      ground (
        arith,
        eq_iff key key,
        lookup-insert key key (f (or_else (lookup key c.values) initial)) c.values,
      )

  reads_chosen :
      (initial : N) (f : N → N) (l : NormalizedLabels) (c : Values N)
      → m.reserve_overflow ≡ true
      → reads l (update nums stringify m initial f l c).series
        ≡ (choose_series nums stringify m l c.series).0.key
  unfolding update
  reads_chosen initial f l c reserved = key_for_get-choose_series l c.series reserved

  -- An increment that is accepted is read back: `get` with the same labels gives it on top of what
  -- the series that took it had, on a metric that reserves its overflow series.
  pub get-count_up :
      (value : N) (supplied : List (String × MetricLabelValue N)) (c : Values N)
      (l : NormalizedLabels)
      → m.reserve_overflow ≡ true
      → (nums.is_finite value && not (nums.is_negative value)) ≡ true
      → normalize nums stringify m supplied ≡ inr l
      → (c' : Values N) × (count_up nums stringify m value supplied c ≡ inr c')
        × (get nums stringify m supplied c'
            ≡ inr (
                nums.plus
                  (or_else
                    (lookup (choose_series nums stringify m l c.series).0.key c.values)
                    nums.zero_value)
                  value))
  unfolding count_up get
  get-count_up value supplied c l reserved accepted named =
      let f : N → N = λ v. nums.plus v value in
      let c' = update nums stringify m nums.zero_value f l c in
      let key = (choose_series nums stringify m l c.series).0.key in
      (
        c',
        not_rejected (nums.is_finite value) (nums.is_negative value) _ _ accepted
            ∙ ap (on_labels nums stringify m nums.zero_value f c) named,
        ap (read nums stringify m c') named
            ∙ ap (λ (k : String). inr (or_else (lookup k c'.values) nums.zero_value))
                (reads_chosen nums.zero_value f l c reserved)
            ∙ ap (λ (v : Option N). inr (or_else v nums.zero_value))
                (lookup-update nums.zero_value f l c),
      )
