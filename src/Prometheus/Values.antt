-- ===== src/Prometheus/Values.antt =====
-- `Counter` and `Gauge` of src/prometheus.ts: `add`, `set` and `get`.
use Prim.Native.String.{String}
use next_loggers_ts.Prelude.{
  ◌⊎◌, inl, inr, List, [], ◌∷◌, not, ◌||◌, Option, none, some, or_else, if◌then◌else◌,
}
use next_loggers_ts.Cli.Text.{lookup, insert}
use next_loggers_ts.Prometheus.{
  Numbers, MetricLabelValue, Metric, NormalizedLabels, MetricError, negative_increment, not_finite,
  Series, no_series, normalize_labels, choose_series, key_for_get,
}

-- The series of a metric and their values.
pub record Values (V : Type 0) : Type 0 where
  pub series : Series
  pub values : List (String × V)

abbrev pub no_values : {V : Type 0} → Values V
no_values = record { series = no_series; values = [] }

module _ {N : Type 0} (nums : Numbers N) (stringify : List String → String) (m : Metric) where
  abbrev pub normalize : List (String × MetricLabelValue N) → MetricError ⊎ NormalizedLabels
  normalize supplied =
      normalize_labels nums stringify m.label_names supplied m.max_label_value_length

  -- A value for the chosen series from the value that it has.
  unfoldable pub update : {V : Type 0} → V → (V → V) → NormalizedLabels → Values V → Values V
  update initial f l c =
      let chosen = choose_series nums stringify m l c.series in
      let key = chosen.0.key in
      record {
        series = chosen.1;
        values = insert key (f (or_else (lookup key c.values) initial)) c.values;
      }

  abbrev pub on_labels :
      {V : Type 0}
      → V
      → (V → V)
      → Values V
      → MetricError ⊎ NormalizedLabels
      → MetricError ⊎ Values V
  on_labels initial f c (inl error) = inl error
  on_labels initial f c (inr l) = inr (update initial f l c)

  -- `Counter.add`.
  unfoldable pub count_up :
      N → List (String × MetricLabelValue N) → Values N → MetricError ⊎ Values N
  count_up value supplied c =
      if not (nums.is_finite value) || nums.is_negative value
      then inl negative_increment
      else on_labels nums.zero_value (λ v. nums.plus v value) c (normalize supplied)

  -- `Gauge.add`.
  unfoldable pub add : N → List (String × MetricLabelValue N) → Values N → MetricError ⊎ Values N
  add value supplied c =
      if not (nums.is_finite value)
      then inl not_finite
      else on_labels nums.zero_value (λ v. nums.plus v value) c (normalize supplied)

  -- The series is chosen before the value is looked at.
  abbrev set_on : N → Values N → MetricError ⊎ NormalizedLabels → Option MetricError × Values N
  set_on value c (inl error) = (some error, c)
  set_on value c (inr l) =
      let chosen = choose_series nums stringify m l c.series in
      if nums.is_finite value
      then (none, record { series = chosen.1; values = insert chosen.0.key value c.values })
      else (some not_finite, record c { series = chosen.1 })

  -- `Gauge.set`: the error that it throws, and the state that it leaves.
  unfoldable pub set_to :
      N → List (String × MetricLabelValue N) → Values N → Option MetricError × Values N
  set_to value supplied c = set_on value c (normalize supplied)

  abbrev pub read : Values N → MetricError ⊎ NormalizedLabels → MetricError ⊎ N
  read c (inl error) = inl error
  read c (inr l) =
      inr (or_else (lookup (key_for_get nums stringify m l c.series) c.values) nums.zero_value)

  unfoldable pub get : List (String × MetricLabelValue N) → Values N → MetricError ⊎ N
  get supplied c = read c (normalize supplied)

  -- Counting again and again; a call that throws leaves the counter as it is.
  abbrev pub attempted : {V : Type 0} → Values V → MetricError ⊎ Values V → Values V
  attempted c (inl error) = c
  attempted c (inr c') = c'

  unfoldable pub count_all : List (N × List (String × MetricLabelValue N)) → Values N → Values N
  count_all [] c = c
  count_all ((value, supplied) ∷ calls) c =
      count_all calls (attempted c (count_up value supplied c))
