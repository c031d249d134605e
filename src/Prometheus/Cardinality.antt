-- ===== src/Prometheus/Cardinality.antt =====
-- The series that a counter of src/prometheus.ts keeps over a run of calls.
use Prim.Native.String.{String}
use text.Mathlib.TextEquality.{eq_iff}
use next_loggers_ts.Prelude.{
  ◌≤◌, ◌≡◌, ◌⊎◌, refl, ap, List, [], ◌∷◌, true, false, ◌||◌, not, is_some, length, leb, arith,
  if_both, if_cases, inl, inr,
}
use next_loggers_ts.Cli.Text.{lookup, insert, lookup-insert}
use next_loggers_ts.Prometheus.{
  Numbers, Metric, MetricLabelValue, MetricError, NormalizedLabels, Series, is_empty, overflow, has,
  ordinary_budget, ordinary_count, choose_series,
}
use next_loggers_ts.Prometheus.Bounds.{
  length-insert, IsBounded, choose_series-IsBounded, size-IsBounded,
}
use next_loggers_ts.Prometheus.Values.{
  Values, no_values, update, on_labels, attempted, count_up, count_all, normalize,
}

module _ {N : Type 0} (nums : Numbers N) (stringify : List String → String) (m : Metric) where
  -- The chosen series is known, or it is the one just added.
  abbrev IsKnown : Series → NormalizedLabels × Series → Type 0
  IsKnown s c =
      ((c.1.label_text ≡ s.label_text) × (has c.0.key s ≡ true))
      ⊎ (c.1.label_text ≡ insert c.0.key c.0.rendered s.label_text)

  choose_series-IsKnown :
      (l : NormalizedLabels) (s : Series)
      → m.reserve_overflow ≡ true
      → IsKnown s (choose_series nums stringify m l s)
  unfolding choose_series
  choose_series-IsKnown l s reserved =
      let o = overflow nums stringify m in
      if_cases (IsKnown s) (has l.key s) (λ known. inl (refl, known))
        (λ new. if_both (IsKnown s) (is_empty m.label_names) (inr refl) (
          if_both (IsKnown s) (leb (ordinary_budget m) (ordinary_count nums stringify m s))
            (if_cases (λ (t : Series). IsKnown s (o, t)) m.reserve_overflow (λ r. inr refl)
              (λ r. absurd (ground (arith, r, reserved))))
            (inr refl)))

  -- The values are those of the known series, one for each.
  abbrev Matches : {V : Type 0} → Values V → Type 0
  Matches c =
      ((k : String) → is_some (lookup k c.values) ≡ has k c.series)
      × (length c.values ≡ length c.series.label_text)

  abbrev WithinMaximum : {V : Type 0} → Values V → Type 0
  WithinMaximum c = Matches c × IsBounded nums stringify m c.series

  insert-Matches :
      {V : Type 0} (v : V) (c : Values V) (chosen : NormalizedLabels × Series)
      → IsKnown c.series chosen
      → Matches c
      → Matches (record { series = chosen.1; values = insert chosen.0.key v c.values })
  insert-Matches v c chosen (inl (same, known)) (keys, lengths) =
      let key = chosen.0.key in
      (
        λ k. ground (
          arith,
          same,
          known,
          keys k,
          keys key,
          lookup-insert key k v c.values,
          eq_iff key k,
          ap (λ (l : List (String × String)). is_some (lookup k l)) same,
        ),
        grind (arith, same, known, keys key, lengths, length-insert key v c.values),
      )
  insert-Matches v c chosen (inr added) (keys, lengths) =
      let key = chosen.0.key in
      (
        λ k. ground (
          arith,
          keys k,
          lookup-insert key k v c.values,
          lookup-insert key k chosen.0.rendered c.series.label_text,
          ap (λ (l : List (String × String)). is_some (lookup k l)) added,
        ),
        ground (
          arith,
          keys key,
          lengths,
          length-insert key v c.values,
          length-insert key chosen.0.rendered c.series.label_text,
          ap (λ (l : List (String × String)). length l) added,
        ),
      )

  module _ (labelled : is_empty m.label_names ≡ false) (reserved : m.reserve_overflow ≡ true) where
    update-WithinMaximum :
        {V : Type 0} (initial : V) (f : V → V) (l : NormalizedLabels) (c : Values V)
        → WithinMaximum c
        → WithinMaximum (update nums stringify m initial f l c)
    unfolding update
    update-WithinMaximum initial f l c (matches, bounded) = (
      insert-Matches _ c (choose_series nums stringify m l c.series)
          (choose_series-IsKnown l c.series reserved) matches,
      choose_series-IsBounded nums stringify m l c.series labelled bounded,
    )

    on_labels-WithinMaximum :
        {V : Type 0} (initial : V) (f : V → V) (c : Values V) (l : MetricError ⊎ NormalizedLabels)
        → WithinMaximum c
        → WithinMaximum (attempted nums stringify m c (on_labels nums stringify m initial f c l))
    on_labels-WithinMaximum initial f c (inl error) h = h
    on_labels-WithinMaximum initial f c (inr l) h = update-WithinMaximum initial f l c h

    count_up-WithinMaximum :
        (value : N) (supplied : List (String × MetricLabelValue N)) (c : Values N)
        → WithinMaximum c
        → WithinMaximum (attempted nums stringify m c (count_up nums stringify m value supplied c))
    unfolding count_up
    count_up-WithinMaximum value supplied c h =
        if_both (λ (r : MetricError ⊎ Values N). WithinMaximum (attempted nums stringify m c r))
          (not (nums.is_finite value) || nums.is_negative value) h
          (on_labels-WithinMaximum nums.zero_value (λ v. nums.plus v value) c
            (normalize nums stringify m supplied) h)

    count_all-WithinMaximum :
        (calls : List (N × List (String × MetricLabelValue N))) (c : Values N)
        → WithinMaximum c
        → WithinMaximum (count_all nums stringify m calls c)
    unfolding count_all
    count_all-WithinMaximum [] c h = h
    count_all-WithinMaximum ((value, supplied) ∷ calls) c h =
        count_all-WithinMaximum calls _ (count_up-WithinMaximum value supplied c h)

    -- A counter with labels that reserves its overflow series has, after any calls, those that
    -- throw included, at most `maxSeries` values, the one of the overflow series among them, and
    -- each of them belongs to a known series.
    pub count_all-max_series :
        (calls : List (N × List (String × MetricLabelValue N)))
        → 1 ≤ m.max_series
        → (length (count_all nums stringify m calls no_values).values ≤ m.max_series)
          × ((k : String)
              → is_some (lookup k (count_all nums stringify m calls no_values).values)
                ≡ has k (count_all nums stringify m calls no_values).series)
    count_all-max_series calls positive =
        let ((keys, lengths), bounded) =
          count_all-WithinMaximum calls no_values ((λ k. refl, refl), ground arith) in
        let s = (count_all nums stringify m calls no_values).series in
        (omega (arith, lengths, size-IsBounded nums stringify m s reserved positive bounded), keys)
