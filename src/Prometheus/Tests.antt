-- ===== src/Prometheus/Tests.antt =====
-- Runs of the metrics of src/prometheus.ts on concrete labels and values, over natural numbers.
use Prim.Native.String.{String}
use next_loggers_ts.Prelude.{
  some, ℕ, ◌+◌, ◌≤◌, ◌≡◌, refl, true, false, List, [], ◌∷◌, is_some, length, leb, arith, ltb, inr,
}
use next_loggers_ts.Cli.Text.{lookup, insert}
use next_loggers_ts.Prometheus.{
  Numbers, Metric, MetricLabelValue, text, has, slice, replace, normalize_labels, overflow,
  choose_series, normalized, number,
}
use next_loggers_ts.Prometheus.Values.{Values, no_values, update, count_up, count_all, get}
use next_loggers_ts.Prometheus.Cardinality.{count_all-max_series}
use next_loggers_ts.Prometheus.Rendering.{read_rendered, read_rendered-normalized}
use next_loggers_ts.Prometheus.Reading.{get-count_up}
use next_loggers_ts.Prometheus.Histogram.{empty_state, observe_each, observe_each-up_to}

abbrev naturals : Numbers ℕ
naturals = record {
  zero_value = 0;
  plus = λ a b. a + b;
  negate = λ a. a;
  is_finite = λ a. ltb a 1000;
  is_negative = λ a. false;
  at_most = leb;
  number_text = λ a. "1";
}

abbrev joined : List String → String
joined [] = ""
joined (s ∷ ss) = s

-- Two series, one of them for overflow.
abbrev requests : Metric
requests = record {
  label_names = "path" ∷ [];
  max_series = 2;
  max_label_value_length = 5;
  reserve_overflow = true;
}

abbrev path : String → List (String × MetricLabelValue ℕ)
path p = ("path", text p) ∷ []

-- The third and the last call are refused a series, and the fourth call throws.
abbrev calls : List (ℕ × List (String × MetricLabelValue ℕ))
calls =
    (1, path "/a") ∷ (2, path "/a") ∷ (4, path "/b") ∷ (5000, path "/a") ∷ (8, path "/longer") ∷ []

abbrev counted : Values ℕ
counted = count_all naturals joined requests calls no_values

counted_values :
    (counted.values ≡ ("/a", 3) ∷ ("__overflow__", 12) ∷ []) × (counted.series.dropped ≡ 2)
unfolding count_all count_up update choose_series overflow normalize_labels insert slice
counted_values = (refl, refl)

count_all-max_series_example :
    (length counted.values ≤ 2)
    × ((k : String) → is_some (lookup k counted.values) ≡ has k counted.series)
count_all-max_series_example =
    count_all-max_series naturals joined requests refl refl calls (omega arith)

observe_each-up_to_example :
    ((observe_each naturals
        (1 ∷ 5 ∷ [])
        (0 ∷ 3 ∷ 9 ∷ [])
        (empty_state naturals (1 ∷ 5 ∷ []))).buckets
      ≡ 1 ∷ 2 ∷ [])
    × ((observe_each naturals
          (1 ∷ 5 ∷ [])
          (0 ∷ 3 ∷ 9 ∷ [])
          (empty_state naturals (1 ∷ 5 ∷ []))).count
        ≡ 3)
observe_each-up_to_example = observe_each-up_to naturals (1 ∷ 5 ∷ []) (0 ∷ 3 ∷ 9 ∷ [])

get-count_up_example :
    (c : Values ℕ) × (count_up naturals joined requests 8 (path "/b") counted ≡ inr c)
    × (get naturals joined requests (path "/b") c ≡ inr 20)
unfolding count_all count_up update choose_series overflow normalize_labels insert slice replace
get-count_up_example =
    get-count_up naturals joined requests 8 (path "/b") counted
      (record { key = "/b"; rendered = "{path=\"/b\"}" }) refl refl refl

read_rendered-normalized_example :
    read_rendered 2
      (normalized naturals joined
        ("path" ∷ "code" ∷ [])
        (("code", number 7) ∷ ("path", text "a\"\\\n,b=") ∷ [])
        9).rendered
    ≡ some (("path", "a\"\\\n,b=") ∷ ("code", "1") ∷ [])
unfolding slice
read_rendered-normalized_example =
    read_rendered-normalized naturals joined ("path" ∷ "code" ∷ [])
      (("code", number 7) ∷ ("path", text "a\"\\\n,b=") ∷ []) 9 refl refl
