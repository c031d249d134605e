-- ===== src/Prometheus/Histogram.antt =====
-- `Histogram.observe` of src/prometheus.ts, and the buckets that it fills.
use Prim.Native.String.{String}
use next_loggers_ts.Prelude.{
  ℕ, suc, ◌+◌, ◌≡◌, refl, ap, ◌∙◌, sym, ◌⊎◌, inl, List, [], ◌∷◌, not, if◌then◌else◌, length, arith,
  map,
}
use next_loggers_ts.Prometheus.{Numbers, MetricLabelValue, Metric, MetricError, not_finite}
use next_loggers_ts.Prometheus.Values.{Values, on_labels, normalize}

pub record HistogramState (N : Type 0) : Type 0 where
  pub buckets : List ℕ
  pub count : ℕ
  pub sum : N

module _ {N : Type 0} (nums : Numbers N) where
  abbrev pub zeros : List N → List ℕ
  zeros [] = []
  zeros (b ∷ bs) = 0 ∷ zeros bs

  -- The loop over the bounds; a missing bucket counts from zero.
  unfoldable pub fill : List N → N → List ℕ → List ℕ
  fill [] v counts = counts
  fill (b ∷ bs) v [] = (if nums.at_most v b then 1 else 0) ∷ fill bs v []
  fill (b ∷ bs) v (n ∷ counts) = (if nums.at_most v b then n + 1 else n) ∷ fill bs v counts

  abbrev pub empty_state : List N → HistogramState N
  empty_state bounds = record { buckets = zeros bounds; count = 0; sum = nums.zero_value }

  unfoldable pub observe_in : List N → N → HistogramState N → HistogramState N
  observe_in bounds v s = record {
    buckets = fill bounds v s.buckets;
    count = s.count + 1;
    sum = nums.plus s.sum v;
  }

  unfoldable pub observe :
      (List String → String)
      → Metric
      → List N
      → N
      → List (String × MetricLabelValue N)
      → Values (HistogramState N)
      → MetricError ⊎ Values (HistogramState N)
  observe stringify m bounds v supplied c =
      if not (nums.is_finite v)
      then inl not_finite
      else on_labels nums stringify m (empty_state bounds) (observe_in bounds v) c
          (normalize nums stringify m supplied)

  unfoldable pub observe_each : List N → List N → HistogramState N → HistogramState N
  observe_each bounds [] s = s
  observe_each bounds (v ∷ vs) s = observe_each bounds vs (observe_in bounds v s)

  -- How many values are at most the bound.
  abbrev pub up_to : List N → N → ℕ
  up_to [] b = 0
  up_to (v ∷ vs) b = let rest = up_to vs b in if nums.at_most v b then rest + 1 else rest

  -- The buckets of a histogram whose values are those of `vs` on top of some counts.
  abbrev above : List N → List N → List ℕ → List ℕ
  above [] vs counts = counts
  above (b ∷ bs) vs [] = up_to vs b ∷ above bs vs []
  above (b ∷ bs) vs (n ∷ counts) = (n + up_to vs b) ∷ above bs vs counts

  above-fill :
      (bounds vs : List N) (v : N) (counts : List ℕ)
      → above bounds vs (fill bounds v counts) ≡ above bounds (v ∷ vs) counts
  unfolding fill
  above-fill [] vs v counts = refl
  above-fill (b ∷ bs) vs v [] = grind (arith, above-fill bs vs v [])
  above-fill (b ∷ bs) vs v (n ∷ counts) = grind (arith, above-fill bs vs v counts)

  above_none :
      (bounds : List N) (counts : List ℕ)
      → length counts ≡ length bounds
      → above bounds [] counts ≡ counts
  above_none [] counts h = refl
  above_none (b ∷ bs) [] h = absurd (ground (arith, h))
  above_none (b ∷ bs) (n ∷ counts) h = grind (arith, above_none bs counts)

  above-zeros : (bounds vs : List N) → above bounds vs (zeros bounds) ≡ map (up_to vs) bounds
  above-zeros [] vs = refl
  above-zeros (b ∷ bs) vs = grind (arith, above-zeros bs vs)

  length-fill :
      (bounds : List N) (v : N) (counts : List ℕ)
      → length counts ≡ length bounds
      → length (fill bounds v counts) ≡ length bounds
  unfolding fill
  length-fill [] v counts h = h
  length-fill (b ∷ bs) v [] h = absurd (ground (arith, h))
  length-fill (b ∷ bs) v (n ∷ counts) h = grind (arith, length-fill bs v counts)

  length-zeros : (bounds : List N) → length (zeros bounds) ≡ length bounds
  length-zeros [] = refl
  length-zeros (b ∷ bs) = ap suc (length-zeros bs)

  buckets-observe_each :
      (bounds vs : List N) (s : HistogramState N)
      → length s.buckets ≡ length bounds
      → (observe_each bounds vs s).buckets ≡ above bounds vs s.buckets
  unfolding observe_each observe_in
  buckets-observe_each bounds [] s h = sym (above_none bounds s.buckets h)
  buckets-observe_each bounds (v ∷ vs) s h =
      buckets-observe_each bounds vs (observe_in bounds v s) (length-fill bounds v s.buckets h)
      ∙ above-fill bounds vs v s.buckets

  count-observe_each :
      (bounds vs : List N) (s : HistogramState N)
      → (observe_each bounds vs s).count ≡ s.count + length vs
  unfolding observe_each observe_in
  count-observe_each bounds [] s = omega arith
  count-observe_each bounds (v ∷ vs) s =
      omega (arith, count-observe_each bounds vs (observe_in bounds v s))

  -- After a series has observed some values, its bucket for each bound holds how many of them are
  -- at most that bound, and its count is the number of the values.
  pub observe_each-up_to :
      (bounds vs : List N)
      → ((observe_each bounds vs (empty_state bounds)).buckets ≡ map (up_to vs) bounds)
        × ((observe_each bounds vs (empty_state bounds)).count ≡ length vs)
  observe_each-up_to bounds vs = (
    buckets-observe_each bounds vs (empty_state bounds) (length-zeros bounds)
        ∙ above-zeros bounds vs,
    omega (arith, count-observe_each bounds vs (empty_state bounds)),
  )
