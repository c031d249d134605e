-- ===== src/BrowserStream/Delivery.antt =====
-- What becomes of the records that src/browser-stream.ts accepts, over every schedule.
use mathlib.Core.List.{flatten}
use next_loggers_ts.Prelude.{
  ◌≡◌, refl, ap, ◌∙◌, inl, inr, List, [], ◌∷◌, ◌++◌, none, some, arith, Option-cases, of_some,
  append-nil, append_assoc, map,
}
use next_loggers_ts.CursorQueue.{to_array}
use next_loggers_ts.CursorQueue.Refinement.{empty-Holds, to_array-Holds}
use next_loggers_ts.BrowserStream.Tracks.{Tracks}
use next_loggers_ts.BrowserStream.{Options, Stream, Event, fresh, step, run}
use next_loggers_ts.BrowserStream.Kept.{Kept, accepts, step-Kept}

module _ {A : Type 0} where
  unfoldable pub accepted : Options A → List (Event A) → Stream A → List A
  accepted o [] s = []
  accepted o (e ∷ es) s =
      accepts e s ++ (elim (step o e s) [ none ↦ [] | some s' ↦ accepted o es s' ])

  run-Kept :
      (o : Options A) (es : List (Event A)) (s : Stream A) (ys xs : List A) {s' : Stream A}
      → Tracks s ys xs
      → run o es s ≡ some s'
      → Kept s' (xs ++ accepted o es s)
  unfolding run accepted
  run-Kept o [] s ys xs t h = of_some (λ u. Kept u (xs ++ [])) h (ys, rw append-nil t)
  run-Kept o (e ∷ es) s ys xs {s'} t h = elim (Option-cases (step o e s)) [
    | inl halted ↦ absurd (ground (arith, halted))
    | inr (u, go) ↦
        let k = step-Kept o e s ys xs t go in
        let rest = run-Kept o es u k.0 (xs ++ accepts e s) {s' = s'} k.1 (rw (go, run) at h) in
        rw (go, accepted) (rw append_assoc at rest)
  ]

  fresh-Tracks : Tracks (fresh {A = A}) [] []
  unfolding flatten
  fresh-Tracks = record { holds = empty-Holds; delivered = λ d b. refl; heads = λ d b. tt }

  contents-Tracks :
      (s : Stream A) (ys xs : List A) → Tracks s ys xs → to_array s.queue ≡ map some ys
  contents-Tracks s ys xs t = to_array-Holds s.queue ys t.holds

  -- Over every schedule from a fresh stream in which no record is dropped and nothing is handed to
  -- the beacon: the batches sent, one after the other, followed by the queue are the accepted
  -- records, each once and in the order in which they were written.
  pub run-delivers :
      (o : Options A) (es : List (Event A)) {s : Stream A}
      → run o es fresh ≡ some s
      → s.dropped ≡ 0
      → s.beacons ≡ []
      → flatten s.frames ++ to_array s.queue ≡ map some (accepted o es fresh)
  run-delivers o es {s} h d b =
      let (ys, t) = run-Kept o es fresh [] [] {s' = s} fresh-Tracks h in
      ap (λ l. flatten s.frames ++ l) (contents-Tracks s ys (accepted o es fresh) t)
      ∙ t.delivered d b
