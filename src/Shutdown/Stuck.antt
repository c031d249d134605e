-- ===== src/Shutdown/Stuck.antt =====
-- A force callback that throws before it returns (`#beginForce` of src/shutdown.ts).
use next_loggers_ts.Prelude.{
  refl, ◌≡◌, false, List, [], ◌∷◌, none, some, arith, Option-cases, inl, inr,
}
use next_loggers_ts.Shutdown.{
  draining, forcing, Trigger, timeout, ErrorValue, Options, RequestOptions, ActionContext, threw,
  Origin, Coordinator, request, transition, begin_drain, begin_force,
}
use next_loggers_ts.Shutdown.Steps.{
  Event, requested, timer_fired, drain_resolved, drain_rejected, force_resolved, force_rejected,
  observer_settled, observers_awaited, flush_settled, on_drain_resolved, on_drain_rejected,
  timed_out, step, run,
}
use next_loggers_ts.Shutdown.Invariant.{Inv, step-Inv}

module _ (o : Options) where
  -- A forcing coordinator that has no promise of force to wait for.
  abbrev IsStuck : Coordinator → Type 0
  IsStuck s =
      (s.phase ≡ forcing) × (s.force_pending ≡ none) × (s.finished ≡ false) × (s.completion ≡ none)

  request-IsStuck :
      (t : Trigger) (r : RequestOptions) (s : Coordinator) → IsStuck s → IsStuck (request o t r s).0
  unfolding request begin_drain begin_force transition
  request-IsStuck t r s k = ground arith

  on_drain_resolved-IsStuck :
      (g : Origin) (s : Coordinator) → IsStuck s → IsStuck (on_drain_resolved o g s)
  unfolding on_drain_resolved
  on_drain_resolved-IsStuck g s k = ground arith

  on_drain_rejected-IsStuck :
      (g : Origin) (e : ErrorValue) (s : Coordinator)
      → IsStuck s
      → IsStuck (on_drain_rejected o g e s)
  unfolding on_drain_rejected
  on_drain_rejected-IsStuck g e s k = ground arith

  step-IsStuck :
      (e : Event) (s : Coordinator) {s' : Coordinator}
      → Inv s
      → IsStuck s
      → step o e s ≡ some s'
      → IsStuck s'
  unfolding step
  step-IsStuck (requested t r) s v k h = ground (arith, request-IsStuck t r s)
  step-IsStuck timer_fired s v k h = ground (arith, request-IsStuck timeout timed_out s)
  step-IsStuck drain_resolved s v k h = grind (arith, on_drain_resolved-IsStuck)
  step-IsStuck (drain_rejected e) s v k h = grind (arith, on_drain_rejected-IsStuck)
  step-IsStuck force_resolved s v k h = ground arith
  step-IsStuck (force_rejected e) s v k h = ground arith
  step-IsStuck (observer_settled n) s v k h = ground arith
  step-IsStuck observers_awaited s v k h = ground arith
  step-IsStuck (flush_settled e) s v k h = ground arith

  run-IsStuck :
      (es : List Event) (s : Coordinator) {s' : Coordinator}
      → Inv s
      → IsStuck s
      → run o es s ≡ some s'
      → IsStuck s'
  unfolding run
  run-IsStuck [] s v k h = ground arith
  run-IsStuck (e ∷ es) s {s'} v k h = elim (Option-cases (step o e s)) [
    | inl stop ↦ absurd (ground arith)
    | inr (t, go) ↦
        run-IsStuck es t {s' = s'} (step-Inv o e s v go) (step-IsStuck e s v k go) (ground arith)
  ]

  forced-IsStuck :
      (t : Trigger) (r : RequestOptions) (s : Coordinator) {x : ErrorValue}
      → Inv s
      → ((c : ActionContext) → o.force c ≡ threw x)
      → s.phase ≡ draining
      → IsStuck (request o t r s).0 × ((request o t r s).1 ≡ some x)
  unfolding request begin_force transition
  forced-IsStuck t r s v throws h = grind (arith, throws)

  -- If force throws before it returns, the request that escalates a draining coordinator throws
  -- the same error, and no further events ever resolve the shutdown promise: the coordinator
  -- stays in phase forcing.
  pub forced_throw-never_completes :
      (t : Trigger) (r : RequestOptions) (s : Coordinator) {x : ErrorValue}
      → Inv s
      → ((c : ActionContext) → o.force c ≡ threw x)
      → s.phase ≡ draining
      → (es : List Event) {s' : Coordinator} → run o es (request o t r s).0 ≡ some s'
      → ((request o t r s).1 ≡ some x) × (s'.completion ≡ none) × (s'.phase ≡ forcing)
  unfolding step
  forced_throw-never_completes t r s v throws h es run_on =
      let k = forced-IsStuck t r s v throws h in
      let stuck =
        run-IsStuck es (request o t r s).0 (step-Inv o (requested t r) s v refl) k.0 run_on in
      (k.1, stuck.3, stuck.0)
