-- ===== src/Shutdown/Waits.antt =====
-- While the phase is forcing, the promise of the force callback is pending, provided that the
-- callback returns when it is called (src/shutdown.ts).
use next_loggers_ts.Prelude.{
  ◌≡◌, Bool, true, false, List, [], ◌∷◌, Option, some, arith, Option-cases, inl, inr, is_some,
}
use next_loggers_ts.Shutdown.{
  forcing, Trigger, timeout, ErrorValue, Options, RequestOptions, ActionContext, pending, Origin,
  FinishStage, observing, flushing, Coordinator, request, finish, transition, begin_drain,
  begin_force,
}
use next_loggers_ts.Shutdown.Steps.{
  Event, requested, timer_fired, drain_resolved, drain_rejected, force_resolved, force_rejected,
  observer_settled, observers_awaited, flush_settled, on_drain_resolved, on_drain_rejected,
  on_force_rejected, timed_out, start_flush, resolve_completion, step, run, on_flushed, on_observed,
}
use next_loggers_ts.Shutdown.Invariant.{Inv, step-Inv}

-- A forcing coordinator still waits for its force callback.
abbrev pub Waits : Coordinator → Type 0
Waits s = s.phase ≡ forcing → is_some s.force_pending ≡ true

module _ (o : Options) (returns : (c : ActionContext) → o.force c ≡ pending) where
  begin_force-Waits : (g : Origin) (s : Coordinator) → Waits s → Waits (begin_force o g s).0
  unfolding begin_force transition
  begin_force-Waits g s w = grind (arith, returns)

  begin_drain-Waits : (g : Origin) (s : Coordinator) → Waits s → Waits (begin_drain o g s).0
  unfolding begin_drain transition
  begin_drain-Waits g s w = grind arith

  request-Waits :
      (t : Trigger) (r : RequestOptions) (s : Coordinator) → Waits s → Waits (request o t r s).0
  unfolding request
  request-Waits t r s w = grind (arith, begin_drain-Waits, begin_force-Waits)

  finish-Waits :
      (g : Origin) (b : Bool) (s : Coordinator)
      → (b ≡ false → Waits s)
      → s.finished ≡ false
      → Waits (finish o g b s)
  unfolding finish transition
  finish-Waits g b s w f = grind arith

  on_drain_rejected-Waits :
      (g : Origin) (e : ErrorValue) (s : Coordinator) → Waits s → Waits (on_drain_rejected o g e s)
  unfolding on_drain_rejected begin_force transition
  on_drain_rejected-Waits g e s w = grind (arith, returns)

  on_drain_resolved-Waits :
      (g : Origin) (s : Coordinator) → Waits s → Waits (on_drain_resolved o g s)
  unfolding on_drain_resolved finish transition
  on_drain_resolved-Waits g s w = grind arith

  on_force_rejected-Waits :
      (g : Origin) (e : ErrorValue) (s : Coordinator)
      → s.finished ≡ false
      → Waits (on_force_rejected o g e s)
  unfolding on_force_rejected finish transition
  on_force_rejected-Waits g e s f = grind arith

  on_observed-Waits :
      (st : FinishStage) (s : Coordinator) {s' : Coordinator}
      → Waits s
      → on_observed o st s ≡ some s'
      → Waits s'
  unfolding start_flush
  on_observed-Waits (observing ts g) s w h = ground arith
  on_observed-Waits _ s w h = cc

  on_flushed-Waits :
      (st : FinishStage) (e : Option ErrorValue) (s : Coordinator) {s' : Coordinator}
      → Waits s
      → on_flushed o st e s ≡ some s'
      → Waits s'
  unfolding resolve_completion
  on_flushed-Waits (flushing g) e s w h = ground arith
  on_flushed-Waits _ e s w h = cc

  pub step-Waits :
      (e : Event) (s : Coordinator) {s' : Coordinator}
      → Inv s
      → Waits s
      → step o e s ≡ some s'
      → Waits s'
  unfolding step
  step-Waits (requested t r) s v w h = ground (arith, request-Waits t r s)
  step-Waits timer_fired s v w h = ground (arith, request-Waits timeout timed_out s)
  step-Waits drain_resolved s v w h = grind (arith, on_drain_resolved-Waits)
  step-Waits (drain_rejected e) s v w h = grind (arith, on_drain_rejected-Waits)
  step-Waits force_resolved s v w h = grind (arith, finish-Waits)
  step-Waits (force_rejected e) s v w h = grind (arith, on_force_rejected-Waits)
  step-Waits (observer_settled n) s v w h = ground arith
  step-Waits observers_awaited s v w h = on_observed-Waits s.stage s w h
  step-Waits (flush_settled e) s v w h = on_flushed-Waits s.stage e s w h

  pub run-Waits :
      (es : List Event) (s : Coordinator) {s' : Coordinator}
      → Inv s
      → Waits s
      → run o es s ≡ some s'
      → Waits s'
  unfolding run
  run-Waits [] s v w h = ground arith
  run-Waits (e ∷ es) s {s'} v w h = elim (Option-cases (step o e s)) [
    | inl stop ↦ absurd (ground arith)
    | inr (t, go) ↦
        run-Waits es t {s' = s'} (step-Inv o e s v go) (step-Waits e s v w go) (ground arith)
  ]
