-- ===== src/Shutdown/Escalation.antt =====
-- What a shutdown request does, phase by phase, and how the phases follow each other
-- (`request`, `#beginDrain` and `#beginForce` of src/shutdown.ts).
use next_loggers_ts.Prelude.{
  refl, sym, ◌∙◌, ℕ, ◌≤◌, ◌≡◌, Bool, true, false, List, [], ◌∷◌, ◌++◌, Option, none, some, arith,
  Option-cases, inl, inr, if◌then◌else◌,
}
use next_loggers_ts.Shutdown.{
  Phase, running, draining, forcing, stopped, Trigger, timeout, ErrorValue, Millis, ShutdownEvent,
  Options, transition, RequestOptions, Origin, FinishStage, observing, flushing, Coordinator, fresh,
  begin_drain, begin_force, request, finish, grace_of,
}
use next_loggers_ts.Shutdown.Steps.{
  Event, requested, timer_fired, drain_resolved, drain_rejected, force_resolved, force_rejected,
  observer_settled, observers_awaited, flush_settled, on_drain_resolved, on_drain_rejected,
  on_force_rejected, timed_out, start_flush, resolve_completion, step, run, on_flushed, on_observed,
}
use next_loggers_ts.Shutdown.Invariant.{Inv, fresh-Inv, step-Inv}

abbrev pub rank : Phase → ℕ
rank running = 0
rank draining = 1
rank forcing = 2
rank stopped = 3

-- What a plain request, and a forcing one, make of each phase.
abbrev pub after_request : Phase → Bool → Phase
after_request running false = draining
after_request running true = forcing
after_request draining _ = forcing
after_request forcing _ = forcing
after_request stopped _ = stopped

-- The drain timer after a request.
abbrev pub timer_after : Options → Phase → Bool → Option Millis → Option Millis
timer_after o running false t = some (grace_of o)
timer_after o _ _ t = none

-- The events of a run link up: each starts in the phase that the one before it entered, and no
-- event goes back to an earlier phase.
abbrev pub Linked : Phase → List ShutdownEvent → Phase → Type 0
Linked p [] q = p ≡ q
Linked p (e ∷ es) q = (e.previous_phase ≡ p) × (rank p ≤ rank e.phase) × Linked e.phase es q

Linked-snoc :
    (p : Phase) (es : List ShutdownEvent) {q : Phase} (e : ShutdownEvent)
    → Linked p es q
    → e.previous_phase ≡ q
    → rank q ≤ rank e.phase
    → Linked p (es ++ e ∷ []) e.phase
Linked-snoc p [] e l h r = (h ∙ sym l, rw l r, refl)
Linked-snoc p (d ∷ es) e l h r = (l.0, l.1, Linked-snoc d.phase es e l.2 h r)

abbrev pub IsLinked : Coordinator → Type 0
IsLinked s = Linked running s.events s.phase

module _ (o : Options) where
  -- On a coordinator that satisfies the invariant, a request moves a running coordinator to
  -- draining, or to forcing if it asks for force, escalates a draining one to forcing, and leaves
  -- the phase of a forcing or stopped one. It records its trigger unless the coordinator has
  -- finished, arms the timer with the grace period exactly when it starts the drain, and disarms
  -- it otherwise.
  pub phase-request :
      (t : Trigger) (r : RequestOptions) (s : Coordinator)
      → Inv s
      → let s' = (request o t r s).0 in
        (s'.phase ≡ after_request s.phase r.force)
        × (s'.triggers ≡ (if s.finished then s.triggers else s.triggers ++ t ∷ []))
        × (s'.timer ≡ timer_after o s.phase r.force s.timer)
        × (s'.errors ≡ s.errors)
  unfolding request begin_drain begin_force transition
  phase-request t r s v = grind arith

  transition-IsLinked :
      (next : Phase) (g : Origin) (e : Option ErrorValue) (s : Coordinator)
      → IsLinked s
      → rank s.phase ≤ rank next
      → IsLinked (transition o next g e s)
  unfolding transition
  transition-IsLinked next g e s l r = Linked-snoc running s.events _ l refl r

  begin_force-IsLinked :
      (g : Origin) (s : Coordinator) → IsLinked s → IsLinked (begin_force o g s).0
  unfolding begin_force
  begin_force-IsLinked g s l = grind (arith, transition-IsLinked)

  begin_drain-IsLinked :
      (g : Origin) (s : Coordinator) → IsLinked s → IsLinked (begin_drain o g s).0
  unfolding begin_drain
  begin_drain-IsLinked g s l = grind (arith, transition-IsLinked)

  finish-IsLinked :
      (g : Origin) (b : Bool) (s : Coordinator) → IsLinked s → IsLinked (finish o g b s)
  unfolding finish
  finish-IsLinked g b s l = grind (arith, transition-IsLinked)

  request-IsLinked :
      (t : Trigger) (r : RequestOptions) (s : Coordinator)
      → IsLinked s
      → IsLinked (request o t r s).0
  unfolding request
  request-IsLinked t r s l = grind (arith, begin_drain-IsLinked, begin_force-IsLinked)

  on_drain_rejected-IsLinked :
      (g : Origin) (e : ErrorValue) (s : Coordinator)
      → IsLinked s
      → IsLinked (on_drain_rejected o g e s)
  unfolding on_drain_rejected
  on_drain_rejected-IsLinked g e s l = grind (arith, transition-IsLinked, begin_force-IsLinked)

  on_force_rejected-IsLinked :
      (g : Origin) (e : ErrorValue) (s : Coordinator)
      → IsLinked s
      → s.phase ≡ forcing
      → IsLinked (on_force_rejected o g e s)
  unfolding on_force_rejected
  on_force_rejected-IsLinked g e s l p =
      finish-IsLinked g true _ (transition-IsLinked forcing g (some e) _ l (ground arith))

  on_drain_resolved-IsLinked :
      (g : Origin) (s : Coordinator) → IsLinked s → IsLinked (on_drain_resolved o g s)
  unfolding on_drain_resolved
  on_drain_resolved-IsLinked g s l = ground (arith, finish-IsLinked g false s)

  on_observed-IsLinked :
      (st : FinishStage) (s : Coordinator) {s' : Coordinator}
      → IsLinked s
      → on_observed o st s ≡ some s'
      → IsLinked s'
  unfolding start_flush
  on_observed-IsLinked (observing ts g) s l h = ground arith
  on_observed-IsLinked _ s l h = cc

  on_flushed-IsLinked :
      (st : FinishStage) (e : Option ErrorValue) (s : Coordinator) {s' : Coordinator}
      → IsLinked s
      → on_flushed o st e s ≡ some s'
      → IsLinked s'
  unfolding resolve_completion
  on_flushed-IsLinked (flushing g) e s l h = ground arith
  on_flushed-IsLinked _ e s l h = cc

  step-IsLinked :
      (e : Event) (s : Coordinator) {s' : Coordinator}
      → Inv s
      → IsLinked s
      → step o e s ≡ some s'
      → IsLinked s'
  unfolding step
  step-IsLinked (requested t r) s v l h = ground (arith, request-IsLinked t r s)
  step-IsLinked timer_fired s v l h = ground (arith, request-IsLinked timeout timed_out s)
  step-IsLinked drain_resolved s v l h = grind (arith, on_drain_resolved-IsLinked)
  step-IsLinked (drain_rejected e) s v l h = grind (arith, on_drain_rejected-IsLinked)
  step-IsLinked force_resolved s v l h = grind (arith, finish-IsLinked)
  step-IsLinked (force_rejected e) s v l h = grind (arith, on_force_rejected-IsLinked)
  step-IsLinked (observer_settled n) s v l h = ground arith
  step-IsLinked observers_awaited s v l h = on_observed-IsLinked s.stage s l h
  step-IsLinked (flush_settled e) s v l h = on_flushed-IsLinked s.stage e s l h

  run-IsLinked_from :
      (es : List Event) (s : Coordinator) {s' : Coordinator}
      → Inv s
      → IsLinked s
      → run o es s ≡ some s'
      → IsLinked s'
  unfolding run
  run-IsLinked_from [] s v l h = ground arith
  run-IsLinked_from (e ∷ es) s {s'} v l h = elim (Option-cases (step o e s)) [
    | inl stop ↦ absurd (ground arith)
    | inr (t, go) ↦
        run-IsLinked_from es t {s' = s'} (step-Inv o e s v go) (step-IsLinked e s v l go)
          (ground arith)
  ]

  -- In every run of a new coordinator the events that its observer receives link up from running
  -- to the present phase: each names the phase before it, and the phase never goes back.
  pub run-IsLinked : (es : List Event) {s : Coordinator} → run o es (fresh o) ≡ some s → IsLinked s
  run-IsLinked es h = run-IsLinked_from es (fresh o) (fresh-Inv o) refl h
