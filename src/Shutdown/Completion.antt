-- ===== src/Shutdown/Completion.antt =====
-- Completion of a shutdown (`#finish` of src/shutdown.ts): when the callbacks do not throw
-- before they return, every coordinator that was asked to stop can be brought to an end.
use next_loggers_ts.Prelude.{
  refl, ◌∙◌, ℕ, suc, ◌≤◌, ◌≡◌, true, false, List, [], ◌∷◌, none, some, arith, Option-cases, inl,
  inr, is_some, length, zero,
}
use next_loggers_ts.Shutdown.{
  Phase, running, draining, forcing, stopped, programmatic, Options, ActionContext, pending, Origin,
  FinishStage, idle, observing, flushing, settled, Coordinator, fresh, request, finish, transition,
}
use next_loggers_ts.Shutdown.Steps.{
  Event, requested, force_resolved, observer_settled, observers_awaited, flush_settled, timed_out,
  start_flush, resolve_completion, step, run, contains, remove, awaits,
}
use next_loggers_ts.Shutdown.Escalation.{after_request, phase-request}
use next_loggers_ts.Shutdown.Waits.{Waits, step-Waits, run-Waits}
use next_loggers_ts.Shutdown.Invariant.{Inv, force_taken-Inv, fresh-Inv, step-Inv, run-Inv}

-- The shutdown promise has been resolved.
abbrev pub IsComplete : Coordinator → Type 0
IsComplete s = is_some s.completion ≡ true

not-awaits-nil : (snap : List ℕ) → awaits snap [] ≡ false
unfolding awaits contains
not-awaits-nil [] = refl
not-awaits-nil (n ∷ ns) = not-awaits-nil ns

length-remove : (n : ℕ) (ts : List ℕ) → length (remove n ts) ≤ length ts
unfolding remove
length-remove n [] = omega arith
length-remove n (t ∷ ts) = ground (arith, length-remove n ts)

contains-head : (t : ℕ) (ts : List ℕ) → contains (t ∷ ts) t ≡ true
unfolding contains
contains-head t ts = ground arith

remove-head : (t : ℕ) (ts : List ℕ) → remove t (t ∷ ts) ≡ remove t ts
unfolding remove
remove-head t ts = ground arith

stage-start_flush :
    (o : Options) (g : Origin) (s : Coordinator) → (start_flush o g s).stage ≡ flushing g
unfolding start_flush
stage-start_flush o g s = refl

module _ (o : Options) where
  -- `s` can be brought to completion by some further events.
  abbrev pub CanComplete : Coordinator → Type 0
  CanComplete s = (es : List Event) × (s' : Coordinator) × (run o es s ≡ some s') × IsComplete s'

  after_step :
      (e : Event) (s : Coordinator) {t : Coordinator}
      → step o e s ≡ some t
      → CanComplete t
      → CanComplete s
  unfolding run
  after_step e s h c = (e ∷ c.0, c.1, rw (h, run) c.2, c.3)

  flushing-CanComplete : (g : Origin) (s : Coordinator) → s.stage ≡ flushing g → CanComplete s
  unfolding step resolve_completion run
  flushing-CanComplete g s h =
      after_step (flush_settled none) s {t = resolve_completion o g none s} (ground arith)
        ([], resolve_completion o g none s, refl, refl)

  -- Settling the tasks one by one, the snapshot is at last awaited.
  observing-CanComplete :
      (n : ℕ) (g : Origin) (snap tasks : List ℕ) (s : Coordinator)
      → length tasks ≤ n
      → s.observer_tasks ≡ tasks
      → s.stage ≡ observing snap g
      → CanComplete s
  unfolding step
  observing-CanComplete n g snap [] s b e h =
      after_step observers_awaited s {t = start_flush o g s} (ground (arith, not-awaits-nil snap))
        (flushing-CanComplete g (start_flush o g s) (stage-start_flush o g s))
  observing-CanComplete zero g snap (t ∷ ts) s b e h = absurd (omega arith)
  observing-CanComplete (suc n) g snap (t ∷ ts) s b e h =
      after_step (observer_settled t) s
        {t = record s { observer_tasks = remove t s.observer_tasks }} (rw (e, contains-head t ts))
        (observing-CanComplete n g snap (remove t ts) _ (omega (arith, length-remove t ts))
          (rw e (remove-head t ts)) h)

  stopped-CanComplete :
      (st : FinishStage) (s : Coordinator)
      → Inv s
      → s.stage ≡ st
      → s.phase ≡ stopped
      → CanComplete s
  stopped-CanComplete idle s v e h = ground arith
  stopped-CanComplete (observing snap g) s v e h =
      observing-CanComplete (length s.observer_tasks) g snap s.observer_tasks s (omega arith) refl e
  stopped-CanComplete (flushing g) s v e h = flushing-CanComplete g s e
  stopped-CanComplete settled s v e h = ([], s, unfold run in refl, ground arith)

  forced-finish-stops :
      (g : Origin) (s : Coordinator)
      → Inv s
      → s.phase ≡ forcing
      → (finish o g true s).phase ≡ stopped
  unfolding finish transition
  forced-finish-stops g s v h = ground arith

  forcing-CanComplete : (s : Coordinator) → Inv s → s.phase ≡ forcing → Waits s → CanComplete s
  unfolding step
  forcing-CanComplete s v h w = elim (Option-cases s.force_pending) [
    | inl none_left ↦ absurd (ground (arith, w h))
    | inr (g, e) ↦
        let t = record s { force_pending = none } in
        after_step force_resolved s {t = finish o g true t} (rw e) (
          stopped-CanComplete _ (finish o g true t) (step-Inv o force_resolved s v (rw e)) refl
            (forced-finish-stops g t (force_taken-Inv o s v) h))
  ]

  module _ (returns : (c : ActionContext) → o.force c ≡ pending) where
    -- A forced request from the phases that it moves to forcing.
    force_now-CanComplete :
        (s : Coordinator) → Inv s → Waits s → after_request s.phase true ≡ forcing → CanComplete s
    unfolding step
    force_now-CanComplete s v w h =
        let e : Event = requested programmatic timed_out in
        let t = (request o programmatic timed_out s).0 in
        after_step e s {t = t} refl (
          forcing-CanComplete t (step-Inv o e s v refl)
            ((phase-request o programmatic timed_out s v).0 ∙ h)
            (step-Waits o returns e s v w refl))

    -- If force returns whenever it is called, then from every state that a new coordinator can
    -- reach some further events resolve the shutdown promise.
    pub run-CanComplete :
        (es : List Event) {s : Coordinator} → run o es (fresh o) ≡ some s → CanComplete s
    run-CanComplete es {s} h = by_phase s.phase refl
      where
        v : Inv s
        v = run-Inv o es (fresh o) (fresh-Inv o) h

        w : Waits s
        w = run-Waits o returns es (fresh o) (fresh-Inv o) (λ e. cc) h

        by_phase : (p : Phase) → s.phase ≡ p → CanComplete s
        by_phase running e = force_now-CanComplete s v w (ground arith)
        by_phase draining e = force_now-CanComplete s v w (ground arith)
        by_phase forcing e = forcing-CanComplete s v e w
        by_phase stopped e = stopped-CanComplete s.stage s v refl e
