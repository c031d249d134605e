-- ===== src/Shutdown/Invariant.antt =====
-- The invariant of a shutdown coordinator (src/shutdown.ts), kept by every method and by every
-- continuation.
use next_loggers_ts.Prelude.{
  refl, ℕ, ◌+◌, ◌≤◌, ◌≡◌, Bool, true, false, List, [], ◌∷◌, ◌++◌, Option, none, some, arith, length,
  length-append, is_some, Option-cases, inl, inr, if◌then◌else◌, implies, ◌==◌,
}
use next_loggers_ts.Shutdown.{
  Phase, running, draining, forcing, stopped, Trigger, timeout, ErrorValue, Options, RequestOptions,
  Call, drain_call, force_call, flush_call, Origin, FinishStage, idle, observing, flushing, settled,
  Coordinator, is_draining, is_stopped, fresh, begin_drain, begin_force, request, finish,
  begin_drain, begin_force, transition,
}
use next_loggers_ts.Shutdown.Steps.{
  Event, requested, timer_fired, drain_resolved, drain_rejected, force_resolved, force_rejected,
  observer_settled, observers_awaited, flush_settled, on_drain_resolved, on_drain_rejected,
  on_force_rejected, timed_out, start_flush, resolve_completion, on_flushed, on_observed, step, run,
}

abbrev pub drains : List Call → ℕ
drains [] = 0
drains (drain_call c ∷ cs) = drains cs + 1
drains (force_call c ∷ cs) = drains cs
drains (flush_call c ∷ cs) = drains cs

abbrev pub forces : List Call → ℕ
forces [] = 0
forces (drain_call c ∷ cs) = forces cs
forces (force_call c ∷ cs) = forces cs + 1
forces (flush_call c ∷ cs) = forces cs

abbrev pub flushes : List Call → ℕ
flushes [] = 0
flushes (drain_call c ∷ cs) = flushes cs
flushes (force_call c ∷ cs) = flushes cs
flushes (flush_call c ∷ cs) = flushes cs + 1

drains-append : (cs ds : List Call) → drains (cs ++ ds) ≡ drains cs + drains ds
drains-append [] ds = omega arith
drains-append (drain_call c ∷ cs) ds = omega (arith, drains-append cs ds)
drains-append (force_call c ∷ cs) ds = drains-append cs ds
drains-append (flush_call c ∷ cs) ds = drains-append cs ds

forces-append : (cs ds : List Call) → forces (cs ++ ds) ≡ forces cs + forces ds
forces-append [] ds = omega arith
forces-append (drain_call c ∷ cs) ds = forces-append cs ds
forces-append (force_call c ∷ cs) ds = omega (arith, forces-append cs ds)
forces-append (flush_call c ∷ cs) ds = forces-append cs ds

flushes-append : (cs ds : List Call) → flushes (cs ++ ds) ≡ flushes cs + flushes ds
flushes-append [] ds = omega arith
flushes-append (drain_call c ∷ cs) ds = flushes-append cs ds
flushes-append (force_call c ∷ cs) ds = flushes-append cs ds
flushes-append (flush_call c ∷ cs) ds = omega (arith, flushes-append cs ds)

-- The flush callback has been called or passed over.
abbrev pub is_past_observing : FinishStage → Bool
is_past_observing idle = false
is_past_observing (observing _ _) = false
is_past_observing (flushing _) = true
is_past_observing settled = true

abbrev pub is_idle : FinishStage → Bool
is_idle idle = true
is_idle (observing _ _) = false
is_idle (flushing _) = false
is_idle settled = false

abbrev pub is_settled : FinishStage → Bool
is_settled idle = false
is_settled (observing _ _) = false
is_settled (flushing _) = false
is_settled settled = true

-- How often drain and force have been called, by phase.
abbrev pub Called : Phase → Bool → List Call → Type 0
Called running f cs = (f ≡ false) × (drains cs ≡ 0) × (forces cs ≡ 0)
Called draining f cs = (f ≡ false) × (drains cs ≡ 1) × (forces cs ≡ 0)
Called forcing f cs = (f ≡ true) × (drains cs ≤ 1) × (forces cs ≡ 1)
Called stopped true cs = (drains cs ≤ 1) × (forces cs ≡ 1)
Called stopped false cs = (drains cs ≡ 1) × (forces cs ≡ 0)

pub record Inv (s : Coordinator) : Type 0 where
  pub timer_draining : is_some s.timer ≡ true → s.phase ≡ draining
  pub force_forcing : is_some s.force_pending ≡ true → s.phase ≡ forcing
  pub finished_stopped : s.finished ≡ is_stopped s.phase
  pub idle_unstopped : is_idle s.stage ≡ true → s.finished ≡ false
  pub idle_unfinished : s.finished ≡ false → is_idle s.stage ≡ true
  pub attempts : s.attempt ≡ length s.triggers
  pub called : Called s.phase s.forced s.calls
  pub flushed_once : flushes s.calls ≤ 1
  pub flushed_late : is_past_observing s.stage ≡ false → flushes s.calls ≡ 0
  pub settled_completed : is_some s.completion ≡ is_settled s.stage

pub fresh-Inv : (o : Options) → Inv (fresh o)
fresh-Inv o = ground arith

module _ (o : Options) where
  request-Inv :
      (t : Trigger) (r : RequestOptions) (s : Coordinator) → Inv s → Inv (request o t r s).0
  unfolding request begin_drain begin_force transition
  request-Inv t r s v = grind (arith, drains-append, forces-append, flushes-append, length-append)

  finish-Inv :
      (g : Origin) (b : Bool) (s : Coordinator)
      → Inv s
      → is_some s.force_pending ≡ false
      → Inv (finish o g b s)
  unfolding finish transition
  finish-Inv g b s v h = grind (arith, drains-append, forces-append, flushes-append)

  on_drain_resolved-Inv : (g : Origin) (s : Coordinator) → Inv s → Inv (on_drain_resolved o g s)
  unfolding on_drain_resolved finish transition
  on_drain_resolved-Inv g s v = grind (arith, drains-append, forces-append, flushes-append)

  on_drain_rejected-Inv :
      (g : Origin) (e : ErrorValue) (s : Coordinator) → Inv s → Inv (on_drain_rejected o g e s)
  unfolding on_drain_rejected begin_force transition
  on_drain_rejected-Inv g e s v = grind (arith, drains-append, forces-append, flushes-append)

  on_force_rejected-Inv :
      (g : Origin) (e : ErrorValue) (s : Coordinator)
      → Inv s
      → s.phase ≡ forcing
      → is_some s.force_pending ≡ false
      → Inv (on_force_rejected o g e s)
  unfolding on_force_rejected finish transition
  on_force_rejected-Inv g e s v h p = grind (arith, drains-append, forces-append, flushes-append)

  start_flush-Inv :
      (g : Origin) (s : Coordinator) (ts : List ℕ)
      → Inv s
      → s.stage ≡ observing ts g
      → Inv (start_flush o g s)
  unfolding start_flush
  start_flush-Inv g s ts v h = grind (arith, drains-append, forces-append, flushes-append)

  resolve_completion-Inv :
      (g : Origin) (e : Option ErrorValue) (s : Coordinator)
      → Inv s
      → s.stage ≡ flushing g
      → Inv (resolve_completion o g e s)
  unfolding resolve_completion
  resolve_completion-Inv g e s v h = grind arith

  drained-Inv : (s : Coordinator) → Inv s → Inv (record s { drain_pending = none })
  drained-Inv s v = ground arith

  pub force_taken-Inv : (s : Coordinator) → Inv s → Inv (record s { force_pending = none })
  force_taken-Inv s v = ground arith

  on_flushed-Inv :
      (st : FinishStage) (e : Option ErrorValue) (s : Coordinator) {s' : Coordinator}
      → Inv s
      → s.stage ≡ st
      → on_flushed o st e s ≡ some s'
      → Inv s'
  on_flushed-Inv (flushing g) e s v p h = ground (arith, resolve_completion-Inv g e s)
  on_flushed-Inv _ e s v p h = cc

  on_observed-Inv :
      (st : FinishStage) (s : Coordinator) {s' : Coordinator}
      → Inv s
      → s.stage ≡ st
      → on_observed o st s ≡ some s'
      → Inv s'
  on_observed-Inv (observing ts g) s v p h = ground (arith, start_flush-Inv g s ts)
  on_observed-Inv _ s v p h = cc

  -- Whatever happens keeps the invariant.
  pub step-Inv :
      (e : Event) (s : Coordinator) {s' : Coordinator} → Inv s → step o e s ≡ some s' → Inv s'
  unfolding step
  step-Inv (requested t r) s v h = ground (arith, request-Inv t r s)
  step-Inv timer_fired s v h = ground (arith, request-Inv timeout timed_out s)
  step-Inv drain_resolved s v h = grind (arith, drained-Inv s v, on_drain_resolved-Inv)
  step-Inv (drain_rejected e) s v h = grind (arith, drained-Inv s v, on_drain_rejected-Inv)
  step-Inv force_resolved s v h = grind (arith, force_taken-Inv s v, finish-Inv)
  step-Inv (force_rejected e) s v h = grind (arith, force_taken-Inv s v, on_force_rejected-Inv)
  step-Inv (observer_settled n) s v h = ground arith
  step-Inv observers_awaited s v h = on_observed-Inv s.stage s v refl h
  step-Inv (flush_settled e) s v h = on_flushed-Inv s.stage e s v refl h

  pub run-Inv :
      (es : List Event) (s : Coordinator) {s' : Coordinator} → Inv s → run o es s ≡ some s' → Inv s'
  unfolding run
  run-Inv [] s v h = ground arith
  run-Inv (e ∷ es) s v h = elim (Option-cases (step o e s)) [
    | inl stop ↦ absurd (ground arith)
    | inr (t, go) ↦ run-Inv es t (step-Inv e s v go) (ground arith)
  ]

  -- In every run of a new coordinator, whatever the callbacks do and in whatever order requests,
  -- the timer, promises and observers come: drain and flush are each called at most once, force
  -- exactly once if the shutdown was forced and never otherwise, drain has been called while the
  -- phase is draining, the timer is armed only while draining, the attempts count the recorded
  -- triggers, and the completion is resolved only in phase stopped.
  pub run-at_most_once :
      (es : List Event) {s : Coordinator}
      → run o es (fresh o) ≡ some s
      → (drains s.calls ≤ 1)
        × (forces s.calls ≡ (if s.forced then 1 else 0))
        × (flushes s.calls ≤ 1)
        × (implies (is_draining s.phase) (drains s.calls == 1) ≡ true)
        × (implies (is_some s.timer) (is_draining s.phase) ≡ true)
        × (s.attempt ≡ length s.triggers)
        × (implies (is_some s.completion) (is_stopped s.phase) ≡ true)
  run-at_most_once es {s} h = let v = run-Inv es (fresh o) (fresh-Inv o) h in grind arith
