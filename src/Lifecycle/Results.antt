-- ===== src/Lifecycle/Results.antt =====
-- What holds over every schedule of a controller of src/server-lifecycle.ts.
use next_loggers_ts.Prelude.{
  ◌+◌, ◌≤◌, ◌≡◌, ◌==◌, refl, List, [], ◌∷◌, true, false, not, ◌&&◌, ◌||◌, some, is_some, length,
  implies, arith, if_both, of_some, some_of_if, Option-cases, inl, inr,
}
use next_loggers_ts.Lifecycle.{
  Phase, running, draining, forced, closed, Cause, sigint, sigterm, stdin_eof, timeout, Action,
  begin_graceful, force_close, ignore, next_shutdown_action, before_graceful, flush, after_graceful,
  force_hook, Options, Controller, installed, is_draining, is_forced, is_closed, force, begin,
  enter_draining, by_phase, request_graceful,
}
use next_loggers_ts.Lifecycle.Steps.{
  Event, signal_int, signal_term, stdin_end, deadline, graceful_requested, force_requested,
  dispose_called, before_settled, flush_settled, after_settled, force_settled, servers_settled,
  force_exceeded, flush_exceeded, on_signal, on_stdin_end, can_settle, step, run,
}
use next_loggers_ts.Lifecycle.Invariant.{Inv, times, force-Inv, cleanup-Inv}
use next_loggers_ts.Lifecycle.Continuations.{
  by_phase-Inv, on_signal-Inv, on_before-Inv, on_servers-Inv, on_flush-Inv, on_after-Inv,
  on_force-Inv, on_force_exceeded-Inv, on_flush_exceeded-Inv, phase-force,
}

module _ (o : Options) where
  on_stdin_end-Inv : (s : Controller) → Inv s → Inv (on_stdin_end o s)
  on_stdin_end-Inv s v =
      if_both Inv (s.eof_armed && is_draining s.phase) (force-Inv o stdin_eof s v) v

  pub fired-Inv : (s : Controller) → Inv s → Inv (record (force o timeout s) { timer = false })
  fired-Inv s v = let w = force-Inv o timeout s v in let p = phase-force o timeout s in grind arith

  step-Inv : (e : Event) (s s' : Controller) → Inv s → step o e s ≡ some s' → Inv s'
  unfolding step request_graceful
  step-Inv signal_int s s' v h = of_some Inv (some_of_if s.listening h) (on_signal-Inv o sigint s v)
  step-Inv signal_term s s' v h =
      of_some Inv (some_of_if s.listening h) (on_signal-Inv o sigterm s v)
  step-Inv stdin_end s s' v h = of_some Inv (some_of_if s.eof_listening h) (on_stdin_end-Inv s v)
  step-Inv deadline s s' v h = of_some Inv (some_of_if s.timer h) (fired-Inv s v)
  step-Inv (graceful_requested c) s s' v h = of_some Inv h (by_phase-Inv o s.phase c s refl v)
  step-Inv (force_requested c) s s' v h = of_some Inv h (force-Inv o c s v)
  step-Inv dispose_called s s' v h = of_some Inv h (cleanup-Inv o s v)
  step-Inv (before_settled e) s s' v h =
      on_before-Inv o s.drain e s s' refl v (some_of_if (can_settle o before_graceful e) h)
  step-Inv (flush_settled e) s s' v h =
      on_flush-Inv o s.flush_task e s s' refl v (some_of_if (can_settle o flush e) h)
  step-Inv (after_settled e) s s' v h =
      on_after-Inv o s.drain e s s' refl v (some_of_if (can_settle o after_graceful e) h)
  step-Inv (force_settled e) s s' v h =
      on_force-Inv o s.force_task e s s' v (some_of_if (can_settle o force_hook e) h)
  step-Inv (servers_settled es) s s' v h =
      on_servers-Inv o s.drain es s s' refl v (some_of_if (length es == length o.servers) h)
  step-Inv force_exceeded s s' v h = on_force_exceeded-Inv o s.forcing s s' refl v h
  step-Inv flush_exceeded s s' v h = on_flush_exceeded-Inv o s.forcing s s' refl v h

  pub run-Inv : (es : List Event) (s s' : Controller) → Inv s → run o es s ≡ some s' → Inv s'
  unfolding run
  run-Inv [] s s' v h = of_some Inv h v
  run-Inv (e ∷ es) s s' v h = elim (Option-cases (step o e s)) [
    | inl stop ↦ absurd (ground arith)
    | inr (t, go) ↦ run-Inv es t s' (step-Inv e s t v go) (ground arith)
  ]

pub installed-Inv : Inv installed
installed-Inv = ground arith

-- Over every schedule of signals, requests, disposals, deadlines and ends of hooks: each hook is
-- called at most once; there is a result, and the exit code is set, just when the shutdown is
-- over; it is over only when the controller is forced or closed, and a closed controller is over;
-- and the signal listeners are gone by then.
pub run-hooks_once :
    (o : Options) (es : List Event) (s : Controller)
    → run o es installed ≡ some s
    → (times before_graceful s.calls ≤ 1)
      × (times flush s.calls ≤ 1)
      × (times after_graceful s.calls ≤ 1)
      × (times force_hook s.calls ≤ 1)
      × (is_some s.result ≡ s.resolved)
      × (s.exit_code_set ≡ s.resolved)
      × (implies s.resolved (is_forced s.phase || is_closed s.phase) ≡ true)
      × (implies (is_closed s.phase) s.resolved ≡ true)
      × (implies s.resolved (not s.listening) ≡ true)
run-hooks_once o es s h = let v = run-Inv o es installed s installed-Inv h in grind arith

-- The phase after an action.
abbrev pub after_action : Action → Phase → Phase
after_action begin_graceful p = draining
after_action force_close p = forced
after_action ignore p = p

phase-by_phase :
    (o : Options) (p : Phase) (c : Cause) (s : Controller)
    → s.phase ≡ p
    → (by_phase o p c s).phase ≡ after_action (next_shutdown_action p c) p
unfolding begin enter_draining
phase-by_phase o running c s e = ground arith
phase-by_phase o draining c s e = ground (arith, phase-force o c s)
phase-by_phase o forced c s e = e
phase-by_phase o closed c s e = e

-- A request, and a signal too, moves a controller to the phase that the exported pure helper names
-- for its phase and cause, whatever its state is otherwise; a signal is counted besides.
pub phase-request_graceful :
    (o : Options) (c : Cause) (s : Controller)
    → ((request_graceful o c s).phase ≡ after_action (next_shutdown_action s.phase c) s.phase)
      × ((on_signal o c s).phase ≡ after_action (next_shutdown_action s.phase c) s.phase)
unfolding request_graceful
phase-request_graceful o c s = (
  phase-by_phase o s.phase c s refl,
  phase-by_phase o s.phase c (record s { signal_count = s.signal_count + 1 }) refl,
)
