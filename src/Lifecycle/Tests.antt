-- ===== src/Lifecycle/Tests.antt =====
-- Runs of a controller of src/server-lifecycle.ts on concrete schedules.
use next_loggers_ts.Prelude.{
  ◌+◌, ◌≤◌, ◌≡◌, refl, List, [], ◌∷◌, true, not, ◌||◌, none, some, is_some, map, implies, or_else,
}
use next_loggers_ts.Lifecycle.{
  Phase, draining, closed, sigint, begin_graceful, force_close, ignore, Action, before_graceful,
  flush, after_graceful, force_hook, thrown, exceeded, ErrorValue, Options, Controller,
  ShutdownEvent, installed, is_forced, is_closed, finish, force, begin, close_servers, enter_forced,
  enter_draining, request_graceful, ShutdownResult,
}
use next_loggers_ts.Lifecycle.Steps.{
  Event, signal_int, stdin_end, graceful_requested, before_settled, flush_settled, after_settled,
  servers_settled, force_exceeded, on_signal, after_before, on_before, after_closing, on_servers,
  on_flush, after_after, on_after, on_force_exceeded, step, run,
}
use next_loggers_ts.Lifecycle.Invariant.{times}
use next_loggers_ts.Lifecycle.Results.{run-hooks_once, phase-request_graceful}
use next_loggers_ts.Lifecycle.Finish.{EndsWithin, run-EndsWithin}

-- A terminal, one server whose connections cannot be closed, and all hooks.
abbrev terminal : Options
terminal = record {
  servers = record { on_close = none; on_close_all = some (thrown 7) } ∷ [];
  interactive = true;
  watch_stdin_eof = true;
  has_stdin = true;
  has_hook = λ h. true;
  now = λ n. n + 100;
}

-- An interrupt, then the end of the input while the server closes.
abbrev interrupted : List Event
interrupted =
    signal_int ∷ before_settled none ∷ stdin_end ∷ force_exceeded ∷ flush_settled none ∷ []

abbrev drained : List Event
drained =
    graceful_requested sigint
    ∷ before_settled (some (thrown 1))
    ∷ servers_settled (none ∷ [])
    ∷ flush_settled none
    ∷ after_settled none
    ∷ []

abbrev ended_by : List Event → Controller
ended_by es = or_else (run terminal es installed) installed

abbrev action_of : ShutdownEvent → Action
action_of e = e.action

abbrev phase_of : ShutdownResult → Phase
phase_of r = r.phase

abbrev errors_of : ShutdownResult → List ErrorValue
errors_of r = r.errors

interrupted_events :
    (map action_of (ended_by interrupted).events
      ≡ begin_graceful ∷ force_close ∷ ignore ∷ ignore ∷ force_close ∷ [])
    × ((ended_by interrupted).errors ≡ thrown 7 ∷ exceeded force_hook ∷ [])
    × ((ended_by interrupted).resolved ≡ true)
unfolding run step on_before after_before begin force close_servers enter_forced enter_draining
    on_force_exceeded on_flush finish
interrupted_events = (refl, refl, refl)

drained_phase : ((ended_by drained).phase ≡ closed) × ((ended_by drained).errors ≡ thrown 1 ∷ [])
unfolding run step request_graceful on_before after_before begin enter_draining on_servers
    after_closing on_flush on_after after_after finish
drained_phase = (refl, refl)

run-hooks_once_example :
    let s = ended_by drained in
    (times before_graceful s.calls ≤ 1)
    × (times flush s.calls ≤ 1)
    × (times after_graceful s.calls ≤ 1)
    × (times force_hook s.calls ≤ 1)
    × (is_some s.result ≡ s.resolved)
    × (s.exit_code_set ≡ s.resolved)
    × (implies s.resolved (is_forced s.phase || is_closed s.phase) ≡ true)
    × (implies (is_closed s.phase) s.resolved ≡ true)
    × (implies s.resolved (not s.listening) ≡ true)
unfolding run step request_graceful on_before after_before begin enter_draining on_servers
    after_closing on_flush on_after after_after finish
run-hooks_once_example = run-hooks_once terminal drained (ended_by drained) refl

run-EndsWithin_example : EndsWithin terminal 3 (ended_by (signal_int ∷ []))
unfolding run step begin enter_draining
run-EndsWithin_example =
    run-EndsWithin terminal (signal_int ∷ []) (ended_by (signal_int ∷ [])) refl refl refl

phase-request_graceful_example :
    ((request_graceful terminal sigint installed).phase ≡ draining)
    × ((on_signal terminal sigint installed).phase ≡ draining)
phase-request_graceful_example = phase-request_graceful terminal sigint installed
