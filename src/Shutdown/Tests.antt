-- ===== src/Shutdown/Tests.antt =====
-- Runs of the coordinator of src/shutdown.ts on concrete schedules.
use next_loggers_ts.Prelude.{
  ◌*◌, ◌≤◌, ◌≡◌, refl, true, false, List, [], ◌∷◌, none, some, or_else, length, ◌==◌, implies,
  is_some, if◌then◌else◌,
}
use next_loggers_ts.Shutdown.{
  draining, forcing, stopped, sigint, sigterm, Options, pending, threw, task, RequestOptions,
  Coordinator, fresh, request, begin_drain, begin_force, transition, finish, is_draining,
  is_stopped, grace_of,
}
use next_loggers_ts.Shutdown.Steps.{
  Event, requested, timer_fired, drain_resolved, drain_rejected, force_resolved, observer_settled,
  observers_awaited, flush_settled, start_flush, resolve_completion, step, run, contains, remove,
  awaits, on_drain_resolved, on_drain_rejected,
}
use next_loggers_ts.Shutdown.Invariant.{
  Inv, run-at_most_once, drains, forces, flushes, fresh-Inv, step-Inv,
}
use next_loggers_ts.Shutdown.Escalation.{phase-request, IsLinked, run-IsLinked}
use next_loggers_ts.Shutdown.Completion.{CanComplete, run-CanComplete}
use next_loggers_ts.Shutdown.Stuck.{forced_throw-never_completes}

abbrev plain : RequestOptions
plain = record { force = false; interactive = true }

-- Callbacks that return promises, an observer that returns one, and a clock of 10 ms a read.
abbrev calm : Options
calm = record {
  grace_period = none;
  drain = λ c. pending;
  force = λ c. pending;
  has_flush = true;
  on_event = λ e. task;
  now = λ n. n * 10;
}

-- A force callback that throws.
abbrev broken : Options
broken = record calm { force = λ c. threw "boom" }

-- Ctrl-C, Ctrl-C, the force ends, the three observer tasks settle, the flush fails.
abbrev script : List Event
script =
    requested sigint plain
    ∷ requested sigint plain
    ∷ force_resolved
    ∷ drain_rejected "late"
    ∷ observer_settled 1
    ∷ observer_settled 0
    ∷ observer_settled 2
    ∷ observers_awaited
    ∷ flush_settled (some "lost")
    ∷ []

abbrev ended : Coordinator
ended = or_else (run calm script (fresh calm)) (fresh calm)

ended_forced :
    (ended.phase ≡ stopped)
    × (ended.forced ≡ true)
    × (length ended.calls ≡ 3)
    × (is_some ended.completion ≡ true)
unfolding run step request begin_drain begin_force transition finish start_flush resolve_completion
    contains remove awaits on_drain_rejected
ended_forced = (refl, refl, refl, refl)

-- The timer escalates a drain that does not end.
timer_escalates :
    (or_else
      (run calm (requested sigterm plain ∷ timer_fired ∷ []) (fresh calm))
      (fresh calm)).phase
    ≡ forcing
unfolding run step request begin_drain begin_force transition
timer_escalates = refl

-- The observers are not awaited while one of them is pending.
observers_block :
    run calm (requested sigterm plain ∷ drain_resolved ∷ observers_awaited ∷ []) (fresh calm) ≡ none
unfolding run step request begin_drain transition finish on_drain_resolved awaits contains
observers_block = refl

run-at_most_once_example :
    (drains ended.calls ≤ 1)
    × (forces ended.calls ≡ (if ended.forced then 1 else 0))
    × (flushes ended.calls ≤ 1)
    × (implies (is_draining ended.phase) (drains ended.calls == 1) ≡ true)
    × (implies (is_some ended.timer) (is_draining ended.phase) ≡ true)
    × (ended.attempt ≡ length ended.triggers)
    × (implies (is_some ended.completion) (is_stopped ended.phase) ≡ true)
unfolding run step request begin_drain begin_force transition finish start_flush resolve_completion
    contains remove awaits on_drain_rejected
run-at_most_once_example = run-at_most_once calm script {s = ended} refl

phase-request_example :
    let s' = (request calm sigint plain (fresh calm)).0 in
    (s'.phase ≡ draining)
    × (s'.triggers ≡ sigint ∷ [])
    × (s'.timer ≡ some (grace_of calm))
    × (s'.errors ≡ [])
phase-request_example = phase-request calm sigint plain (fresh calm) (fresh-Inv calm)

run-IsLinked_example : IsLinked ended
unfolding run step request begin_drain begin_force transition finish start_flush resolve_completion
    contains remove awaits on_drain_rejected
run-IsLinked_example = run-IsLinked calm script {s = ended} refl

run-CanComplete_example : CanComplete calm (fresh calm)
unfolding run
run-CanComplete_example = run-CanComplete calm (λ c. refl) [] {s = fresh calm} refl

abbrev draining_broken : Coordinator
draining_broken = (request broken sigint plain (fresh broken)).0

draining_broken-Inv : Inv draining_broken
unfolding step
draining_broken-Inv =
    step-Inv broken (requested sigint plain) (fresh broken) (fresh-Inv broken) refl

abbrev stuck : Coordinator
stuck = (request broken sigint plain draining_broken).0

forced_throw-never_completes_example :
    ((request broken sigint plain draining_broken).1 ≡ some "boom")
    × (stuck.completion ≡ none)
    × (stuck.phase ≡ forcing)
unfolding run request begin_drain begin_force transition
forced_throw-never_completes_example =
    forced_throw-never_completes broken sigint plain draining_broken draining_broken-Inv (λ c. refl)
      refl [] {s' = stuck} refl
