-- ===== src/Shutdown/Steps.antt =====
-- The asynchronous half of src/shutdown.ts: the continuations of the coordinator's promises and
-- its timer, and runs of a coordinator over what its environment does.
use next_loggers_ts.Prelude.{
  ℕ, ◌==◌, Bool, true, false, List, [], ◌∷◌, ◌++◌, Option, none, some, if◌then◌else◌, not, ◌&&◌,
  ◌||◌, is_some,
}
use next_loggers_ts.Shutdown.{
  Trigger, timeout, drain_error, ErrorValue, ShutdownResult, Options, RequestOptions, flush_call,
  Origin, FinishStage, observing, flushing, settled, Coordinator, draining, forcing, is_draining,
  context, read_clock, transition, begin_force, request, finish,
}

-- What happens to a coordinator next. The environment chooses the order.
pub data Event : Type 0 where
  requested : Trigger → RequestOptions → Event
  timer_fired drain_resolved force_resolved observers_awaited : Event
  drain_rejected force_rejected : ErrorValue → Event
  observer_settled : ℕ → Event
  flush_settled : Option ErrorValue → Event

unfoldable pub contains : List ℕ → ℕ → Bool
contains [] n = false
contains (x ∷ xs) n = x == n || contains xs n

unfoldable pub remove : ℕ → List ℕ → List ℕ
remove n [] = []
remove n (x ∷ xs) = let rest = remove n xs in if x == n then rest else x ∷ rest

-- Some task of the snapshot has not settled.
unfoldable pub awaits : List ℕ → List ℕ → Bool
unfolding contains
awaits [] tasks = false
awaits (n ∷ ns) tasks = contains tasks n || awaits ns tasks

abbrev pub timed_out : RequestOptions
timed_out = record { force = true; interactive = false }

module _ (o : Options) where
  unfoldable pub on_drain_resolved : Origin → Coordinator → Coordinator
  on_drain_resolved g s = if is_draining s.phase then finish o g false s else s

  -- The error of a `force` that throws is the rejection of a promise that nobody reads.
  unfoldable pub on_drain_rejected : Origin → ErrorValue → Coordinator → Coordinator
  on_drain_rejected g e s =
      let s' = record s { errors = s.errors ++ e ∷ [] } in
      let g' : Origin = record { trigger = drain_error; interactive = g.interactive } in
      if is_draining s.phase
      then (begin_force o g' (transition o draining g' (some e) s')).0
      else s'

  unfoldable pub on_force_rejected : Origin → ErrorValue → Coordinator → Coordinator
  on_force_rejected g e s =
      finish o g true (transition o forcing g (some e) (record s { errors = s.errors ++ e ∷ [] }))

  -- `#finish` from its first `await` to its second.
  unfoldable pub start_flush : Origin → Coordinator → Coordinator
  start_flush g s = record (read_clock s) {
    stage = flushing g;
    calls = if o.has_flush then s.calls ++ flush_call (context o s g) ∷ [] else s.calls;
  }

  abbrev push_error : Option ErrorValue → List ErrorValue → List ErrorValue
  push_error none es = es
  push_error (some e) es = es ++ e ∷ []

  -- `#finish` from its second `await` to its end.
  unfoldable pub resolve_completion : Origin → Option ErrorValue → Coordinator → Coordinator
  resolve_completion g e s =
      let errors : List ErrorValue = push_error e s.errors in
      let result : ShutdownResult = record {
        forced = s.forced;
        triggers = s.triggers;
        errors = errors;
        elapsed = (context o s g).elapsed;
      } in
      record (read_clock s) { errors = errors; stage = settled; completion = some result }

  abbrev on_drain :
      Option Origin → (Origin → Coordinator → Coordinator) → Coordinator → Option Coordinator
  on_drain none k s = none
  on_drain (some g) k s = some (k g (record s { drain_pending = none }))

  abbrev on_force :
      Option Origin → (Origin → Coordinator → Coordinator) → Coordinator → Option Coordinator
  on_force none k s = none
  on_force (some g) k s = some (k g (record s { force_pending = none }))

  abbrev pub on_observed : FinishStage → Coordinator → Option Coordinator
  on_observed (observing snapshot g) s =
      if awaits snapshot s.observer_tasks then none else some (start_flush g s)
  on_observed _ s = none

  abbrev pub on_flushed : FinishStage → Option ErrorValue → Coordinator → Option Coordinator
  on_flushed (flushing g) e s =
      if is_some e && not o.has_flush then none else some (resolve_completion g e s)
  on_flushed _ e s = none

  -- One event; `none` when it cannot happen in this state. What a method throws goes to its
  -- caller and is not part of the coordinator.
  unfoldable pub step : Event → Coordinator → Option Coordinator
  step (requested t r) s = some (request o t r s).0
  step timer_fired s = if is_some s.timer then some (request o timeout timed_out s).0 else none
  step drain_resolved s = on_drain s.drain_pending on_drain_resolved s
  step (drain_rejected e) s = on_drain s.drain_pending (λ g. on_drain_rejected g e) s
  step force_resolved s = on_force s.force_pending (λ g. finish o g true) s
  step (force_rejected e) s = on_force s.force_pending (λ g. on_force_rejected g e) s
  step (observer_settled n) s =
      if contains s.observer_tasks n
      then some (record s { observer_tasks = remove n s.observer_tasks })
      else none
  step observers_awaited s = on_observed s.stage s
  step (flush_settled e) s = on_flushed s.stage e s

  unfoldable pub run : List Event → Coordinator → Option Coordinator
  run [] s = some s
  run (e ∷ es) s = elim (step e s) [ none ↦ none | some s' ↦ run es s' ]
