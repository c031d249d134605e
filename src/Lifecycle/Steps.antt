-- ===== src/Lifecycle/Steps.antt =====
-- The steps of a controller of src/server-lifecycle.ts: signals, calls of the application, the end
-- of hooks and of the servers' closing, and the timers.
use next_loggers_ts.Prelude.{
  ◌+◌, ◌==◌, List, [], ◌∷◌, ◌++◌, Bool, false, not, ◌&&◌, ◌||◌, Option, none, some, is_some, length,
  if◌then◌else◌,
}
use next_loggers_ts.Lifecycle.{
  forced, closed, Cause, sigint, sigterm, stdin_eof, timeout, Hook, before_graceful, flush,
  after_graceful, force_hook, ErrorValue, exceeded, Server, Options, close_gracefully, Task,
  not_called, pending, settled, Drain, in_before, closing, flushing, in_after, ended, Forcing,
  awaiting_hook, awaiting_flush, done, Controller, is_draining, cleanup, caught, call, finish,
  force, by_phase, request_graceful,
}

-- A hook or a server that settles with an error names it.
pub data Event : Type 0 where
  signal_int signal_term stdin_end deadline : Event
  graceful_requested force_requested : Cause → Event
  dispose_called : Event
  before_settled flush_settled after_settled force_settled : Option ErrorValue → Event
  servers_settled : List (Option ErrorValue) → Event
  force_exceeded flush_exceeded : Event

module _ (o : Options) where
  -- The listener of both signals.
  abbrev pub on_signal : Cause → Controller → Controller
  on_signal c s = let t = record s { signal_count = s.signal_count + 1 } in by_phase o t.phase c t

  abbrev pub on_stdin_end : Controller → Controller
  on_stdin_end s = if s.eof_armed && is_draining s.phase then force o stdin_eof s else s

  -- `flushPromise ??= …`: the flush is called once, with the cause of its first caller.
  abbrev pub flush_by : Task → Cause → Controller → Controller
  flush_by not_called c s = call o flush c (record s { flush_task = pending c })
  flush_by (pending _) c s = s
  flush_by settled c s = s

  unfoldable pub flush_once : Cause → Controller → Controller
  flush_once c s = flush_by s.flush_task c s

  abbrev pub close_listeners : List Server → Controller → Controller
  close_listeners [] s = s
  close_listeners (v ∷ vs) s =
      close_listeners vs (record s { calls = s.calls ++ close_gracefully ∷ [] })

  -- Behind the first hook the servers are closed, if nothing has forced the shutdown.
  unfoldable pub after_before : Cause → Controller → Controller
  after_before c s =
      if is_draining s.phase
      then close_listeners o.servers (record s { drain = closing c })
      else record s { drain = ended }

  unfoldable pub on_before : Drain → Option ErrorValue → Controller → Option Controller
  on_before (in_before c) e s = some (after_before c (caught o e c s))
  on_before _ e s = none

  abbrev pub caught_all : List (Option ErrorValue) → Cause → Controller → Controller
  caught_all [] c s = s
  caught_all (e ∷ es) c s = caught_all es c (caught o e c s)

  abbrev pub any_failed : List (Option ErrorValue) → Bool
  any_failed [] = false
  any_failed (e ∷ es) = is_some e || any_failed es

  unfoldable pub after_closing : Bool → Cause → Controller → Controller
  unfolding flush_once
  after_closing failed c s =
      if is_draining s.phase
      then (if failed
          then record (force o c s) { drain = ended }
          else flush_once c (record s { drain = flushing c }))
      else record s { drain = ended }

  unfoldable pub on_servers : Drain → List (Option ErrorValue) → Controller → Option Controller
  on_servers (closing c) es s = some (after_closing (any_failed es) c (caught_all es c s))
  on_servers _ es s = none

  -- The graceful body behind the flush.
  unfoldable pub resume_drain : Drain → Controller → Controller
  resume_drain (flushing c) s =
      if is_draining s.phase
      then call o after_graceful c (record s { drain = in_after c })
      else record s { drain = ended }
  resume_drain _ s = s

  -- The forcing body behind the flush.
  unfoldable pub resume_forcing : Forcing → Controller → Controller
  resume_forcing (awaiting_flush c) s = finish o forced c (record s { forcing = done })
  resume_forcing _ s = s

  unfoldable pub on_flush : Task → Option ErrorValue → Controller → Option Controller
  unfolding resume_drain resume_forcing
  on_flush (pending c) e s =
      let t = caught o e c (record s { flush_task = settled }) in
      let t' = resume_drain s.drain t in some (resume_forcing s.forcing t')
  on_flush _ e s = none

  unfoldable pub after_after : Cause → Controller → Controller
  after_after c s =
      let t = record s { drain = ended } in if is_draining s.phase then finish o closed c t else t

  unfoldable pub on_after : Drain → Option ErrorValue → Controller → Option Controller
  unfolding after_after
  on_after (in_after c) e s = some (after_after c (caught o e c s))
  on_after _ e s = none

  -- The forcing body behind its hook: the flush, which may be called or settled already.
  unfoldable pub await_flush : Task → Cause → Controller → Controller
  await_flush not_called c s =
      call o flush c (record s { flush_task = pending c; forcing = awaiting_flush c })
  await_flush (pending _) c s = record s { forcing = awaiting_flush c }
  await_flush settled c s = finish o forced c (record s { forcing = done })

  unfoldable pub behind_hook : Forcing → Controller → Controller
  unfolding await_flush
  behind_hook (awaiting_hook c) s = await_flush s.flush_task c s
  behind_hook _ s = s

  unfoldable pub on_force : Task → Option ErrorValue → Controller → Option Controller
  unfolding behind_hook
  on_force (pending c) e s =
      some (behind_hook s.forcing (caught o e c (record s { force_task = settled })))
  on_force _ e s = none

  unfoldable pub on_force_exceeded : Forcing → Controller → Option Controller
  unfolding await_flush
  on_force_exceeded (awaiting_hook c) s =
      some (await_flush s.flush_task c (caught o (some (exceeded force_hook)) c s))
  on_force_exceeded _ s = none

  unfoldable pub on_flush_exceeded : Forcing → Controller → Option Controller
  on_flush_exceeded (awaiting_flush c) s =
      some (finish o forced c (caught o (some (exceeded flush)) c (record s { forcing = done })))
  on_flush_exceeded _ s = none

  -- A hook that is missing cannot fail.
  abbrev pub can_settle : Hook → Option ErrorValue → Bool
  can_settle h e = o.has_hook h || not (is_some e)

  -- `none` when the event cannot happen in this state.
  unfoldable pub step : Event → Controller → Option Controller
  step signal_int s = if s.listening then some (on_signal sigint s) else none
  step signal_term s = if s.listening then some (on_signal sigterm s) else none
  step stdin_end s = if s.eof_listening then some (on_stdin_end s) else none
  step deadline s = if s.timer then some (record (force o timeout s) { timer = false }) else none
  step (graceful_requested c) s = some (request_graceful o c s)
  step (force_requested c) s = some (force o c s)
  step dispose_called s = some (cleanup s)
  step (before_settled e) s = if can_settle before_graceful e then on_before s.drain e s else none
  step (flush_settled e) s = if can_settle flush e then on_flush s.flush_task e s else none
  step (after_settled e) s = if can_settle after_graceful e then on_after s.drain e s else none
  step (force_settled e) s = if can_settle force_hook e then on_force s.force_task e s else none
  step (servers_settled es) s =
      if length es == length o.servers then on_servers s.drain es s else none
  step force_exceeded s = on_force_exceeded s.forcing s
  step flush_exceeded s = on_flush_exceeded s.forcing s

  unfoldable pub run : List Event → Controller → Option Controller
  run [] s = some s
  run (e ∷ es) s = elim (step e s) [ none ↦ none | some s' ↦ run es s' ]
