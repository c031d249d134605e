-- ===== src/Shutdown.antt =====
-- src/shutdown.ts: the two-phase shutdown coordinator (`ShutdownCoordinator`).
-- The coordinator is a record; a method takes it and returns the new record. A promise whose
-- `then` is attached is a pending field that a later call settles, the user's callbacks are
-- functions of the options, and the clock is a function of the number of reads made so far.
pub mod Steps
pub mod Invariant
pub mod Escalation
pub mod Waits
pub mod Completion
pub mod Stuck
pub mod Tests
use Prim.Native.String.{String}
use Prim.Native.String.{◌++◌ as str_append}
use next_loggers_ts.Prelude.{
  ℕ, ◌+◌, ◌-◌, Bool, true, false, List, [], ◌∷◌, ◌++◌, Option, none, some, length, if◌then◌else◌,
  not, ◌&&◌, ◌||◌,
}

pub data Phase : Type 0 where
  running draining forcing stopped : Phase

pub data Trigger : Type 0 where
  sigint sigterm stdin_eof timeout programmatic server_error drain_error : Trigger
  custom : String → Trigger

-- A value that a callback throws or rejects with; the coordinator only stores it.
abbrev pub ErrorValue : Type 0
ErrorValue = String

pub record ActionContext : Type 0 where
  pub trigger : Trigger
  pub interactive : Bool
  pub attempt : ℕ
  pub started_at : ℕ
  pub elapsed : ℕ

pub record ShutdownEvent : Type 0 where
  pub phase : Phase
  pub previous_phase : Phase
  pub trigger : Trigger
  pub interactive : Bool
  pub attempt : ℕ
  pub elapsed : ℕ
  pub timestamp : ℕ
  pub message : String
  pub error : Option ErrorValue

pub record ShutdownResult : Type 0 where
  pub forced : Bool
  pub triggers : List Trigger
  pub errors : List ErrorValue
  pub elapsed : ℕ

-- How a call of a callback that may return a promise ends: it throws before it returns, or it
-- returns and its promise is settled later.
pub data Started : Type 0 where
  threw : ErrorValue → Started
  pending : Started

-- How a call of the observer ends; `task` is a returned promise.
pub data Observed : Type 0 where
  done failed task : Observed

-- A number of milliseconds as the caller may pass it: `minus n` is -(n + 1).
pub data Millis : Type 0 where
  plus minus : ℕ → Millis

pub record Options : Type 0 where
  pub grace_period : Option Millis
  pub drain : ActionContext → Started
  pub force : ActionContext → Started
  pub has_flush : Bool
  pub on_event : ShutdownEvent → Observed
  pub now : ℕ → ℕ

pub record RequestOptions : Type 0 where
  pub force : Bool
  pub interactive : Bool

-- The calls made of the user's drain, force and flush callbacks.
pub data Call : Type 0 where
  drain_call force_call flush_call : ActionContext → Call

-- The request on whose behalf an asynchronous continuation runs.
pub record Origin : Type 0 where
  pub trigger : Trigger
  pub interactive : Bool

-- Where the one effective run of `#finish` stands: not started, awaiting the observer tasks of
-- its snapshot, awaiting the flush callback, or through.
pub data FinishStage : Type 0 where
  idle : FinishStage
  observing : List ℕ → Origin → FinishStage
  flushing : Origin → FinishStage
  settled : FinishStage

pub record Coordinator : Type 0 where
  pub phase : Phase
  pub attempt : ℕ
  pub forced : Bool
  pub timer : Option Millis
  pub finished : Bool
  pub triggers : List Trigger
  pub errors : List ErrorValue
  pub observer_tasks : List ℕ
  pub started_at : ℕ
  pub clock_reads : ℕ
  pub drain_pending : Option Origin
  pub force_pending : Option Origin
  pub stage : FinishStage
  pub completion : Option ShutdownResult
  pub events : List ShutdownEvent
  pub calls : List Call

abbrev pub is_running : Phase → Bool
is_running running = true
is_running _ = false

abbrev pub is_draining : Phase → Bool
is_draining draining = true
is_draining _ = false

abbrev pub is_forcing : Phase → Bool
is_forcing forcing = true
is_forcing _ = false

abbrev pub is_stopped : Phase → Bool
is_stopped stopped = true
is_stopped _ = false

pub trigger_name : Trigger → String
trigger_name sigint = "SIGINT"
trigger_name sigterm = "SIGTERM"
trigger_name stdin_eof = "stdin-eof"
trigger_name timeout = "timeout"
trigger_name programmatic = "programmatic"
trigger_name server_error = "server-error"
trigger_name drain_error = "drain-error"
trigger_name (custom s) = s

around : String → Trigger → String → String
around before t after = str_append before (str_append (trigger_name t) after)

pub message_for : Phase → Trigger → String
message_for draining t = around "graceful shutdown started (" t "); no new work will be accepted"
message_for forcing t = around "forced shutdown started (" t "); remaining work will be terminated"
message_for stopped t = around "shutdown complete (" t ")"
message_for running t = around "shutdown coordinator running (" t ")"

pub data ConstructError : Type 0 where
  negative_grace_period : ConstructError

pub data Constructed : Type 0 where
  constructed : Coordinator → Constructed
  refused : ConstructError → Constructed

-- `gracePeriodMillis ?? 30_000`.
abbrev pub grace_of : Options → Millis
grace_of o = elim (o.grace_period) [ none ↦ plus 30000 | some m ↦ m ]

abbrev pub is_negative : Millis → Bool
is_negative (plus _) = false
is_negative (minus _) = true

-- The constructor reads the clock once.
abbrev pub fresh : Options → Coordinator
fresh o = record {
  phase = running;
  attempt = 0;
  forced = false;
  timer = none;
  finished = false;
  triggers = [];
  errors = [];
  observer_tasks = [];
  started_at = o.now 0;
  clock_reads = 1;
  drain_pending = none;
  force_pending = none;
  stage = idle;
  completion = none;
  events = [];
  calls = [];
}

pub construct : Options → Constructed
construct o =
    if is_negative (grace_of o) then refused negative_grace_period else constructed (fresh o)

pub is_stopping : Coordinator → Bool
is_stopping s = not (is_running s.phase) && not (is_stopped s.phase)

abbrev pub read_clock : Coordinator → Coordinator
read_clock s = record s { clock_reads = s.clock_reads + 1 }

module _ (o : Options) where
  -- `Math.max(0, now - startedAt)` is the truncated subtraction.
  abbrev pub context : Coordinator → Origin → ActionContext
  context s g = record {
    trigger = g.trigger;
    interactive = g.interactive;
    attempt = s.attempt;
    started_at = s.started_at;
    elapsed = o.now s.clock_reads - s.started_at;
  }

  abbrev event_of : Coordinator → Phase → Origin → Option ErrorValue → ShutdownEvent
  event_of s next g e = record {
    phase = next;
    previous_phase = s.phase;
    trigger = g.trigger;
    interactive = g.interactive;
    attempt = s.attempt;
    elapsed = o.now s.clock_reads - s.started_at;
    timestamp = o.now (s.clock_reads + 1);
    message = message_for next g.trigger;
    error = e;
  }

  -- An observer's promise is remembered under the number of its event until it settles.
  abbrev watch : Observed → ℕ → List ℕ → List ℕ
  watch task n ts = ts ++ n ∷ []
  watch _ n ts = ts

  pub transition : Phase → Origin → Option ErrorValue → Coordinator → Coordinator
  transition next g e s =
      let event = event_of s next g e in
      record s {
        phase = next;
        clock_reads = s.clock_reads + 2;
        events = s.events ++ event ∷ [];
        observer_tasks = watch (o.on_event event) (length s.events) s.observer_tasks;
      }

  abbrev pub clear_timer : Coordinator → Coordinator
  clear_timer s = record s { timer = none }

  -- What a method leaves behind, and the error that it throws to its caller, if it does.
  abbrev pub Outcome : Type 0
  Outcome = Coordinator × Option ErrorValue

  abbrev after_drain : Started → Origin → Coordinator → Outcome
  after_drain (threw e) g s = (s, some e)
  after_drain pending g s = (record s { drain_pending = some g }, none)

  abbrev call_drain : Origin → Coordinator → Outcome
  call_drain g s =
      let c = context s g in
      after_drain (o.drain c) g (record (read_clock s) { calls = s.calls ++ drain_call c ∷ [] })

  pub begin_drain : Origin → Coordinator → Outcome
  begin_drain g s =
      if not (is_running s.phase)
      then (s, none)
      else call_drain g (record (transition draining g none s) { timer = some (grace_of o) })

  abbrev after_force : Started → Origin → Coordinator → Outcome
  after_force (threw e) g s = (s, some e)
  after_force pending g s = (record s { force_pending = some g }, none)

  abbrev call_force : Origin → Coordinator → Outcome
  call_force g s =
      let c = context s g in
      after_force (o.force c) g (record (read_clock s) { calls = s.calls ++ force_call c ∷ [] })

  pub begin_force : Origin → Coordinator → Outcome
  begin_force g s =
      if is_forcing s.phase || is_stopped s.phase
      then (s, none)
      else call_force g (transition forcing g none (clear_timer (record s { forced = true })))

  -- `request`: the promise that it returns is the `completion` field.
  pub request : Trigger → RequestOptions → Coordinator → Outcome
  request t r s =
      if s.finished
      then (s, none)
      else let s' = record s { attempt = s.attempt + 1; triggers = s.triggers ++ t ∷ [] } in
        let g : Origin = record { trigger = t; interactive = r.interactive } in
        if is_running s.phase && not r.force
        then begin_drain g s'
        else (if is_draining s.phase || r.force then begin_force g s' else (s', none))

  -- `#finish` up to its first `await`; the snapshot holds the tasks then pending.
  pub finish : Origin → Bool → Coordinator → Coordinator
  finish g by_force s =
      if s.finished
        || (not by_force && not (is_draining s.phase))
        || (by_force && not (is_forcing s.phase))
      then s
      else let s' = transition stopped g none (record (clear_timer s) { finished = true }) in
        record s' { stage = observing s'.observer_tasks g }
