-- ===== src/Lifecycle.antt =====
-- src/server-lifecycle.ts: the state of an installed controller, and what its methods do up to
-- their first `await`. The steps of the environment are in Lifecycle/Steps. Hooks and the logger
-- do not call back into the controller; message texts are left out.
pub mod Steps
pub mod Invariant
pub mod Continuations
pub mod Results
pub mod Finish
pub mod Tests
use next_loggers_ts.Prelude.{
  ℕ, ◌+◌, ◌==◌, List, [], ◌∷◌, ◌++◌, Bool, true, false, not, ◌&&◌, ◌||◌, Option, none, some,
  if◌then◌else◌,
}

pub data Phase : Type 0 where
  running draining forced closed : Phase

pub data Cause : Type 0 where
  sigint sigterm stdin_eof timeout programmatic : Cause

pub data Action : Type 0 where
  begin_graceful force_close ignore : Action

-- The callbacks of the options.
pub data Hook : Type 0 where
  before_graceful flush after_graceful force_hook : Hook

-- An error that foreign code threw, or that a wait for a hook ran out of time.
pub data ErrorValue : Type 0 where
  thrown : ℕ → ErrorValue
  exceeded : Hook → ErrorValue

pub record ShutdownEvent : Type 0 where
  pub phase : Phase
  pub action : Action
  pub cause : Cause
  pub interactive : Bool
  pub signal_count : ℕ
  pub error : Option ErrorValue

pub record ShutdownResult : Type 0 where
  pub phase : Phase
  pub cause : Cause
  pub started_at : ℕ
  pub finished_at : ℕ
  pub errors : List ErrorValue

-- What a server throws when `force` closes it, and when it closes its connections; an error that
-- only says that the server is closed already is no error.
pub record Server : Type 0 where
  pub on_close : Option ErrorValue
  pub on_close_all : Option ErrorValue

pub record Options : Type 0 where
  pub servers : List Server
  pub interactive : Bool
  pub watch_stdin_eof : Bool
  pub has_stdin : Bool
  pub has_hook : Hook → Bool
  pub now : ℕ → ℕ

pub data Call : Type 0 where
  hook : Hook → Cause → Call
  close_gracefully close_now : Call

-- A callback that is called once: `flushPromise`, and the force hook.
pub data Task : Type 0 where
  not_called : Task
  pending : Cause → Task
  settled : Task

-- Where the asynchronous body of `requestGraceful` waits.
pub data Drain : Type 0 where
  not_begun : Drain
  in_before closing flushing in_after : Cause → Drain
  ended : Drain

-- Where the asynchronous body of `force` waits.
pub data Forcing : Type 0 where
  not_forced : Forcing
  awaiting_hook awaiting_flush : Cause → Forcing
  done : Forcing

pub record Controller : Type 0 where
  pub phase : Phase
  pub signal_count : ℕ
  pub started_at : ℕ
  pub timer : Bool
  pub disposed : Bool
  pub resolved : Bool
  pub listening : Bool
  pub eof_armed : Bool
  pub eof_listening : Bool
  pub flush_task : Task
  pub force_task : Task
  pub drain : Drain
  pub forcing : Forcing
  pub clock_reads : ℕ
  pub exit_code_set : Bool
  pub result : Option ShutdownResult
  pub errors : List ErrorValue
  pub events : List ShutdownEvent
  pub calls : List Call

abbrev pub installed : Controller
installed = record {
  phase = running;
  signal_count = 0;
  started_at = 0;
  timer = false;
  disposed = false;
  resolved = false;
  listening = true;
  eof_armed = false;
  eof_listening = false;
  flush_task = not_called;
  force_task = not_called;
  drain = not_begun;
  forcing = not_forced;
  clock_reads = 0;
  exit_code_set = false;
  result = none;
  errors = [];
  events = [];
  calls = [];
}

-- At least one server is required.
abbrev pub install : Options → Option Controller
install o = elim (o.servers) [ [] ↦ none | _ ↦ some installed ]

abbrev pub is_running : Phase → Bool
is_running running = true
is_running _ = false

abbrev pub is_draining : Phase → Bool
is_draining draining = true
is_draining _ = false

abbrev pub is_forced : Phase → Bool
is_forced forced = true
is_forced _ = false

abbrev pub is_closed : Phase → Bool
is_closed closed = true
is_closed _ = false

abbrev pub is_sigint : Cause → Bool
is_sigint sigint = true
is_sigint _ = false

-- The pure transition helper that the module exports.
abbrev pub next_shutdown_action : Phase → Cause → Action
next_shutdown_action running c = begin_graceful
next_shutdown_action draining c = force_close
next_shutdown_action _ c = ignore

abbrev pub cleanup : Controller → Controller
cleanup s =
    if s.disposed
    then s
    else record s { disposed = true; timer = false; listening = false; eof_listening = false }

module _ (o : Options) where
  abbrev pub emit : Action → Cause → Option ErrorValue → Controller → Controller
  emit a c e s =
      let event : ShutdownEvent = record {
        phase = s.phase;
        action = a;
        cause = c;
        interactive = o.interactive;
        signal_count = s.signal_count;
        error = e;
      } in
      record s { events = s.events ++ event ∷ [] }

  -- The `catch` block of `capture`, and of the other calls of foreign code.
  abbrev pub caught : Option ErrorValue → Cause → Controller → Controller
  caught none c s = s
  caught (some e) c s = emit ignore c (some e) (record s { errors = s.errors ++ e ∷ [] })

  abbrev pub call : Hook → Cause → Controller → Controller
  call h c s = if o.has_hook h then record s { calls = s.calls ++ hook h c ∷ [] } else s

  unfoldable pub finish : Phase → Cause → Controller → Controller
  finish p c s =
      if s.resolved
      then s
      else let t = cleanup (record s { resolved = true; phase = p }) in
        let t' =
          emit (if is_forced p then force_close else ignore) c none
            (record t { exit_code_set = true; clock_reads = t.clock_reads + 1 }) in
        record t' {
          result = some (record {
            phase = p;
            cause = c;
            started_at = t.started_at;
            finished_at = o.now t.clock_reads;
            errors = t.errors;
          });
        }

  unfoldable pub close_servers : List Server → Cause → Controller → Controller
  close_servers [] c s = s
  close_servers (v ∷ vs) c s = close_servers vs c (
      caught v.on_close_all c
        (caught v.on_close c (record s { calls = s.calls ++ close_now ∷ [] })))

  abbrev pub start_clock : Controller → Controller
  start_clock s =
      if s.started_at == 0
      then record s { started_at = o.now s.clock_reads; clock_reads = s.clock_reads + 1 }
      else s

  -- `force` up to the closing of the servers.
  unfoldable pub enter_forced : Cause → Controller → Controller
  enter_forced c s = emit force_close c none (record (start_clock s) {
    phase = forced;
    timer = false;
    forcing = awaiting_hook c;
    force_task = pending c;
  })

  unfoldable pub force : Cause → Controller → Controller
  force c s =
      if is_forced s.phase || is_closed s.phase
      then s
      else call force_hook c (close_servers o.servers c (enter_forced c s))

  abbrev pub arm_interactive_eof : Controller → Controller
  arm_interactive_eof s =
      if s.eof_armed || not o.watch_stdin_eof || not o.interactive || not o.has_stdin
      then s
      else record s { eof_armed = true; eof_listening = true }

  -- `requestGraceful` of a running controller, up to its first hook.
  unfoldable pub enter_draining : Cause → Controller → Controller
  enter_draining c s =
      let t = emit begin_graceful c none (record s {
        started_at = o.now s.clock_reads;
        clock_reads = s.clock_reads + 1;
        phase = draining;
      }) in
      let t' = if o.interactive && is_sigint c then arm_interactive_eof t else t in
      record t' { timer = true; drain = in_before c }

  unfoldable pub begin : Cause → Controller → Controller
  begin c s = call before_graceful c (enter_draining c s)

  abbrev pub by_phase : Phase → Cause → Controller → Controller
  by_phase running c s = begin c s
  by_phase draining c s = force c s
  by_phase forced c s = s
  by_phase closed c s = s

  unfoldable pub request_graceful : Cause → Controller → Controller
  request_graceful c s = by_phase s.phase c s
