-- ===== src/BaseLogger/Realtime.antt =====
-- `SupabaseRealtimeTransport` of src/base-logger.ts. A record is named by the ref of its message.
-- Every handler of a socket is an event, and so is the continuation of an `await this.connect()`;
-- the states of the sockets, whether one can be made, and which sends throw are the environment's.
pub mod Accounts
pub mod Bounds
pub mod Closing
pub mod Tests
use next_loggers_ts.Prelude.{
  ℕ, zero, suc, ◌+◌, ◌*◌, ◌^◌, min, max, List, [], ◌∷◌, ◌++◌, Bool, true, false, not, ◌&&◌, ◌||◌,
  Option, none, some, is_some, map, take, drop, length, leb, ltb, ◌==◌, if◌then◌else◌,
}

pub record Options : Type 0 where
  pub max_queue_size : ℕ
  pub reconnect : Bool

-- A `join_ref` of `none` is the empty string.
pub record Message : Type 0 where
  pub ref : ℕ
  pub join_ref : Option ℕ

-- Who awaits a connection: `write`, `flush`, or the timer of a reconnection.
pub data Caller : Type 0 where
  writing : Message → Caller
  flushing reconnecting : Caller

pub data Reply : Type 0 where
  accepted rejected channel_down unrelated : Reply

-- `connecting` is the socket of `connectPromise`: a socket has settled when it is another.
-- `written`, `sent`, `lost`, `asked_to_close`, `joins` and `heartbeats` are records of what the
-- transport did; the last two are the refs of the join frames and of the heartbeats that it sent.
pub record Realtime : Type 0 where
  pub socket : Option ℕ
  pub connecting : Option ℕ
  pub queue : List Message
  pub joined : Bool
  pub join_ref : Option ℕ
  pub closed : Bool
  pub ref : ℕ
  pub heartbeat_timer : Bool
  pub reconnect_timer : Option ℕ
  pub reconnect_attempts : ℕ
  pub waiting : List Caller
  pub continuing : List (Caller × Bool)
  pub sockets : ℕ
  pub ready_state : ℕ → ℕ
  pub sends : ℕ
  pub written : List Message
  pub sent : List Message
  pub lost : List Message
  pub asked_to_close : List ℕ
  pub joins : List ℕ
  pub heartbeats : List ℕ

abbrev pub fresh : Realtime
fresh = record {
  socket = none;
  connecting = none;
  queue = [];
  joined = false;
  join_ref = none;
  closed = false;
  ref = 0;
  heartbeat_timer = false;
  reconnect_timer = none;
  reconnect_attempts = 0;
  waiting = [];
  continuing = [];
  sockets = 0;
  ready_state = λ i. 0;
  sends = 0;
  written = [];
  sent = [];
  lost = [];
  asked_to_close = [];
  joins = [];
  heartbeats = [];
}

pub data Event : Type 0 where
  write_called flush_called timer_fired : Bool → Event
  close_called continued heartbeat_fired : Event
  opened errored ended timed_out : ℕ → Event
  received : ℕ → Reply → Event
  ready_changed : (ℕ → ℕ) → Event

abbrev pub is_socket : ℕ → Option ℕ → Bool
is_socket i none = false
is_socket i (some j) = i == j

-- `this.socket?.readyState === 1`.
abbrev pub is_open : (ℕ → ℕ) → Option ℕ → Bool
is_open ready none = false
is_open ready (some i) = ready i == 1

abbrev pub is_connected : Realtime → Bool
is_connected s = is_open s.ready_state s.socket && s.joined

abbrev pub is_empty : List Message → Bool
is_empty [] = true
is_empty (m ∷ ms) = false

abbrev pub listed : Option ℕ → List ℕ
listed none = []
listed (some i) = i ∷ []

unfoldable pub settle : Caller → Bool → Realtime → Realtime
settle c ok s = record s { continuing = s.continuing ++ (c, ok) ∷ [] }

unfoldable pub finish : ℕ → Bool → Realtime → Realtime
finish i ok s =
    if is_socket i s.connecting
    then record s {
      connecting = none;
      waiting = [];
      continuing = s.continuing ++ map (λ c. (c, ok)) s.waiting;
      asked_to_close =
          if not ok && leb (s.ready_state i) 1
          then s.asked_to_close ++ i ∷ []
          else s.asked_to_close;
    }
    else s

unfoldable pub connect : Bool → Caller → Realtime → Realtime
connect creates c s =
    if s.closed
    then settle c false s
    else if is_connected s
    then settle c true s
    else if is_some s.connecting
    then record s { waiting = s.waiting ++ c ∷ [] }
    else if not creates
    then settle c false s
    else record s {
      socket = some s.sockets;
      connecting = some s.sockets;
      sockets = suc s.sockets;
      joined = false;
      join_ref = none;
      waiting = s.waiting ++ c ∷ [];
    }

unfoldable pub opened_by : Realtime → Realtime
opened_by s = record s {
  ref = suc s.ref;
  join_ref = some (suc s.ref);
  joins = s.joins ++ suc s.ref ∷ [];
}

unfoldable pub heartbeat : Realtime → Realtime
heartbeat s =
    if is_open s.ready_state s.socket
    then record s { ref = suc s.ref; heartbeats = s.heartbeats ++ suc s.ref ∷ [] }
    else s

unfoldable pub close : Realtime → Realtime
close s = record s {
  closed = true;
  heartbeat_timer = false;
  reconnect_timer = none;
  asked_to_close = s.asked_to_close ++ listed s.socket;
  socket = none;
  joined = false;
  join_ref = none;
  reconnect_attempts = 0;
}

abbrev pub next_message : Realtime → Message
next_message s = record { ref = suc s.ref; join_ref = s.join_ref }

unfoldable pub write : Bool → Realtime → Realtime
write creates s =
    let m = next_message s in
    connect creates (writing m) (record s { ref = suc s.ref; written = s.written ++ m ∷ [] })

unfoldable pub flush : Bool → Realtime → Realtime
flush creates s = if is_empty s.queue then s else connect creates flushing s

module _ (o : Options) where
  unfoldable pub enqueue : Message → Realtime → Realtime
  enqueue m s =
      if leb (max 1 o.max_queue_size) (length s.queue)
      then record s { queue = drop 1 s.queue ++ m ∷ []; lost = s.lost ++ take 1 s.queue }
      else record s { queue = s.queue ++ m ∷ [] }

  unfoldable pub schedule_reconnect : Realtime → Realtime
  schedule_reconnect s =
      if (s.closed || not o.reconnect) || is_empty s.queue
      then s
      else if is_some s.reconnect_timer
      then s
      else record s {
        reconnect_timer = some (min (1000 * 2 ^ s.reconnect_attempts) 30000);
        reconnect_attempts = suc s.reconnect_attempts;
      }

  unfoldable pub ended_by : ℕ → Realtime → Realtime
  ended_by i s =
      schedule_reconnect
        (finish i false (record s { joined = false; join_ref = none; heartbeat_timer = false }))

  -- The `fails` of a number tells whether the send of that number throws.
  module _ (fails : ℕ → Bool) where
    unfoldable pub drain_each : List Message → Realtime → Realtime
    drain_each [] s = record s { queue = [] }
    drain_each (m ∷ ms) s =
        let stamped = record m { join_ref = s.join_ref } in
        let rest =
          drain_each ms (record s { sent = s.sent ++ stamped ∷ []; sends = suc s.sends }) in
        if is_connected s
        then if fails s.sends then record s { queue = stamped ∷ ms; sends = suc s.sends } else rest
        else record s { queue = m ∷ ms }

    unfoldable pub drain_queue : Realtime → Realtime
    drain_queue s = drain_each s.queue s

    -- The rest of `write` after its connection.
    unfoldable pub send : Message → Realtime → Realtime
    send m s =
        let stamped = record m { join_ref = s.join_ref } in
        if is_connected s
        then if fails s.sends
          then schedule_reconnect (enqueue stamped (record s { sends = suc s.sends }))
          else record s { sent = s.sent ++ stamped ∷ []; sends = suc s.sends }
        else schedule_reconnect (enqueue stamped s)

    unfoldable pub resume : Caller → Bool → Realtime → Realtime
    resume (writing m) true s = send m s
    resume (writing m) false s = schedule_reconnect (enqueue m s)
    resume flushing true s = drain_queue s
    resume flushing false s = s
    resume reconnecting true s = s
    resume reconnecting false s = schedule_reconnect s

    unfoldable pub receive : ℕ → Reply → Realtime → Realtime
    receive i accepted s = finish i true (
        drain_queue (record s {
          joined = true;
          reconnect_attempts = 0;
          reconnect_timer = none;
          heartbeat_timer = true;
        }))
    receive i rejected s = if s.joined then s else finish i false s
    receive i channel_down s = record s { asked_to_close = s.asked_to_close ++ i ∷ [] }
    receive i unrelated s = s

    unfoldable pub continue_first : List (Caller × Bool) → Realtime → Option Realtime
    continue_first [] s = none
    continue_first ((c, ok) ∷ rest) s = some (resume c ok (record s { continuing = rest }))

    unfoldable pub step : Event → Realtime → Option Realtime
    step (write_called creates) s = some (write creates s)
    step (flush_called creates) s = some (flush creates s)
    step (timer_fired creates) s =
        if is_some s.reconnect_timer
        then some (connect creates reconnecting (record s { reconnect_timer = none }))
        else none
    step close_called s = some (close s)
    step continued s = continue_first s.continuing s
    step heartbeat_fired s = if s.heartbeat_timer then some (heartbeat s) else none
    step (opened i) s = if ltb i s.sockets then some (opened_by s) else none
    step (errored i) s = if ltb i s.sockets then some (finish i false s) else none
    step (ended i) s = if ltb i s.sockets then some (ended_by i s) else none
    step (timed_out i) s = if is_socket i s.connecting then some (finish i false s) else none
    step (received i r) s = if ltb i s.sockets then some (receive i r s) else none
    step (ready_changed ready) s = some (record s { ready_state = ready })

    abbrev pub and_then : (Realtime → Option Realtime) → Option Realtime → Option Realtime
    and_then f none = none
    and_then f (some s) = f s

    unfoldable pub run : List Event → Realtime → Option Realtime
    run [] s = some s
    run (e ∷ es) s = and_then (run es) (step e s)
