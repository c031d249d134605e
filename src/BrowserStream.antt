-- ===== src/BrowserStream.antt =====
-- `BrowserStreamTransport` of src/browser-stream.ts: batching and a bounded buffer in front of a
-- WebSocket or of another transport. The socket, the inner transport, the beacon and the timers
-- are the environment: `Event` is what it does next, and `step` is the transport's answer.
pub mod Tracks
pub mod Kept
pub mod Delivery
pub mod Balance
pub mod Armed
pub mod Bounds
pub mod Overflow
pub mod Tests
use next_loggers_ts.Prelude.{
  ℕ, suc, ◌+◌, max, List, [], ◌∷◌, ◌++◌, Bool, true, false, not, ◌&&◌, ◌||◌, Option, none, some,
  length, ltb, ◌==◌, if◌then◌else◌, is_some, or_else,
}
use next_loggers_ts.CursorQueue.{
  Queue, empty, size, push, peek, drain, trim_to_last, to_array, clear,
}

-- What the constructor is given, for records of type `A`: `is_urgent` is the membership of a
-- record's level in the urgent levels, `has_beacon` that there is a beacon function and a URL.
pub record Options (A : Type 0) : Type 0 where
  pub has_url : Bool
  pub has_transport : Bool
  pub batch_size : Option ℕ
  pub max_queue_size : Option ℕ
  pub flush_interval : Option ℕ
  pub urgent_delay : Option ℕ
  pub is_urgent : A → Bool
  pub has_beacon : Bool

-- The state of `flush`: not running, sending a batch of which the second list is still to be
-- written, or waiting for the timeout between two batches.
pub data Flight (A : Type 0) : Type 0 where
  idle yielding : Flight A
  writing : List (Option A) → List (Option A) → Flight A

-- `close` waits for the flush that it began before it sets `closed`.
pub data Closing : Type 0 where
  open_stream awaiting_flush closed : Closing

pub record Stream (A : Type 0) : Type 0 where
  pub queue : Queue A
  pub flush_timer : Option ℕ
  pub flight : Flight A
  pub closing : Closing
  pub dropped : ℕ
  -- The batches sent in full, the records written to the inner transport, and the batches handed
  -- to the beacon.
  pub frames : List (List (Option A))
  pub written : List (Option A)
  pub beacons : List (List (Option A))

pub data BeaconOutcome : Type 0 where
  queued refused threw : BeaconOutcome

pub data Event (A : Type 0) : Type 0 where
  wrote : A → Event A
  timer_fired flush_called record_written sent failed yielded close_called : Event A
  page_hidden : List A → BeaconOutcome → Event A

abbrev pub is_closed : Closing → Bool
is_closed open_stream = false
is_closed awaiting_flush = false
is_closed closed = true

module _ {A : Type 0} where
  abbrev pub fresh : Stream A
  fresh = record {
    queue = empty;
    flush_timer = none;
    flight = idle;
    closing = open_stream;
    dropped = 0;
    frames = [];
    written = [];
    beacons = [];
  }

  -- The constructor's check; `none` is its TypeError.
  pub construct : Options A → Option (Stream A)
  construct o = if not o.has_url && not o.has_transport then none else some fresh

  abbrev pub is_idle : Flight A → Bool
  is_idle idle = true
  is_idle yielding = false
  is_idle (writing _ _) = false

  abbrev pub in_flight : Flight A → Bool
  in_flight f = not (is_idle f)

  abbrev pub is_empty : Queue A → Bool
  is_empty q = size q == 0

  abbrev pub batch_of : Options A → ℕ
  batch_of o = max 1 (or_else o.batch_size 120)

  abbrev pub max_queue_of : Options A → ℕ
  max_queue_of o = or_else o.max_queue_size 2000

  pub schedule : Options A → Bool → Stream A → Stream A
  schedule o urgent s =
      if is_empty s.queue
        || in_flight s.flight
        || is_closed s.closing
        || (is_some s.flush_timer && not urgent)
      then s
      else record s {
        flush_timer =
            some (if urgent then or_else o.urgent_delay 250 else or_else o.flush_interval 2500);
      }

  pub write : Options A → A → Stream A → Stream A
  write o r s =
      if is_closed s.closing
      then s
      else let (q, n) = trim_to_last (max_queue_of o) (push r s.queue) in
        schedule o (o.is_urgent r) (record s { queue = q; dropped = s.dropped + n })

  -- The end of `close` once the flush that it awaits is through.
  abbrev pub after_flush : Closing → Stream A → Stream A
  after_flush awaiting_flush s = record s { closing = closed }
  after_flush _ s = s

  -- The `finally` block of `flush`.
  pub end_flush : Options A → Stream A → Stream A
  end_flush o s = after_flush s.closing (schedule o false (record s { flight = idle }))

  -- One turn of the loop of `flush`, up to its first `await`.
  pub next_batch : Options A → Stream A → Stream A
  next_batch o s =
      let batch = peek (batch_of o) s.queue in
      if is_empty s.queue || length batch == 0
      then end_flush o s
      else record s { flight = writing batch batch }

  pub flush : Options A → Stream A → Stream A
  flush o s =
      if in_flight s.flight || is_empty s.queue || is_closed s.closing then s else next_batch o s

  -- A batch has been sent in full.
  pub complete : Options A → List (Option A) → Stream A → Stream A
  complete o batch s =
      let s' = record s { queue = drain (length batch) s.queue; frames = s.frames ++ batch ∷ [] } in
      if is_empty s'.queue then end_flush o s' else record s' { flight = yielding }

  -- Only an exception keeps the queue; what `sendBeacon` returns is not read.
  abbrev pub after_beacon : BeaconOutcome → Stream A → Stream A → Stream A
  after_beacon threw kept sent_off = kept
  after_beacon queued kept sent_off = sent_off
  after_beacon refused kept sent_off = sent_off

  pub flush_on_exit : Options A → List (Option A) → BeaconOutcome → Stream A → Stream A
  flush_on_exit o records outcome s =
      let s' = record s { flush_timer = none } in
      let pending = to_array s.queue ++ records in
      if length pending == 0 || not o.has_beacon
      then s'
      else after_beacon outcome s'
          (record s' { queue = clear s.queue; beacons = s.beacons ++ pending ∷ [] })

  -- `close`: a flush that is under way already is not awaited.
  pub close : Options A → Stream A → Stream A
  close o s =
      if is_closed s.closing
      then s
      else let s' = record s { flush_timer = none } in
        if in_flight s.flight || is_empty s.queue
        then record s' { closing = closed }
        else flush o (record s' { closing = awaiting_flush })

  -- A record of the batch has been written to the inner transport; after the last one the batch is
  -- complete.
  abbrev pub after_record : Options A → Flight A → Stream A → Option (Stream A)
  after_record o (writing batch (r ∷ [])) s =
      some (complete o batch (record s { written = s.written ++ r ∷ [] }))
  after_record o (writing batch (r ∷ q ∷ rest)) s =
      some (record s { written = s.written ++ r ∷ []; flight = writing batch (q ∷ rest) })
  after_record o _ s = none

  -- The connection is up and `socket.send` has returned.
  abbrev pub after_send : Options A → Flight A → Stream A → Option (Stream A)
  after_send o (writing batch rest) s = some (complete o batch s)
  after_send o _ s = none

  abbrev pub after_failure : Options A → Flight A → Stream A → Option (Stream A)
  after_failure o (writing batch rest) s = some (end_flush o s)
  after_failure o _ s = none

  abbrev pub after_yield : Options A → Flight A → Stream A → Option (Stream A)
  after_yield o yielding s = some (next_batch o s)
  after_yield o _ s = none

  pub present : List A → List (Option A)
  present [] = []
  present (r ∷ rs) = some r ∷ present rs

  -- `none` when the event cannot happen in this state.
  pub step : Options A → Event A → Stream A → Option (Stream A)
  step o (wrote r) s = some (write o r s)
  step o timer_fired s =
      if is_some s.flush_timer then some (flush o (record s { flush_timer = none })) else none
  step o flush_called s = some (flush o s)
  step o record_written s = if o.has_transport then after_record o s.flight s else none
  step o sent s = if o.has_transport then none else after_send o s.flight s
  step o failed s = after_failure o s.flight s
  step o yielded s = after_yield o s.flight s
  step o (page_hidden records outcome) s = some (flush_on_exit o (present records) outcome s)
  step o close_called s = some (close o s)

  pub run : Options A → List (Event A) → Stream A → Option (Stream A)
  run o [] s = some s
  run o (e ∷ es) s = elim (step o e s) [ none ↦ none | some s' ↦ run o es s' ]
