-- ===== src/Loki.antt =====
-- src/loki.ts: the batching Loki transport. A record waits in the queue with the promise of its
-- `write`, which is named by the number of the write; what settles a promise is logged. The push
-- of a batch is an event of the environment here, and a retry loop in Loki/Push.
pub mod Push
pub mod Payload
pub mod Grouping
pub mod Settlement
pub mod Armed
pub mod Tests
use next_loggers_ts.Prelude.{
  ℕ, suc, ◌+◌, max, List, [], ◌∷◌, ◌++◌, map, Bool, true, false, ◌||◌, Option, none, some, length,
  take, drop, leb, ltb, is_some, or_else, if◌then◌else◌,
}

pub record Options : Type 0 where
  pub batch_size : Option ℕ
  pub max_queue_size : Option ℕ

pub record Pending (A : Type 0) : Type 0 where
  pub id : ℕ
  pub value : A

-- How a write's promise is settled: sent, rejected with the error of the push, evicted from a full
-- queue, or refused because the transport is closed.
pub data Outcome : Type 0 where
  resolved push_failed evicted refused : Outcome

pub record Transport (A : Type 0) : Type 0 where
  pub queue : List (Pending A)
  pub timer : Bool
  pub in_flight : Option (List (Pending A))
  pub closed : Bool
  pub writes : ℕ
  pub settled : List (ℕ × Outcome)
  pub pushed : List (List A)
  pub drops : List A

pub data Event (A : Type 0) : Type 0 where
  wrote : A → Event A
  timer_fired flush_called close_called : Event A
  push_settled : Bool → Event A

abbrev pub batch_of : Options → ℕ
batch_of o = max 1 (or_else o.batch_size 100)

abbrev pub max_queue_of : Options → ℕ
max_queue_of o = max (batch_of o) (or_else o.max_queue_size 2000)

module _ {A : Type 0} where
  abbrev pub fresh : Transport A
  fresh = record {
    queue = [];
    timer = false;
    in_flight = none;
    closed = false;
    writes = 0;
    settled = [];
    pushed = [];
    drops = [];
  }

  abbrev pub value_of : Pending A → A
  value_of p = p.value

  abbrev is_empty : List (Pending A) → Bool
  is_empty [] = true
  is_empty (p ∷ ps) = false

  unfoldable pub schedule_flush : Transport A → Transport A
  schedule_flush s = if s.timer || s.closed then s else record s { timer = true }

  abbrev take_batch : Options → Transport A → Transport A
  take_batch o s =
      let batch = take (batch_of o) s.queue in
      record s {
        queue = drop (batch_of o) s.queue;
        in_flight = some batch;
        pushed = s.pushed ++ map value_of batch ∷ [];
      }

  unfoldable pub flush : Options → Transport A → Transport A
  flush o s =
      if is_some s.in_flight
      then s
      else let s' = record s { timer = false } in if is_empty s'.queue then s' else take_batch o s'

  -- The oldest record gives way, its promise is rejected and `onDrop` is told.
  abbrev evict_first : List (Pending A) → Transport A → Transport A
  evict_first [] s = s
  evict_first (p ∷ ps) s = record s {
    queue = ps;
    settled = s.settled ++ (p.id, evicted) ∷ [];
    drops = s.drops ++ p.value ∷ [];
  }

  unfoldable pub make_room : Options → Transport A → Transport A
  make_room o s = if leb (max_queue_of o) (length s.queue) then evict_first s.queue s else s

  abbrev enqueue : A → Transport A → Transport A
  enqueue r s =
      let p : Pending A = record { id = s.writes; value = r } in
      record s { queue = s.queue ++ p ∷ []; writes = s.writes + 1 }

  unfoldable pub write : Options → A → Transport A → Transport A
  write o r s =
      if s.closed
      then record s { settled = s.settled ++ (s.writes, refused) ∷ []; writes = s.writes + 1 }
      else let s' = enqueue r (make_room o s) in
        if leb (batch_of o) (length s'.queue) then flush o s' else schedule_flush s'

  abbrev pub settle_all : Outcome → List (Pending A) → List (ℕ × Outcome)
  settle_all v [] = []
  settle_all v (p ∷ ps) = (p.id, v) ∷ settle_all v ps

  -- The continuations of `push`: the promises of the batch, then the next batch.
  abbrev on_push : Options → Option (List (Pending A)) → Bool → Transport A → Option (Transport A)
  on_push o none ok s = none
  on_push o (some batch) ok s =
      let s' = record s {
        in_flight = none;
        settled = s.settled ++ settle_all (if ok then resolved else push_failed) batch;
      } in
      some (if is_empty s'.queue then s' else flush o s')

  -- `close` marks the transport and flushes until the queue is empty; each push that ends starts
  -- the next one, so that the first flush is its only effect.
  unfoldable pub close : Options → Transport A → Transport A
  close o s = if s.closed then s else flush o (record s { closed = true })

  -- `none` when the event cannot happen in this state.
  unfoldable pub step : Options → Event A → Transport A → Option (Transport A)
  step o (wrote r) s = some (write o r s)
  step o timer_fired s = if s.timer then some (flush o (record s { timer = false })) else none
  step o flush_called s = some (flush o s)
  step o close_called s = some (close o s)
  step o (push_settled ok) s = on_push o s.in_flight ok s

  unfoldable pub run : Options → List (Event A) → Transport A → Option (Transport A)
  run o [] s = some s
  run o (e ∷ es) s = elim (step o e s) [ none ↦ none | some s' ↦ run o es s' ]
