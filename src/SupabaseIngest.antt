-- ===== src/SupabaseIngest.antt =====
-- `SupabaseIngestTransport` of src/supabase-ingest.ts. A record is named by the number of its
-- `write`, and its bytes are those of its JSON. A flush and each call of `flushOnExit` are cut at
-- their awaits; whether a post succeeds is the environment's. Reports to `onError` and `onDrop`
-- change no state, and the random factor of a retry's delay is left out.
pub mod Queue
pub mod Steps
pub mod Batches
pub mod Invariant
pub mod Armed
pub mod Closing
pub mod Tests
use next_loggers_ts.Prelude.{
  ℕ, zero, suc, ◌+◌, ◌-◌, ◌*◌, ◌^◌, min, max, List, [], ◌∷◌, ◌++◌, map, Bool, true, false, not,
  ◌&&◌, ◌||◌, Option, none, some, is_some, ltb, leb, if◌then◌else◌,
}
use next_loggers_ts.SupabaseIngest.Queue.{CursorQueue, empty, size, push, shift, prepend, is_nil}

pub record Options : Type 0 where
  pub batch_size : ℕ
  pub max_queue_size : ℕ
  pub max_record_bytes : ℕ
  pub max_batch_bytes : ℕ
  pub max_exit_batch_bytes : ℕ
  pub retry_base_millis : ℕ
  pub retry_max_millis : ℕ
  pub await_delivery : Bool

-- The numbers that a caller gives; `none` is an option that is left out or no whole number.
pub record GivenOptions : Type 0 where
  pub batch_size : Option ℕ
  pub max_queue_size : Option ℕ
  pub max_record_bytes : Option ℕ
  pub max_batch_bytes : Option ℕ
  pub max_exit_batch_bytes : Option ℕ
  pub retry_base_millis : Option ℕ
  pub retry_max_millis : Option ℕ
  pub await_delivery : Bool

abbrev pub positive_integer : Option ℕ → ℕ → ℕ
positive_integer none fallback = fallback
positive_integer (some n) fallback = if ltb 0 n then n else fallback

-- What the constructor makes of its options.
unfoldable pub resolve : GivenOptions → Options
resolve g =
    let batch_bytes = max 1024 (positive_integer g.max_batch_bytes 491520) in
    let base = max 10 (positive_integer g.retry_base_millis 500) in
    record {
      batch_size = positive_integer g.batch_size 50;
      max_queue_size = positive_integer g.max_queue_size 2000;
      max_record_bytes =
          min (positive_integer g.max_record_bytes 131072) (max 1 (batch_bytes - 512));
      max_batch_bytes = batch_bytes;
      max_exit_batch_bytes = max 1024 (positive_integer g.max_exit_batch_bytes 61440);
      retry_base_millis = base;
      retry_max_millis = max base (positive_integer g.retry_max_millis 30000);
      await_delivery = g.await_delivery;
    }

pub record Queued : Type 0 where
  pub number : ℕ
  pub bytes : ℕ

-- Of `flushPromise`: none, the drain awaits a post, or the drain has ended (with a failure, if the
-- flag is set) and the handlers behind it have not run.
pub data Flushing : Type 0 where
  idle : Flushing
  posting : List Queued → Flushing
  settling : Bool → Flushing

-- A call of `flushOnExit` awaits the flush, is free to go on, or awaits a post.
pub data Exit : Type 0 where
  awaiting resuming : Exit
  exiting : List Queued → Exit

-- The call is `close`'s, or an application's own.
pub record Leaving : Type 0 where
  pub by_close : Bool
  pub exit : Exit

-- `sent` and `lost` are records of what became of the records; `posts` are the batches
-- posted, with a flag for those of `flushOnExit`.
pub record Ingest : Type 0 where
  pub queue : CursorQueue Queued
  pub flushing : Flushing
  pub exits : List Leaving
  pub interval_timer : Bool
  pub retry_timer : Option ℕ
  pub retry_attempts : ℕ
  pub dropped : ℕ
  pub failures : ℕ
  pub accepting : Bool
  pub closed : Bool
  pub closing : Bool
  pub writes : ℕ
  pub sent : List Queued
  pub lost : List Queued
  pub posts : List (Bool × List Queued)

abbrev pub fresh : Ingest
fresh = record {
  queue = empty;
  flushing = idle;
  exits = [];
  interval_timer = false;
  retry_timer = none;
  retry_attempts = 0;
  dropped = 0;
  failures = 0;
  accepting = true;
  closed = false;
  closing = false;
  writes = 0;
  sent = [];
  lost = [];
  posts = [];
}

abbrev pub has_none : CursorQueue Queued → Bool
has_none q = leb (size q) 0

abbrev pub is_idle : Flushing → Bool
is_idle idle = true
is_idle (posting batch) = false
is_idle (settling failed) = false

unfoldable pub drop_record : Queued → Ingest → Ingest
drop_record item s = record s { dropped = s.dropped + 1; lost = s.lost ++ item ∷ [] }

-- The oldest record gives way in a full queue.
abbrev pub drop_oldest : Option Queued × CursorQueue Queued → Ingest → Ingest
drop_oldest (none, q) s = record s { queue = q }
drop_oldest (some item, q) s = drop_record item (record s { queue = q })

unfoldable pub make_room : Options → Ingest → Ingest
make_room o s = if leb o.max_queue_size (size s.queue) then drop_oldest (shift s.queue) s else s

abbrev pub push_record : Queued → Ingest → Ingest
push_record item s = record s { queue = push item s.queue }

unfoldable pub enqueue : Options → Queued → Ingest → Ingest × Bool
enqueue o item s =
    if not s.accepting
    then (drop_record item s, false)
    else if ltb o.max_record_bytes item.bytes
    then (drop_record item s, false)
    else (push_record item (make_room o s), true)

-- What one round of `takeBatch` makes of the record that it has shifted.
abbrev pub place :
    Bool
    → ℕ
    → ℕ
    → (ℕ → CursorQueue Queued → List Queued × CursorQueue Queued)
    → Option Queued × CursorQueue Queued
    → List Queued × CursorQueue Queued
place first maximum bytes more (none, q) = ([], q)
place first maximum bytes more (some item, q) =
    let (batch, left) = more (bytes + (item.bytes + 1)) q in
    if not first && ltb maximum (bytes + (item.bytes + 1))
    then ([], prepend (item ∷ []) q)
    else (item ∷ batch, left)

-- The loop, by the number of records that the batch has room for.
unfoldable pub take_each : ℕ → ℕ → Bool → ℕ → CursorQueue Queued → List Queued × CursorQueue Queued
take_each zero maximum first bytes q = ([], q)
take_each (suc room) maximum first bytes q =
    place first maximum bytes (take_each room maximum false) (shift q)

abbrev pub budget : Options → Bool → ℕ
budget o exit = if exit then o.max_exit_batch_bytes else o.max_batch_bytes

unfoldable pub take_batch : Options → Bool → CursorQueue Queued → List Queued × CursorQueue Queued
take_batch o exit q = take_each o.batch_size (budget o exit) true 512 q

unfoldable pub schedule_interval : Ingest → Ingest
schedule_interval s =
    if ((not s.accepting || s.interval_timer) || is_some s.retry_timer) || has_none s.queue
    then s
    else record s { interval_timer = true }

unfoldable pub schedule_retry : Options → Ingest → Ingest
schedule_retry o s =
    if (not s.accepting || is_some s.retry_timer) || has_none s.queue then s else record s {
      interval_timer = false;
      retry_timer =
          some (min o.retry_max_millis (o.retry_base_millis * 2 ^ min s.retry_attempts 20));
      retry_attempts = s.retry_attempts + 1;
    }

unfoldable pub clear_timers : Ingest → Ingest
clear_timers s = record s { interval_timer = false; retry_timer = none }

-- A batch leaves for the server, unless there is none.
abbrev pub post_drained : Ingest → List Queued × CursorQueue Queued → Ingest
post_drained s ([], q) = record s { queue = q; flushing = settling false }
post_drained s (item ∷ batch, q) = record s {
  queue = q;
  flushing = posting (item ∷ batch);
  posts = s.posts ++ (false, item ∷ batch) ∷ [];
}

-- The head of `drain`'s loop.
unfoldable pub drain_on : Options → Ingest → Ingest
drain_on o s =
    if has_none s.queue
    then record s { flushing = settling false }
    else post_drained s (take_batch o false s.queue)

unfoldable pub flush : Options → Ingest → Ingest
flush o s = if is_idle s.flushing then drain_on o (clear_timers s) else s

abbrev pub after_enqueue : Options → Ingest × Bool → Ingest
after_enqueue o (s, false) = s
after_enqueue o (s, true) =
    if leb o.batch_size (size s.queue) || o.await_delivery then flush o s else schedule_interval s

unfoldable pub write : Options → ℕ → Ingest → Ingest
write o bytes s =
    let item : Queued = record { number = s.writes; bytes = bytes } in
    after_enqueue o (enqueue o item (record s { writes = suc s.writes }))

abbrev pub leave : Bool → Exit → Ingest → Ingest
leave by_close exit s = record s {
  exits = s.exits ++ record { by_close = by_close; exit = exit } ∷ [];
}

unfoldable pub end_exit : Bool → Ingest → Ingest
end_exit by_close s = if by_close then record s { closed = true } else s

abbrev pub post_exiting : Bool → Ingest → List Queued × CursorQueue Queued → Ingest
post_exiting by_close s ([], q) = end_exit by_close (record s { queue = q })
post_exiting by_close s (item ∷ batch, q) =
    leave by_close (exiting (item ∷ batch))
      (record s { queue = q; posts = s.posts ++ (true, item ∷ batch) ∷ [] })

-- The head of `flushOnExit`'s loop.
unfoldable pub exit_on : Options → Bool → Ingest → Ingest
exit_on o by_close s =
    if has_none s.queue
    then end_exit by_close s
    else post_exiting by_close s (take_batch o true s.queue)

unfoldable pub flush_on_exit : Options → Bool → Ingest → Ingest
flush_on_exit o by_close s =
    if has_none s.queue
    then end_exit by_close s
    else if is_idle s.flushing
    then exit_on o by_close s
    else leave by_close awaiting s

unfoldable pub close : Options → Ingest → Ingest
close o s =
    if s.closed || s.closing
    then s
    else flush_on_exit o true (clear_timers (record s { accepting = false; closing = true }))
