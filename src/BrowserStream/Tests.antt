-- ===== src/BrowserStream/Tests.antt =====
-- Runs of the transport of src/browser-stream.ts on concrete schedules.
use mathlib.Core.List.{flatten}
use next_loggers_ts.Prelude.{
  ℕ, ◌+◌, ◌≤◌, ◌≡◌, ◌==◌, refl, true, false, List, [], ◌∷◌, ◌++◌, none, some, length, map, arith,
  or_else,
}
use next_loggers_ts.CursorQueue.{
  empty, size, push, peek, blank, compact, drain, trim_to_last, to_array, clear,
}
use next_loggers_ts.CursorQueue.Refinement.{Holds}
use next_loggers_ts.BrowserStream.{
  Options, writing, Stream, refused, Event, wrote, timer_fired, sent, failed, yielded, close_called,
  page_hidden, fresh, schedule, write, end_flush, next_batch, flush, complete, flush_on_exit, close,
  present, step, run,
}
use next_loggers_ts.BrowserStream.Tracks.{total}
use next_loggers_ts.BrowserStream.Delivery.{accepted, run-delivers}
use next_loggers_ts.BrowserStream.Armed.{IsArmed, step-IsArmed}
use next_loggers_ts.BrowserStream.Bounds.{AllBatches, run_bounds}
use next_loggers_ts.BrowserStream.Balance.{run-accounts_exactly}
use next_loggers_ts.BrowserStream.Overflow.{overflow-loses_unsent}

-- Batches of two, a buffer of four, records over 90 are urgent.
abbrev socket : Options ℕ
socket = record {
  has_url = true;
  has_transport = false;
  batch_size = some 2;
  max_queue_size = some 4;
  flush_interval = none;
  urgent_delay = none;
  is_urgent = λ n. n == 99;
  has_beacon = true;
}

-- Three records, a send that fails, a retry, and a close while the second batch waits.
abbrev script : List (Event ℕ)
script =
    wrote 1
    ∷ wrote 2
    ∷ wrote 99
    ∷ timer_fired
    ∷ failed
    ∷ timer_fired
    ∷ sent
    ∷ wrote 4
    ∷ close_called
    ∷ yielded
    ∷ wrote 5
    ∷ []

abbrev ended : Stream ℕ
ended = or_else (run socket script fresh) fresh

script_result :
    (ended.frames ≡ (some 1 ∷ some 2 ∷ []) ∷ [])
    × (to_array ended.queue ≡ some 99 ∷ some 4 ∷ [])
    × (accepted socket script fresh ≡ 1 ∷ 2 ∷ 99 ∷ 4 ∷ [])
unfolding accepted run step write schedule flush next_batch end_flush complete close push peek drain
    trim_to_last to_array compact blank empty
script_result = (refl, refl, refl)

-- The urgent record shortens the delay, a later plain one does not lengthen it.
urgent_first :
    (or_else (run socket (wrote 1 ∷ wrote 99 ∷ wrote 2 ∷ []) fresh) fresh).flush_timer ≡ some 250
unfolding run step write schedule push trim_to_last empty
urgent_first = refl

-- What the beacon refuses leaves the queue without being counted.
beacon_refused :
    let s = or_else (run socket (wrote 1 ∷ page_hidden [] refused ∷ []) fresh) fresh in
    (to_array s.queue ≡ []) × (s.dropped ≡ 0)
unfolding run step write schedule flush_on_exit present push trim_to_last to_array clear empty
beacon_refused = (refl, refl)

run-delivers_example :
    flatten ended.frames ++ to_array ended.queue ≡ map some (accepted socket script fresh)
unfolding run step write schedule flush next_batch end_flush complete close push peek drain
    trim_to_last compact blank empty
run-delivers_example = run-delivers socket script {s = ended} refl refl refl

-- Five records for a buffer of four: one is dropped while a batch is on its way.
abbrev lossy_script : List (Event ℕ)
lossy_script = wrote 1 ∷ wrote 2 ∷ wrote 3 ∷ wrote 4 ∷ timer_fired ∷ wrote 5 ∷ sent ∷ []

abbrev lossy : Stream ℕ
lossy = or_else (run socket lossy_script fresh) fresh

run-accounts_exactly_example :
    length (accepted socket lossy_script fresh)
    ≡ total lossy.frames + size lossy.queue + lossy.dropped
unfolding run step write schedule flush next_batch end_flush complete close push peek drain
    trim_to_last compact blank empty
run-accounts_exactly_example = run-accounts_exactly socket lossy_script {s = lossy} refl refl

run_bounds_example : (size ended.queue ≤ 4) × AllBatches socket ended.frames
unfolding run step write schedule flush next_batch end_flush complete close push peek drain
    trim_to_last compact blank empty
run_bounds_example = run_bounds socket script {s = ended} refl

step-IsArmed_example : IsArmed (write socket 7 fresh)
unfolding step
step-IsArmed_example = step-IsArmed socket (wrote 7) fresh refl refl

-- A full buffer with its first two records in flight.
abbrev full : Stream ℕ
full = record fresh {
  queue = record { items = some 1 ∷ some 2 ∷ some 3 ∷ some 4 ∷ []; head = 0 };
  flight = writing (some 1 ∷ some 2 ∷ []) (some 1 ∷ some 2 ∷ []);
}

full-Holds : Holds full.queue (1 ∷ 2 ∷ 3 ∷ 4 ∷ [])
full-Holds = record { in_range = omega arith; values = refl }

overflow-loses_unsent_example :
    (s' : Stream ℕ) × (step socket sent (write socket 5 full) ≡ some s')
    × (s'.frames ≡ (some 1 ∷ some 2 ∷ []) ∷ [])
    × (s'.dropped ≡ 1)
    × (to_array s'.queue ≡ some 4 ∷ some 5 ∷ [])
overflow-loses_unsent_example =
    overflow-loses_unsent socket 5 1 3 (2 ∷ []) (4 ∷ []) full refl refl refl full-Holds refl
