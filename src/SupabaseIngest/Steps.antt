-- ===== src/SupabaseIngest/Steps.antt =====
-- The steps of the transport of src/supabase-ingest.ts over a schedule of events: calls, timers,
-- answers to posts, and the handlers behind a flush. The number of an event is that of a call of
-- `flushOnExit` among those that have not ended.
use next_loggers_ts.Prelude.{
  ℕ, zero, suc, ◌+◌, List, [], ◌∷◌, ◌++◌, Bool, true, false, not, ◌&&◌, Option, none, some, is_some,
  if◌then◌else◌,
}
use next_loggers_ts.SupabaseIngest.Queue.{prepend}
use next_loggers_ts.SupabaseIngest.{
  Options, Queued, Flushing, idle, posting, settling, Exit, awaiting, resuming, exiting, Leaving,
  Ingest, has_none, schedule_interval, schedule_retry, drain_on, flush, write, exit_on,
  flush_on_exit, close,
}

pub data Event : Type 0 where
  written : ℕ → Event
  flush_called exit_called close_called interval_fired retry_fired drain_sent drain_failed settled :
      Event
  exit_resumed exit_sent exit_failed : ℕ → Event

abbrev pub keep : Leaving → Option (Leaving × List Leaving) → Option (Leaving × List Leaving)
keep x none = none
keep x (some (y, others)) = some (y, x ∷ others)

unfoldable pub pick : ℕ → List Leaving → Option (Leaving × List Leaving)
pick k [] = none
pick zero (x ∷ xs) = some (x, xs)
pick (suc k) (x ∷ xs) = keep x (pick k xs)

-- The calls that awaited the flush may go on.
abbrev pub awake : Exit → Exit
awake awaiting = resuming
awake resuming = resuming
awake (exiting batch) = exiting batch

abbrev pub awake_all : List Leaving → List Leaving
awake_all [] = []
awake_all (x ∷ xs) = record x { exit = awake x.exit } ∷ awake_all xs

-- The handlers behind `drain` in `flush`.
unfoldable pub settle : Options → Bool → Ingest → Ingest
settle o true s =
    let retried = if s.accepting then schedule_retry o s else s in
    record retried { flushing = idle; exits = awake_all retried.exits }
settle o false s =
    let ended = record s { flushing = idle; exits = awake_all s.exits } in
    if not (has_none s.queue) && s.accepting then schedule_interval ended else ended

unfoldable pub fail_post : List Queued → Ingest → Ingest
fail_post batch s = record s { failures = s.failures + 1; queue = prepend batch s.queue }

unfoldable pub succeed_post : List Queued → Ingest → Ingest
succeed_post batch s = record s { retry_attempts = 0; sent = s.sent ++ batch }

unfoldable pub after_sent : Options → Flushing → Ingest → Option Ingest
after_sent o idle s = none
after_sent o (posting batch) s = some (drain_on o (succeed_post batch s))
after_sent o (settling failed) s = none

unfoldable pub after_failed : Flushing → Ingest → Option Ingest
after_failed idle s = none
after_failed (posting batch) s = some (record (fail_post batch s) { flushing = settling true })
after_failed (settling failed) s = none

unfoldable pub after_settled : Options → Flushing → Ingest → Option Ingest
after_settled o idle s = none
after_settled o (posting batch) s = none
after_settled o (settling failed) s = some (settle o failed s)

unfoldable pub resume_exit : Options → Bool → Exit → Ingest → Option Ingest
resume_exit o by_close awaiting s = none
resume_exit o by_close resuming s = some (exit_on o by_close s)
resume_exit o by_close (exiting batch) s = none

unfoldable pub sent_exit : Options → Bool → Exit → Ingest → Option Ingest
sent_exit o by_close awaiting s = none
sent_exit o by_close resuming s = none
sent_exit o by_close (exiting batch) s = some (exit_on o by_close (succeed_post batch s))

-- A failed `close` may be called again.
unfoldable pub failed_exit : Bool → Exit → Ingest → Option Ingest
failed_exit by_close awaiting s = none
failed_exit by_close resuming s = none
failed_exit by_close (exiting batch) s =
    let failed = fail_post batch s in
    some (if by_close then record failed { closing = false } else failed)

abbrev pub on_exit :
    (Bool → Exit → Ingest → Option Ingest)
    → Option (Leaving × List Leaving)
    → Ingest
    → Option Ingest
on_exit f none s = none
on_exit f (some (x, others)) s = f x.by_close x.exit (record s { exits = others })

unfoldable pub step : Options → Event → Ingest → Option Ingest
step o (written bytes) s = some (write o bytes s)
step o flush_called s = some (flush o s)
step o exit_called s = some (flush_on_exit o false s)
step o close_called s = some (close o s)
step o interval_fired s =
    if s.interval_timer then some (flush o (record s { interval_timer = false })) else none
step o retry_fired s =
    if is_some s.retry_timer then some (flush o (record s { retry_timer = none })) else none
step o drain_sent s = after_sent o s.flushing s
step o drain_failed s = after_failed s.flushing s
step o settled s = after_settled o s.flushing s
step o (exit_resumed k) s = on_exit (resume_exit o) (pick k s.exits) s
step o (exit_sent k) s = on_exit (sent_exit o) (pick k s.exits) s
step o (exit_failed k) s = on_exit failed_exit (pick k s.exits) s

abbrev and_then : (Ingest → Option Ingest) → Option Ingest → Option Ingest
and_then f none = none
and_then f (some s) = f s

unfoldable pub run : Options → List Event → Ingest → Option Ingest
run o [] s = some s
run o (e ∷ es) s = and_then (run o es) (step o e s)
