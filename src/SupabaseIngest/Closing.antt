-- ===== src/SupabaseIngest/Closing.antt =====
-- `close` of the transport of src/supabase-ingest.ts while the last batch is on its way.
use next_loggers_ts.Prelude.{◌+◌, ◌≡◌, refl, List, [], ◌∷◌, ◌++◌, true, false, ◌||◌, none, some}
use next_loggers_ts.SupabaseIngest.Queue.{items, prepend, items-prepend}
use next_loggers_ts.SupabaseIngest.{
  Options, Queued, idle, posting, Ingest, has_none, clear_timers, end_exit, flush_on_exit, close,
}
use next_loggers_ts.SupabaseIngest.Steps.{
  close_called, drain_failed, settled, awake_all, settle, fail_post, after_failed, after_settled,
  step, run,
}

-- The state that the failed post leaves behind.
abbrev stranded : List Queued → Ingest → Ingest
stranded batch s = record s {
  queue = prepend batch s.queue;
  flushing = idle;
  exits = awake_all s.exits;
  interval_timer = false;
  retry_timer = none;
  failures = s.failures + 1;
  accepting = false;
  closed = true;
  closing = true;
}

run_closing :
    (o : Options) (batch : List Queued) (s : Ingest)
    → s.flushing ≡ posting batch
    → has_none s.queue ≡ true
    → (s.closed || s.closing) ≡ false
    → run o (close_called ∷ drain_failed ∷ settled ∷ []) s ≡ some (stranded batch s)
unfolding run step close clear_timers flush_on_exit end_exit after_failed after_settled settle
    fail_post
run_closing o batch s f e c = rw c (rw e (rw f refl))

close_again :
    (o : Options) (batch : List Queued) (s : Ingest)
    → step o close_called (stranded batch s) ≡ some (stranded batch s)
unfolding step close
close_again o batch s = refl

-- When `close` is called while the queue is empty and a batch is on its way, and the post of that
-- batch then fails, the transport ends closed with the batch back in its queue, no timer and no
-- flush; another `close` changes nothing.
pub close-loses_batch :
    (o : Options) (batch : List Queued) (s : Ingest)
    → s.flushing ≡ posting batch
    → has_none s.queue ≡ true
    → (s.closed || s.closing) ≡ false
    → (t : Ingest) × (run o (close_called ∷ drain_failed ∷ settled ∷ []) s ≡ some t)
      × (t.closed ≡ true)
      × (items t.queue ≡ batch ++ items s.queue)
      × (t.flushing ≡ idle)
      × (t.interval_timer ≡ false)
      × (t.retry_timer ≡ none)
      × (step o close_called t ≡ some t)
close-loses_batch o batch s f e c = (
  stranded batch s,
  run_closing o batch s f e c,
  refl,
  items-prepend batch s.queue,
  refl,
  refl,
  refl,
  close_again o batch s,
)
