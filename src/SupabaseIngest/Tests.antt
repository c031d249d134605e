-- ===== src/SupabaseIngest/Tests.antt =====
-- Runs of the transport of src/supabase-ingest.ts.
use next_loggers_ts.Prelude.{
  ◌+◌, ◌≡◌, refl, List, [], ◌∷◌, true, false, not, ◌||◌, none, some, length, ltb, if◌then◌else◌,
}
use next_loggers_ts.SupabaseIngest.Queue.{items, push, shift, compact, prepend}
use next_loggers_ts.SupabaseIngest.{
  GivenOptions, resolve, Queued, idle, posting, settling, Ingest, fresh, has_none, drop_record,
  make_room, enqueue, take_each, take_batch, schedule_interval, schedule_retry, clear_timers,
  drain_on, flush, write,
}
use next_loggers_ts.SupabaseIngest.Steps.{
  Event, written, close_called, drain_sent, drain_failed, settled, retry_fired, settle, fail_post,
  succeed_post, after_sent, after_failed, after_settled, step, run,
}
use next_loggers_ts.SupabaseIngest.Invariant.{tally, in_flight, in_exits}
use next_loggers_ts.SupabaseIngest.Invariant.Runs.{run-accounts_for}
use next_loggers_ts.SupabaseIngest.Armed.{is_driven, run-is_driven}
use next_loggers_ts.SupabaseIngest.Closing.{close-loses_batch}

abbrev given : GivenOptions
given = record {
  batch_size = some 2;
  max_queue_size = some 2;
  max_record_bytes = some 600;
  max_batch_bytes = some 1024;
  max_exit_batch_bytes = none;
  retry_base_millis = some 100;
  retry_max_millis = none;
  await_delivery = false;
}

-- The third record is too large. The post of the first two fails, and is tried again.
abbrev script : List Event
script =
    written 300 ∷ written 100 ∷ written 700 ∷ drain_failed ∷ settled ∷ retry_fired ∷ drain_sent ∷ []

abbrev first_two : List Queued
first_two = record { number = 0; bytes = 300 } ∷ record { number = 1; bytes = 100 } ∷ []

abbrev final : Ingest
final = record fresh {
  queue = record { values = first_two; head = 2 };
  flushing = settling false;
  dropped = 1;
  failures = 1;
  writes = 3;
  sent = first_two;
  lost = record { number = 2; bytes = 700 } ∷ [];
  posts = (false, first_two) ∷ (false, first_two) ∷ [];
}

run-accounts_for_example :
    (tally 1 (items final.queue)
        + (tally 1 (in_flight final.flushing)
            + (tally 1 (in_exits final.exits) + (tally 1 final.sent + tally 1 final.lost)))
      ≡ (if ltb 1 final.writes then 1 else 0))
    × (final.dropped ≡ length final.lost)
unfolding resolve run step write enqueue flush drain_on take_batch take_each push shift compact
    make_room schedule_interval clear_timers drop_record after_failed after_settled fail_post settle
    schedule_retry prepend after_sent succeed_post
run-accounts_for_example = run-accounts_for (resolve given) script final 1 refl

run-is_driven_example : (not final.accepting || (has_none final.queue || is_driven final)) ≡ true
unfolding resolve run step write enqueue flush drain_on take_batch take_each push shift compact
    make_room schedule_interval clear_timers drop_record after_failed after_settled fail_post settle
    schedule_retry prepend after_sent succeed_post
run-is_driven_example = run-is_driven (resolve given) script final refl refl

-- The first two records are on their way.
abbrev underway : Ingest
underway = record fresh {
  queue = record { values = first_two; head = 2 };
  flushing = posting first_two;
  writes = 2;
  posts = (false, first_two) ∷ [];
}

close-loses_batch_example :
    (t : Ingest) × (run (resolve given) (close_called ∷ drain_failed ∷ settled ∷ []) underway
      ≡ some t)
    × (t.closed ≡ true)
    × (items t.queue ≡ first_two)
    × (t.flushing ≡ idle)
    × (t.interval_timer ≡ false)
    × (t.retry_timer ≡ none)
    × (step (resolve given) close_called t ≡ some t)
close-loses_batch_example = close-loses_batch (resolve given) first_two underway refl refl refl
