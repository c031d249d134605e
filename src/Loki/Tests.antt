-- ===== src/Loki/Tests.antt =====
-- Runs of the transport of src/loki.ts on concrete schedules, answers and batches.
use Prim.Native.String.{String}
use next_loggers_ts.Prelude.{
  ℕ, zero, suc, ◌+◌, ◌≤◌, ◌<◌, ◌≡◌, refl, true, false, ◌&&◌, List, [], ◌∷◌, some, ltb, or_else,
  if◌then◌else◌,
}
use next_loggers_ts.Cli.Text.{insert}
use next_loggers_ts.Loki.{
  Options, Transport, resolved, push_failed, evicted, refused, Event, wrote, close_called,
  push_settled, fresh, schedule_flush, make_room, flush, write, close, step, run,
}
use next_loggers_ts.Loki.Settlement.{places, run-places}
use next_loggers_ts.Loki.Armed.{IsArmed, run-IsArmed}
use next_loggers_ts.Loki.Push.{
  RetryOptions, Reply, answered, request_failed, delivered, rejected_with, maximum_retries, is_ok,
  is_retried, delays, attempts, push, push_decided,
}
use next_loggers_ts.Cli.Text.{lookup}
use next_loggers_ts.Loki.Payload.{Labels, LogRecord, Runtime, stream_labels, stream_key, group}
use next_loggers_ts.Loki.Grouping.{has_distinct_keys, group-lines_of}

-- Batches of two and a queue of two.
abbrev small : Options
small = record { batch_size = some 2; max_queue_size = some 2 }

-- Two batches, an eviction while the first is in flight, and a write after the close.
abbrev script : List (Event ℕ)
script =
    wrote 10
    ∷ wrote 11
    ∷ wrote 12
    ∷ wrote 13
    ∷ wrote 14
    ∷ push_settled false
    ∷ close_called
    ∷ wrote 15
    ∷ push_settled true
    ∷ []

abbrev ended : Transport ℕ
ended = or_else (run small script fresh) fresh

script_result :
    (ended.settled
      ≡ (2, evicted)
        ∷ (0, push_failed)
        ∷ (1, push_failed)
        ∷ (5, refused)
        ∷ (3, resolved)
        ∷ (4, resolved)
        ∷ [])
    × (ended.pushed ≡ (10 ∷ 11 ∷ []) ∷ (13 ∷ 14 ∷ []) ∷ [])
    × (ended.drops ≡ 12 ∷ [])
unfolding run step write schedule_flush make_room flush close
script_result = (refl, refl, refl)

run-places_example : places 2 ended ≡ 1
unfolding run step write schedule_flush make_room flush close
run-places_example = run-places small 2 script ended refl

run-IsArmed_example : IsArmed small ended
unfolding run step write schedule_flush make_room flush close
run-IsArmed_example = run-IsArmed small script fresh ended refl refl

abbrev retries : RetryOptions
retries = record { max_retries = some 3; retry_base = some 2000 }

-- Unavailable, no answer, then accepted.
abbrev flaky : ℕ → Reply
flaky zero = answered 503
flaky (suc zero) = request_failed
flaky (suc (suc n)) = answered 204

retried_answers :
    ((push retries flaky).requests ≡ 3)
    × ((push retries flaky).waits ≡ 2000 ∷ 4000 ∷ [])
    × ((push retries flaky).result ≡ delivered)
unfolding push attempts
retried_answers = (refl, refl, refl)

push_decided_example :
    (n : ℕ) × (n ≤ maximum_retries retries)
    × ((i : ℕ) → i < n → is_retried (flaky i) ≡ true)
    × ((is_retried (flaky n) && ltb n (maximum_retries retries)) ≡ false)
    × ((push retries flaky).requests ≡ n + 1)
    × ((push retries flaky).waits ≡ delays retries 0 n)
    × ((push retries flaky).result
        ≡ (if is_ok (flaky n) then delivered else rejected_with (flaky n)))
push_decided_example = push_decided retries flaky

abbrev runtime : Runtime
runtime = record {
  sort_entries = λ es. es;
  to_lower_case = λ s. s;
  to_nanoseconds = λ s. s;
  stringify = λ r. r.timestamp;
}

abbrev info : String → LogRecord
info at = record { app_name = "shop"; runtime = "node"; level = "info"; timestamp = at }

abbrev warning : String → LogRecord
warning at = record { app_name = "shop"; runtime = "node"; level = "warn"; timestamp = at }

abbrev batch : List LogRecord
batch = info "1" ∷ warning "2" ∷ info "3" ∷ []

abbrev labels : Labels
labels = ("cluster", "eu") ∷ []

abbrev info_key : String
info_key = "service_name\0shop\u{1}runtime\0node\u{1}level\0info\u{1}cluster\0eu"

group-lines_of_example :
    (has_distinct_keys (group runtime labels batch []) ≡ true)
    × (lookup info_key (group runtime labels batch [])
        ≡ some (record {
          stream = stream_labels runtime (info "1") labels;
          values = ("1", "1") ∷ ("3", "3") ∷ [];
        }))
unfolding stream_key stream_labels insert
group-lines_of_example = group-lines_of runtime labels info_key batch
