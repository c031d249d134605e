-- ===== src/BaseLogger/Realtime/Tests.antt =====
-- A run of the realtime transport of src/base-logger.ts: a record is sent on a joined channel, and
-- the next one, whose socket has died, is queued for a reconnection.
use next_loggers_ts.Prelude.{ℕ, ◌+◌, ◌≤◌, ◌≡◌, refl, List, [], ◌∷◌, true, false, Bool, none, some}
use next_loggers_ts.BaseLogger.Realtime.{
  Options, Message, Realtime, fresh, accepted, Event, write_called, continued, opened, received,
  ready_changed, close, settle, finish, connect, opened_by, write, enqueue, schedule_reconnect,
  drain_each, drain_queue, send, resume, receive, continue_first, step, run,
}
use next_loggers_ts.BaseLogger.Realtime.Accounts.{tally, held, held_settled}
use next_loggers_ts.BaseLogger.Realtime.Accounts.Steps.{run-accounts_each}
use next_loggers_ts.BaseLogger.Realtime.Closing.{run-close}

abbrev options : Options
options = record { max_queue_size = 1; reconnect = true }

abbrev never : ℕ → Bool
never n = false

abbrev script : List Event
script =
    write_called true
    ∷ ready_changed (λ i. 1)
    ∷ opened 0
    ∷ received 0 accepted
    ∷ continued
    ∷ write_called true
    ∷ ready_changed (λ i. 3)
    ∷ continued
    ∷ []

abbrev first_sent : Message
first_sent = record { ref = 1; join_ref = some 2 }

abbrev second : Message
second = record { ref = 3; join_ref = some 2 }

abbrev final : Realtime
final = record fresh {
  socket = some 0;
  queue = second ∷ [];
  joined = true;
  join_ref = some 2;
  ref = 3;
  heartbeat_timer = true;
  reconnect_timer = some 1000;
  reconnect_attempts = 1;
  sockets = 1;
  ready_state = λ i. 3;
  sends = 1;
  written = record { ref = 1; join_ref = none } ∷ second ∷ [];
  sent = first_sent ∷ [];
  joins = 2 ∷ [];
}

run-accounts_each_example :
    (tally 3 final.sent
        + (tally 3 final.queue
            + (tally 3 final.lost + (held 3 final.waiting + held_settled 3 final.continuing)))
      ≡ tally 3 final.written)
    × (tally 3 final.written ≤ 1)
unfolding run step write connect finish opened_by receive drain_queue drain_each continue_first
    resume send enqueue schedule_reconnect settle
run-accounts_each_example = run-accounts_each options never script final 3 refl

-- A write after `close` is refused and stays in the queue.
abbrev closed_late : Realtime
closed_late = record fresh {
  socket = none;
  queue = record { ref = 4; join_ref = none } ∷ [];
  closed = true;
  ref = 4;
  sockets = 1;
  ready_state = λ i. 3;
  sends = 1;
  written = record { ref = 1; join_ref = none } ∷ second ∷ record { ref = 4; join_ref = none } ∷ [];
  sent = first_sent ∷ [];
  lost = second ∷ [];
  asked_to_close = 0 ∷ [];
  joins = 2 ∷ [];
}

run-close_example :
    (closed_late.sent ≡ final.sent)
    × (closed_late.sockets ≡ final.sockets)
    × (closed_late.socket ≡ none)
    × (closed_late.reconnect_timer ≡ none)
unfolding run step write connect settle close continue_first resume enqueue schedule_reconnect
run-close_example =
    run-close options never (write_called true ∷ continued ∷ []) final closed_late refl
