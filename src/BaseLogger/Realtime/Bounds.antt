-- ===== src/BaseLogger/Realtime/Bounds.antt =====
-- Bounds of the realtime transport of src/base-logger.ts: its queue and its backoff.

use next_loggers_ts.Prelude.{
  ℕ, suc, ◌*◌, ◌^◌, ◌≤◌, ◌≡◌, min, max, List, [], ◌∷◌, ◌++◌, Bool, true, false, Option, none, some,
  length, drop, leb, is_some, arith, of_some, some_of_if, inl, inr, ◌||◌, not, ltb, zero,
  Option-cases, length-append, length-drop, if_both, if_cases,
}
use next_loggers_ts.BaseLogger.Realtime.{
  Options, Message, Caller, writing, flushing, reconnecting, Reply, accepted, rejected,
  channel_down, unrelated, Realtime, fresh, Event, write_called, flush_called, timer_fired,
  close_called, continued, heartbeat_fired, opened, errored, ended, timed_out, received,
  ready_changed, is_socket, is_connected, is_open, is_empty, settle, finish, connect, opened_by,
  heartbeat, close, write, flush, enqueue, schedule_reconnect, ended_by, drain_each, drain_queue,
  send, resume, receive, continue_first, step, run,
}

abbrev pub InRange : Option ℕ → Type 0
InRange none = 0 ≤ 0
InRange (some delay) = (1000 ≤ delay) × (delay ≤ 30000)

one_le_pow : (n : ℕ) → 1 ≤ 2 ^ n
one_le_pow zero = omega arith
one_le_pow (suc n) = let h = one_le_pow n in omega arith

backoff : (n : ℕ) → 1 ≤ n → InRange (some (min (1000 * n) 30000))
backoff n h = (omega arith, omega arith)

length-shift_push :
    (m : ℕ) (ms : List Message) (x : Message)
    → 1 ≤ m
    → length ms ≤ m
    → length (drop 1 ms ++ x ∷ []) ≤ m
length-shift_push m ms x p h = omega (arith, length-append (drop 1 ms) (x ∷ []), length-drop 1 ms)

length-push :
    (m : ℕ) (ms : List Message) (x : Message)
    → leb m (length ms) ≡ false
    → length (ms ++ x ∷ []) ≤ m
length-push m ms x h = ground (arith, length-append ms (x ∷ []))

module _ (o : Options) where
  pub record Bounded (s : Realtime) : Type 0 where
    pub queue_bound : length s.queue ≤ max 1 o.max_queue_size
    pub in_range : InRange s.reconnect_timer

  connect-Bounded : (b : Bool) (c : Caller) (s : Realtime) → Bounded s → Bounded (connect b c s)
  unfolding connect settle
  connect-Bounded b c s h =
      if_both Bounded s.closed (record { queue_bound = h.queue_bound; in_range = h.in_range })
        (if_both Bounded (is_connected s)
          (record { queue_bound = h.queue_bound; in_range = h.in_range })
          (if_both Bounded (is_some s.connecting)
            (record { queue_bound = h.queue_bound; in_range = h.in_range })
            (if_both Bounded (not b) (record { queue_bound = h.queue_bound; in_range = h.in_range })
              (record { queue_bound = h.queue_bound; in_range = h.in_range }))))

  finish-Bounded : (i : ℕ) (ok : Bool) (s : Realtime) → Bounded s → Bounded (finish i ok s)
  unfolding finish
  finish-Bounded i ok s h =
      if_both Bounded (is_socket i s.connecting)
        (record { queue_bound = h.queue_bound; in_range = h.in_range }) h

  schedule_reconnect-Bounded : (s : Realtime) → Bounded s → Bounded (schedule_reconnect o s)
  unfolding schedule_reconnect
  schedule_reconnect-Bounded s h =
      if_both Bounded ((s.closed || not o.reconnect) || is_empty s.queue) h (
        if_both Bounded (is_some s.reconnect_timer) h (record {
          queue_bound = h.queue_bound;
          in_range = backoff (2 ^ s.reconnect_attempts) (one_le_pow s.reconnect_attempts);
        }))

  enqueue-Bounded : (m : Message) (s : Realtime) → Bounded s → Bounded (enqueue o m s)
  unfolding enqueue
  enqueue-Bounded m s h =
      if_cases Bounded _
        (λ full. record {
          queue_bound = length-shift_push _ s.queue m (omega arith) h.queue_bound;
          in_range = h.in_range;
        })
        (λ room. record { queue_bound = length-push _ s.queue m room; in_range = h.in_range })

  module _ (fails : ℕ → Bool) where
    drain_each-Bounded :
        (ms : List Message) (s : Realtime)
        → length ms ≤ max 1 o.max_queue_size
        → InRange s.reconnect_timer
        → Bounded (drain_each o fails ms s)
    unfolding drain_each
    drain_each-Bounded [] s h k = record { queue_bound = h; in_range = k }
    drain_each-Bounded (m ∷ ms) s h k =
        if_both Bounded (is_connected s)
          (if_both Bounded (fails s.sends) (record { queue_bound = h; in_range = k })
            (drain_each-Bounded ms _ (omega arith) k))
          (record { queue_bound = h; in_range = k })

    drain_queue-Bounded : (s : Realtime) → Bounded s → Bounded (drain_queue o fails s)
    unfolding drain_queue
    drain_queue-Bounded s h = drain_each-Bounded s.queue s h.queue_bound h.in_range

    send-Bounded : (m : Message) (s : Realtime) → Bounded s → Bounded (send o fails m s)
    unfolding send
    send-Bounded m s h =
        if_both Bounded (is_connected s)
          (if_both Bounded (fails s.sends)
            (schedule_reconnect-Bounded _
              (enqueue-Bounded _ _ (record { queue_bound = h.queue_bound; in_range = h.in_range })))
            (record { queue_bound = h.queue_bound; in_range = h.in_range }))
          (schedule_reconnect-Bounded _ (enqueue-Bounded _ _ h))

    resume-Bounded :
        (c : Caller) (ok : Bool) (s : Realtime) → Bounded s → Bounded (resume o fails c ok s)
    unfolding resume
    resume-Bounded (writing m) true s h = send-Bounded m s h
    resume-Bounded (writing m) false s h = schedule_reconnect-Bounded _ (enqueue-Bounded m s h)
    resume-Bounded flushing true s h = drain_queue-Bounded s h
    resume-Bounded flushing false s h = h
    resume-Bounded reconnecting true s h = h
    resume-Bounded reconnecting false s h = schedule_reconnect-Bounded s h

    receive-Bounded :
        (i : ℕ) (r : Reply) (s : Realtime) → Bounded s → Bounded (receive o fails i r s)
    unfolding receive
    receive-Bounded i accepted s h =
        finish-Bounded i true _
          (drain_queue-Bounded _ (record { queue_bound = h.queue_bound; in_range = omega arith }))
    receive-Bounded i rejected s h = if_both Bounded _ h (finish-Bounded i false s h)
    receive-Bounded i channel_down s h = record {
      queue_bound = h.queue_bound;
      in_range = h.in_range;
    }
    receive-Bounded i unrelated s h = h

    continue_first-Bounded :
        (cs : List (Caller × Bool)) (s : Realtime) {s' : Realtime}
        → Bounded s
        → continue_first o fails cs s ≡ some s'
        → Bounded s'
    unfolding continue_first
    continue_first-Bounded [] s b h = cc
    continue_first-Bounded ((c, ok) ∷ rest) s b h =
        of_some Bounded h
          (resume-Bounded c ok _ (record { queue_bound = b.queue_bound; in_range = b.in_range }))

    step-Bounded :
        (e : Event) (s : Realtime) {s' : Realtime}
        → Bounded s
        → step o fails e s ≡ some s'
        → Bounded s'
    unfolding step write flush opened_by heartbeat close ended_by
    step-Bounded (write_called b) s k h =
        of_some Bounded h
          (connect-Bounded b _ _ (record { queue_bound = k.queue_bound; in_range = k.in_range }))
    step-Bounded (flush_called b) s k h =
        of_some Bounded h (if_both Bounded _ k (connect-Bounded b flushing s k))
    step-Bounded (timer_fired b) s k h =
        of_some Bounded (some_of_if (is_some s.reconnect_timer) h) (
          connect-Bounded b reconnecting _
            (record { queue_bound = k.queue_bound; in_range = omega arith }))
    step-Bounded close_called s k h =
        of_some Bounded h (record { queue_bound = k.queue_bound; in_range = omega arith })
    step-Bounded continued s k h = continue_first-Bounded s.continuing s k h
    step-Bounded heartbeat_fired s k h = of_some Bounded (some_of_if s.heartbeat_timer h) (
        if_both Bounded (is_open s.ready_state s.socket)
          (record { queue_bound = k.queue_bound; in_range = k.in_range }) k)
    step-Bounded (opened i) s k h =
        of_some Bounded (some_of_if (ltb i s.sockets) h)
          (record { queue_bound = k.queue_bound; in_range = k.in_range })
    step-Bounded (errored i) s k h =
        of_some Bounded (some_of_if (ltb i s.sockets) h) (finish-Bounded i false s k)
    step-Bounded (ended i) s k h = of_some Bounded (some_of_if (ltb i s.sockets) h) (
        schedule_reconnect-Bounded _ (
          finish-Bounded i false _ (record { queue_bound = k.queue_bound; in_range = k.in_range })))
    step-Bounded (timed_out i) s k h =
        of_some Bounded (some_of_if (is_socket i s.connecting) h) (finish-Bounded i false s k)
    step-Bounded (received i r) s k h =
        of_some Bounded (some_of_if (ltb i s.sockets) h) (receive-Bounded i r s k)
    step-Bounded (ready_changed ready) s k h =
        of_some Bounded h (record { queue_bound = k.queue_bound; in_range = k.in_range })

    run-Bounded :
        (es : List Event) (s : Realtime) {s' : Realtime}
        → Bounded s
        → run o fails es s ≡ some s'
        → Bounded s'
    unfolding run
    run-Bounded [] s k h = of_some Bounded h k
    run-Bounded (e ∷ es) s {s'} k h = elim (Option-cases (step o fails e s)) [
      | inl stuck ↦ absurd (ground (arith, stuck))
      | inr (u, go) ↦ run-Bounded es u {s' = s'} (step-Bounded e s k go) (rw (go, run) at h)
    ]

    -- From a fresh transport, whatever happens, the queue holds at most `maxQueueSize` messages, or
    -- one if that is 0, and a reconnection waits for at least one second and at most thirty.
    run-InRange :
        (es : List Event) (s : Realtime)
        → run o fails es fresh ≡ some s
        → (length s.queue ≤ max 1 o.max_queue_size) × InRange s.reconnect_timer
    run-InRange es s h =
        let b =
          run-Bounded es fresh {s' = s}
            (record { queue_bound = omega arith; in_range = omega arith }) h in
        (b.queue_bound, b.in_range)
