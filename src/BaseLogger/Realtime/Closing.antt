-- ===== src/BaseLogger/Realtime/Closing.antt =====
-- The realtime transport of src/base-logger.ts after `close`: no record is sent and no socket made.
use next_loggers_ts.Prelude.{
  ℕ, ◌≡◌, refl, List, [], ◌∷◌, Bool, true, false, Option, none, some, is_some, inl, inr, ltb, not,
  ◌||◌, ◌&&◌, length, leb, max, arith, of_some, some_of_if, Option-cases, if_both, if_cases,
}
use next_loggers_ts.BaseLogger.Realtime.{
  Options, Message, Caller, writing, flushing, reconnecting, Reply, accepted, rejected,
  channel_down, unrelated, Realtime, Event, write_called, flush_called, timer_fired, close_called,
  continued, heartbeat_fired, opened, errored, ended, timed_out, received, ready_changed, is_socket,
  is_connected, is_open, is_empty, settle, finish, connect, opened_by, heartbeat, close, write,
  flush, enqueue, schedule_reconnect, ended_by, drain_each, drain_queue, send, resume, receive,
  continue_first, step, run,
}

-- A closed transport, with what it had sent and how many sockets it had made.
pub record IsStopped (sent : List Message) (sockets : ℕ) (s : Realtime) : Type 0 where
  pub facts :
      (s.closed ≡ true)
      × (s.socket ≡ none)
      × (s.reconnect_timer ≡ none)
      × (s.sent ≡ sent)
      × (s.sockets ≡ sockets)

is_open-none :
    (ready : ℕ → ℕ) (i : Option ℕ) (joined : Bool) → i ≡ none → (is_open ready i && joined) ≡ false
is_open-none ready none joined h = refl
is_open-none ready (some i) joined h = cc

module _ (sent : List Message) (sockets : ℕ) where
  apart : {s : Realtime} → IsStopped sent sockets s → is_connected s ≡ false
  apart {s} h = is_open-none s.ready_state s.socket s.joined h.facts.1

  settle-IsStopped :
      (c : Caller) (ok : Bool) (s : Realtime)
      → IsStopped sent sockets s
      → IsStopped sent sockets (settle c ok s)
  unfolding settle
  settle-IsStopped c ok s h = record { facts = h.facts }

  connect-IsStopped :
      (b : Bool) (c : Caller) (s : Realtime)
      → IsStopped sent sockets s
      → IsStopped sent sockets (connect b c s)
  unfolding connect
  connect-IsStopped b c s h =
      if_cases (IsStopped sent sockets) s.closed (λ yes. settle-IsStopped c false s h)
        (λ no. absurd (ground (arith, h.facts.0)))

  finish-IsStopped :
      (i : ℕ) (ok : Bool) (s : Realtime)
      → IsStopped sent sockets s
      → IsStopped sent sockets (finish i ok s)
  unfolding finish
  finish-IsStopped i ok s h =
      if_both (IsStopped sent sockets) (is_socket i s.connecting) (record { facts = h.facts }) h

  module _ (o : Options) where
    schedule_reconnect-IsStopped :
        (s : Realtime) → IsStopped sent sockets s → IsStopped sent sockets (schedule_reconnect o s)
    unfolding schedule_reconnect
    schedule_reconnect-IsStopped s h =
        if_cases (IsStopped sent sockets) ((s.closed || not o.reconnect) || is_empty s.queue)
          (λ yes. h) (λ no. absurd (ground (arith, h.facts.0)))

    enqueue-IsStopped :
        (m : Message) (s : Realtime)
        → IsStopped sent sockets s
        → IsStopped sent sockets (schedule_reconnect o (enqueue o m s))
    unfolding enqueue
    enqueue-IsStopped m s h = schedule_reconnect-IsStopped _ (
        if_both (IsStopped sent sockets) (leb (max 1 o.max_queue_size) (length s.queue))
          (record { facts = h.facts }) (record { facts = h.facts }))

    module _ (fails : ℕ → Bool) where
      drain_each-IsStopped :
          (ms : List Message) (s : Realtime)
          → IsStopped sent sockets s
          → IsStopped sent sockets (drain_each o fails ms s)
      unfolding drain_each
      drain_each-IsStopped [] s h = record { facts = h.facts }
      drain_each-IsStopped (m ∷ ms) s h =
          if_cases (IsStopped sent sockets) (is_connected s)
            (λ yes. absurd (ground (arith, yes, apart h))) (λ no. record { facts = h.facts })

      send-IsStopped :
          (m : Message) (s : Realtime)
          → IsStopped sent sockets s
          → IsStopped sent sockets (send o fails m s)
      unfolding send
      send-IsStopped m s h =
          if_cases (IsStopped sent sockets) (is_connected s)
            (λ yes. absurd (ground (arith, yes, apart h))) (λ no. enqueue-IsStopped _ s h)

      resume-IsStopped :
          (c : Caller) (ok : Bool) (s : Realtime)
          → IsStopped sent sockets s
          → IsStopped sent sockets (resume o fails c ok s)
      unfolding resume drain_queue
      resume-IsStopped (writing m) true s h = send-IsStopped m s h
      resume-IsStopped (writing m) false s h = enqueue-IsStopped m s h
      resume-IsStopped flushing true s h = drain_each-IsStopped s.queue s h
      resume-IsStopped flushing false s h = h
      resume-IsStopped reconnecting true s h = h
      resume-IsStopped reconnecting false s h = schedule_reconnect-IsStopped s h

      receive-IsStopped :
          (i : ℕ) (r : Reply) (s : Realtime)
          → IsStopped sent sockets s
          → IsStopped sent sockets (receive o fails i r s)
      unfolding receive drain_queue
      receive-IsStopped i accepted s h =
          let f = h.facts in
          finish-IsStopped i true _
            (drain_each-IsStopped s.queue _ (record { facts = (f.0, f.1, refl, f.3, f.4) }))
      receive-IsStopped i rejected s h =
          if_both (IsStopped sent sockets) s.joined h (finish-IsStopped i false s h)
      receive-IsStopped i channel_down s h = record { facts = h.facts }
      receive-IsStopped i unrelated s h = h

      continue_first-IsStopped :
          (cs : List (Caller × Bool)) (s : Realtime) {s' : Realtime}
          → IsStopped sent sockets s
          → continue_first o fails cs s ≡ some s'
          → IsStopped sent sockets s'
      unfolding continue_first
      continue_first-IsStopped [] s k h = cc
      continue_first-IsStopped ((c, ok) ∷ rest) s k h =
          of_some (IsStopped sent sockets) h (resume-IsStopped c ok _ (record { facts = k.facts }))

      step-IsStopped :
          (e : Event) (s : Realtime) {s' : Realtime}
          → IsStopped sent sockets s
          → step o fails e s ≡ some s'
          → IsStopped sent sockets s'
      unfolding step write flush opened_by heartbeat close ended_by
      step-IsStopped (write_called b) s k h =
          of_some (IsStopped sent sockets) h (connect-IsStopped b _ _ (record { facts = k.facts }))
      step-IsStopped (flush_called b) s k h =
          of_some (IsStopped sent sockets) h (
            if_both (IsStopped sent sockets) (is_empty s.queue) k
              (connect-IsStopped b flushing s k))
      step-IsStopped (timer_fired b) s k h =
          let f = k.facts in
          of_some (IsStopped sent sockets) (some_of_if (is_some s.reconnect_timer) h)
            (connect-IsStopped b reconnecting _ (record { facts = (f.0, f.1, refl, f.3, f.4) }))
      step-IsStopped close_called s k h =
          let f = k.facts in
          of_some (IsStopped sent sockets) h (record { facts = (refl, refl, refl, f.3, f.4) })
      step-IsStopped continued s k h = continue_first-IsStopped s.continuing s k h
      step-IsStopped heartbeat_fired s k h =
          of_some (IsStopped sent sockets) (some_of_if s.heartbeat_timer h) (
            if_both (IsStopped sent sockets) (is_open s.ready_state s.socket)
              (record { facts = k.facts }) k)
      step-IsStopped (opened i) s k h =
          of_some (IsStopped sent sockets) (some_of_if (ltb i s.sockets) h)
            (record { facts = k.facts })
      step-IsStopped (errored i) s k h =
          of_some (IsStopped sent sockets) (some_of_if (ltb i s.sockets) h)
            (finish-IsStopped i false s k)
      step-IsStopped (ended i) s k h =
          of_some (IsStopped sent sockets) (some_of_if (ltb i s.sockets) h) (
            schedule_reconnect-IsStopped _
              (finish-IsStopped i false _ (record { facts = k.facts })))
      step-IsStopped (timed_out i) s k h =
          of_some (IsStopped sent sockets) (some_of_if (is_socket i s.connecting) h)
            (finish-IsStopped i false s k)
      step-IsStopped (received i r) s k h =
          of_some (IsStopped sent sockets) (some_of_if (ltb i s.sockets) h)
            (receive-IsStopped i r s k)
      step-IsStopped (ready_changed ready) s k h =
          of_some (IsStopped sent sockets) h (record { facts = k.facts })

      run-IsStopped :
          (es : List Event) (s : Realtime) {s' : Realtime}
          → IsStopped sent sockets s
          → run o fails es s ≡ some s'
          → IsStopped sent sockets s'
      unfolding run
      run-IsStopped [] s k h = of_some (IsStopped sent sockets) h k
      run-IsStopped (e ∷ es) s {s'} k h = elim (Option-cases (step o fails e s)) [
        | inl stuck ↦ absurd (ground (arith, stuck))
        | inr (u, go) ↦ run-IsStopped es u {s' = s'} (step-IsStopped e s k go) (rw (go, run) at h)
      ]

-- Once the transport has been closed, in whatever state, no record is sent any more, no socket is
-- made and no reconnection is scheduled, whatever happens and whoever writes. This is said of the
-- records' messages; the handlers of a socket that was made before may still send the frame that
-- joins the channel, and arm the heartbeat.
pub run-close :
    (o : Options) (fails : ℕ → Bool) (es : List Event) (s t : Realtime)
    → run o fails es (close s) ≡ some t
    → (t.sent ≡ s.sent) × (t.sockets ≡ s.sockets) × (t.socket ≡ none) × (t.reconnect_timer ≡ none)
unfolding close
run-close o fails es s t h =
    let stopped =
      run-IsStopped s.sent s.sockets o fails es (close s) {s' = t}
        (record { facts = (refl, refl, refl, refl, refl) }) h in
    let f = stopped.facts in (f.3, f.4, f.1, f.2)
