-- ===== src/BaseLogger/Realtime/Accounts/Steps.antt =====
-- The accounts of the realtime transport of src/base-logger.ts over every schedule.
use next_loggers_ts.Prelude.{
  ℕ, suc, ◌+◌, ◌≤◌, ◌<◌, ◌≡◌, refl, List, [], ◌∷◌, Bool, true, false, some, inl, inr, ◌==◌, ==_iff,
  if◌then◌else◌, is_some, ltb, arith, of_some, some_of_if, Option-cases, Bool-cases, if_both,
}
use next_loggers_ts.BaseLogger.Realtime.{
  Options, Message, Caller, writing, flushing, reconnecting, Reply, accepted, rejected,
  channel_down, unrelated, Realtime, fresh, Event, write_called, flush_called, timer_fired,
  close_called, continued, heartbeat_fired, opened, errored, ended, timed_out, received,
  ready_changed, is_socket, is_connected, is_open, is_empty, next_message, opened_by, heartbeat,
  close, write, flush, ended_by, drain_queue, enqueue, schedule_reconnect, send, resume, receive,
  continue_first, step, run,
}
use next_loggers_ts.BaseLogger.Realtime.Accounts.{
  weight, tally, carried, held, held_settled, tally-append, Balanced, connect-Balanced,
  finish-Balanced, schedule_reconnect-Balanced, enqueue-Balanced, drain_each-Balanced,
}

unseen_next : (r n t : ℕ) → (n < r → t ≡ 0) → suc n < r → t + (if suc n == r then 1 else 0) ≡ 0
unseen_next r n t unseen l = let none_yet = unseen (omega (arith, l)) in ground arith

once_next : (r n t : ℕ) → (n < r → t ≡ 0) → t ≤ 1 → t + (if suc n == r then 1 else 0) ≤ 1
once_next r n t unseen once = elim (Bool-cases (suc n == r)) [
  | inl it ↦
      let is = (==_iff (suc n) r).0 it in let none_yet = unseen (omega (arith, is)) in ground arith
  | inr other ↦ ground (arith, other, once)
]

module _ (r : ℕ) where
  write-Balanced : (b : Bool) (s : Realtime) → Balanced r 0 s → Balanced r 0 (write b s)
  unfolding write
  write-Balanced b s h =
      let f = h.facts in
      let m = next_message s in
      let count = tally-append r s.written (m ∷ []) in
      connect-Balanced r b (writing m) _ (record {
        facts = (
          omega (arith, f.0, count),
          (λ l. omega (arith, count, unseen_next r s.ref (tally r s.written) f.1 l)),
          omega (arith, count, once_next r s.ref (tally r s.written) f.1 f.2),
        );
      })

  -- A ref that a join or a heartbeat takes.
  take_ref-Balanced : (s : Realtime) → Balanced r 0 s → Balanced r 0 (record s { ref = suc s.ref })
  take_ref-Balanced s h =
      let f = h.facts in record { facts = (f.0, (λ l. f.1 (omega (arith, l))), f.2) }

  module _ (o : Options) (fails : ℕ → Bool) where
    place-Balanced :
        (m : Message) (s : Realtime)
        → Balanced r (weight r m) s
        → Balanced r 0 (schedule_reconnect o (enqueue o m s))
    place-Balanced m s h = schedule_reconnect-Balanced r o _ (enqueue-Balanced r o m s h)

    drain_queue-Balanced : (s : Realtime) → Balanced r 0 s → Balanced r 0 (drain_queue o fails s)
    unfolding drain_queue
    drain_queue-Balanced s h = drain_each-Balanced r o fails s.queue s h

    send-Balanced :
        (m : Message) (s : Realtime) → Balanced r (weight r m) s → Balanced r 0 (send o fails m s)
    unfolding send
    send-Balanced m s h =
        let f = h.facts in
        let stamped = record m { join_ref = s.join_ref } in
        if_both (Balanced r 0) (is_connected s)
          (if_both (Balanced r 0) (fails s.sends)
            (place-Balanced stamped _ (record { facts = h.facts }))
            (record {
              facts = (omega (arith, f.0, tally-append r s.sent (stamped ∷ [])), f.1, f.2);
            }))
          (place-Balanced stamped s (record { facts = h.facts }))

    resume-Balanced :
        (c : Caller) (ok : Bool) (s : Realtime)
        → Balanced r (carried r c) s
        → Balanced r 0 (resume o fails c ok s)
    unfolding resume
    resume-Balanced (writing m) true s h = send-Balanced m s h
    resume-Balanced (writing m) false s h = place-Balanced m s h
    resume-Balanced flushing true s h = drain_queue-Balanced s h
    resume-Balanced flushing false s h = h
    resume-Balanced reconnecting true s h = h
    resume-Balanced reconnecting false s h = schedule_reconnect-Balanced r o s h

    continue_first-Balanced :
        (cs : List (Caller × Bool)) (s : Realtime) {s' : Realtime}
        → Balanced r 0 (record s { continuing = cs })
        → continue_first o fails cs s ≡ some s'
        → Balanced r 0 s'
    unfolding continue_first
    continue_first-Balanced [] s k h = cc
    continue_first-Balanced ((c, ok) ∷ rest) s k h =
        let f = k.facts in
        of_some (Balanced r 0) h (
          resume-Balanced c ok (record s { continuing = rest })
            (record { facts = (omega (arith, f.0), f.1, f.2) }))

    receive-Balanced :
        (i : ℕ) (reply : Reply) (s : Realtime)
        → Balanced r 0 s
        → Balanced r 0 (receive o fails i reply s)
    unfolding receive
    receive-Balanced i accepted s h =
        finish-Balanced r i true _ (drain_queue-Balanced _ (record { facts = h.facts }))
    receive-Balanced i rejected s h =
        if_both (Balanced r 0) s.joined h (finish-Balanced r i false s h)
    receive-Balanced i channel_down s h = record { facts = h.facts }
    receive-Balanced i unrelated s h = h

    step-Balanced :
        (e : Event) (s : Realtime) {s' : Realtime}
        → Balanced r 0 s
        → step o fails e s ≡ some s'
        → Balanced r 0 s'
    unfolding step flush opened_by heartbeat close ended_by
    step-Balanced (write_called b) s k h = of_some (Balanced r 0) h (write-Balanced b s k)
    step-Balanced (flush_called b) s k h =
        of_some (Balanced r 0) h
          (if_both (Balanced r 0) (is_empty s.queue) k (connect-Balanced r b flushing s k))
    step-Balanced (timer_fired b) s k h =
        of_some (Balanced r 0) (some_of_if (is_some s.reconnect_timer) h)
          (connect-Balanced r b reconnecting _ (record { facts = k.facts }))
    step-Balanced close_called s k h = of_some (Balanced r 0) h (record { facts = k.facts })
    step-Balanced continued s k h = continue_first-Balanced s.continuing s k h
    step-Balanced heartbeat_fired s k h = of_some (Balanced r 0) (some_of_if s.heartbeat_timer h) (
        if_both (Balanced r 0) (is_open s.ready_state s.socket)
          (record { facts = (take_ref-Balanced s k).facts }) k)
    step-Balanced (opened i) s k h =
        of_some (Balanced r 0) (some_of_if (ltb i s.sockets) h)
          (record { facts = (take_ref-Balanced s k).facts })
    step-Balanced (errored i) s k h =
        of_some (Balanced r 0) (some_of_if (ltb i s.sockets) h) (finish-Balanced r i false s k)
    step-Balanced (ended i) s k h = of_some (Balanced r 0) (some_of_if (ltb i s.sockets) h) (
        schedule_reconnect-Balanced r o _
          (finish-Balanced r i false _ (record { facts = k.facts })))
    step-Balanced (timed_out i) s k h =
        of_some (Balanced r 0) (some_of_if (is_socket i s.connecting) h)
          (finish-Balanced r i false s k)
    step-Balanced (received i reply) s k h =
        of_some (Balanced r 0) (some_of_if (ltb i s.sockets) h) (receive-Balanced i reply s k)
    step-Balanced (ready_changed ready) s k h =
        of_some (Balanced r 0) h (record { facts = k.facts })

    run-Balanced :
        (es : List Event) (s : Realtime) {s' : Realtime}
        → Balanced r 0 s
        → run o fails es s ≡ some s'
        → Balanced r 0 s'
    unfolding run
    run-Balanced [] s k h = of_some (Balanced r 0) h k
    run-Balanced (e ∷ es) s {s'} k h = elim (Option-cases (step o fails e s)) [
      | inl stuck ↦ absurd (ground (arith, stuck))
      | inr (u, go) ↦ run-Balanced es u {s' = s'} (step-Balanced e s k go) (rw (go, run) at h)
    ]

-- On every schedule from a fresh transport, a record that was written is in exactly one place: it
-- was sent, or it waits in the queue, or a full queue pushed it out, or its `write` awaits the
-- connection or its own continuation. So no record is sent twice, and none disappears unseen.
pub run-accounts_each :
    (o : Options) (fails : ℕ → Bool) (es : List Event) (s : Realtime) (r : ℕ)
    → run o fails es fresh ≡ some s
    → (tally r s.sent
          + (tally r s.queue + (tally r s.lost + (held r s.waiting + held_settled r s.continuing)))
        ≡ tally r s.written)
      × (tally r s.written ≤ 1)
run-accounts_each o fails es s r h =
    let balanced =
      run-Balanced r o fails es fresh {s' = s}
        (record { facts = (omega arith, (λ l. refl), omega arith) }) h in
    let f = balanced.facts in (omega (arith, f.0), f.2)
