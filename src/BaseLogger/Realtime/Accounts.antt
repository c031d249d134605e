-- ===== src/BaseLogger/Realtime/Accounts.antt =====
-- Where a record of the realtime transport of src/base-logger.ts is: how often its ref occurs.
pub mod Steps
use next_loggers_ts.Prelude.{
  ℕ, suc, ◌+◌, ◌≤◌, ◌<◌, ◌≡◌, refl, ap, sym, ◌∙◌, List, [], ◌∷◌, ◌++◌, Bool, true, false, Option,
  none, some, inl, inr, not, ◌||◌, map, take, drop, length, leb, max, ◌==◌, if◌then◌else◌, is_some,
  arith, if_both, take-append-drop,
}
use next_loggers_ts.BaseLogger.Realtime.{
  Options, Message, Caller, writing, flushing, reconnecting, Realtime, is_socket, is_connected,
  is_empty, settle, finish, connect, enqueue, schedule_reconnect, drain_each,
}

abbrev pub weight : ℕ → Message → ℕ
weight r m = if m.ref == r then 1 else 0

abbrev pub tally : ℕ → List Message → ℕ
tally r [] = 0
tally r (m ∷ ms) = weight r m + tally r ms

abbrev pub carried : ℕ → Caller → ℕ
carried r (writing m) = weight r m
carried r flushing = 0
carried r reconnecting = 0

abbrev pub held : ℕ → List Caller → ℕ
held r [] = 0
held r (c ∷ cs) = carried r c + held r cs

abbrev pub held_settled : ℕ → List (Caller × Bool) → ℕ
held_settled r [] = 0
held_settled r ((c, ok) ∷ cs) = carried r c + held_settled r cs

pub tally-append : (r : ℕ) (ms ns : List Message) → tally r (ms ++ ns) ≡ tally r ms + tally r ns
tally-append r [] ns = omega arith
tally-append r (m ∷ ms) ns = omega (arith, tally-append r ms ns)

pub held-append : (r : ℕ) (cs ds : List Caller) → held r (cs ++ ds) ≡ held r cs + held r ds
held-append r [] ds = omega arith
held-append r (c ∷ cs) ds = omega (arith, held-append r cs ds)

held_settled-append :
    (r : ℕ) (cs ds : List (Caller × Bool))
    → held_settled r (cs ++ ds) ≡ held_settled r cs + held_settled r ds
held_settled-append r [] ds = omega arith
held_settled-append r ((c, ok) ∷ cs) ds = omega (arith, held_settled-append r cs ds)

held_settled-map :
    (r : ℕ) (ok : Bool) (cs : List Caller) → held_settled r (map (λ c. (c, ok)) cs) ≡ held r cs
held_settled-map r ok [] = refl
held_settled-map r ok (c ∷ cs) = omega (arith, held_settled-map r ok cs)

tally-take-drop :
    (r n : ℕ) (ms : List Message) → tally r (take n ms) + tally r (drop n ms) ≡ tally r ms
tally-take-drop r n ms =
    sym (tally-append r (take n ms) (drop n ms)) ∙ ap (tally r) (take-append-drop n ms)

module _ (r : ℕ) where
  -- The messages with ref `r` that are sent, queued, lost, or in the hands of a `write`, and those
  -- about to be placed; a ref that is not given out yet has none, and no ref has two.
  pub record Balanced (owed : ℕ) (s : Realtime) : Type 0 where
    pub facts :
        (tally r s.sent
            + (tally r s.queue
                + (tally r s.lost + (held r s.waiting + (held_settled r s.continuing + owed))))
          ≡ tally r s.written)
        × (s.ref < r → tally r s.written ≡ 0)
        × (tally r s.written ≤ 1)

  settle-Balanced :
      (c : Caller) (ok : Bool) (s : Realtime)
      → Balanced (carried r c) s
      → Balanced 0 (settle c ok s)
  unfolding settle
  settle-Balanced c ok s h =
      let f = h.facts in
      record {
        facts = (omega (arith, f.0, held_settled-append r s.continuing ((c, ok) ∷ [])), f.1, f.2);
      }

  wait-Balanced :
      (c : Caller) (s : Realtime)
      → Balanced (carried r c) s
      → Balanced 0 (record s { waiting = s.waiting ++ c ∷ [] })
  wait-Balanced c s h =
      let f = h.facts in
      record { facts = (omega (arith, f.0, held-append r s.waiting (c ∷ [])), f.1, f.2) }

  pub connect-Balanced :
      (b : Bool) (c : Caller) (s : Realtime) → Balanced (carried r c) s → Balanced 0 (connect b c s)
  unfolding connect
  connect-Balanced b c s h = if_both (Balanced 0) s.closed (settle-Balanced c false s h) (
      if_both (Balanced 0) (is_connected s) (settle-Balanced c true s h) (
        if_both (Balanced 0) (is_some s.connecting) (wait-Balanced c s h) (
          if_both (Balanced 0) (not b) (settle-Balanced c false s h)
            (record { facts = (wait-Balanced c s h).facts }))))

  pub finish-Balanced :
      (i : ℕ) (ok : Bool) (s : Realtime) → Balanced 0 s → Balanced 0 (finish i ok s)
  unfolding finish
  finish-Balanced i ok s h =
      let f = h.facts in
      if_both (Balanced 0) (is_socket i s.connecting)
        (record {
          facts = (
            omega (
              arith,
              f.0,
              held_settled-map r ok s.waiting,
              held_settled-append r s.continuing (map (λ c. (c, ok)) s.waiting),
            ),
            f.1,
            f.2,
          );
        })
        h

  module _ (o : Options) where
    pub schedule_reconnect-Balanced :
        (s : Realtime) → Balanced 0 s → Balanced 0 (schedule_reconnect o s)
    unfolding schedule_reconnect
    schedule_reconnect-Balanced s h =
        if_both (Balanced 0) ((s.closed || not o.reconnect) || is_empty s.queue) h
          (if_both (Balanced 0) (is_some s.reconnect_timer) h (record { facts = h.facts }))

    pub enqueue-Balanced :
        (m : Message) (s : Realtime) → Balanced (weight r m) s → Balanced 0 (enqueue o m s)
    unfolding enqueue
    enqueue-Balanced m s h =
        let f = h.facts in
        if_both (Balanced 0) (leb (max 1 o.max_queue_size) (length s.queue))
          (record {
            facts = (
              omega (
                arith,
                f.0,
                tally-append r (drop 1 s.queue) (m ∷ []),
                tally-append r s.lost (take 1 s.queue),
                tally-take-drop r 1 s.queue,
              ),
              f.1,
              f.2,
            );
          })
          (record { facts = (omega (arith, f.0, tally-append r s.queue (m ∷ [])), f.1, f.2) })

    module _ (fails : ℕ → Bool) where
      -- The queue of `s` counts as what is left of it, `ms`.
      pub drain_each-Balanced :
          (ms : List Message) (s : Realtime)
          → Balanced 0 (record s { queue = ms })
          → Balanced 0 (drain_each o fails ms s)
      unfolding drain_each
      drain_each-Balanced [] s h = h
      drain_each-Balanced (m ∷ ms) s h =
          let f = h.facts in
          let stamped = record m { join_ref = s.join_ref } in
          if_both (Balanced 0) (is_connected s)
            (if_both (Balanced 0) (fails s.sends) (record { facts = h.facts })
              (drain_each-Balanced ms _ (record {
                facts = (omega (arith, f.0, tally-append r s.sent (stamped ∷ [])), f.1, f.2);
              })))
            (record { facts = h.facts })
