-- ===== src/Loki/Settlement.antt =====
-- The promises of src/loki.ts: each write's promise is settled exactly once, and no record is left
-- in the queue with nothing to send it.
use next_loggers_ts.Prelude.{
  ℕ, ◌+◌, ◌≡◌, refl, sym, ap, ◌∙◌, List, [], ◌∷◌, ◌++◌, Bool, true, false, Option, none, some, take,
  drop, ltb, ◌==◌, arith, if◌then◌else◌, Option-cases, inl, inr, take-append-drop, if_both, of_some,
  some_of_if,
}
use next_loggers_ts.Loki.{
  Options, Pending, Outcome, resolved, push_failed, evicted, refused, Transport, Event, wrote,
  timer_fired, flush_called, close_called, push_settled, batch_of, fresh, is_empty, schedule_flush,
  flush, evict_first, make_room, enqueue, write, settle_all, on_push, close, step, run,
}

module _ {A : Type 0} where
  -- How often a write is among the pending records, and among the settled promises.
  abbrev pub waiting : ℕ → List (Pending A) → ℕ
  waiting i [] = 0
  waiting i (p ∷ ps) = let rest = waiting i ps in if p.id == i then rest + 1 else rest

abbrev pub settlements : ℕ → List (ℕ × Outcome) → ℕ
settlements i [] = 0
settlements i ((j, v) ∷ vs) = let rest = settlements i vs in if j == i then rest + 1 else rest

settlements-append :
    (i : ℕ) (us vs : List (ℕ × Outcome))
    → settlements i (us ++ vs) ≡ settlements i us + settlements i vs
settlements-append i [] vs = omega arith
settlements-append i ((j, v) ∷ us) vs = ground (arith, settlements-append i us vs)

module _ {A : Type 0} where
  waiting-append :
      (i : ℕ) (ps qs : List (Pending A)) → waiting i (ps ++ qs) ≡ waiting i ps + waiting i qs
  waiting-append i [] qs = omega arith
  waiting-append i (p ∷ ps) qs = ground (arith, waiting-append i ps qs)

  settlements-settle_all :
      (i : ℕ) (v : Outcome) (ps : List (Pending A)) → settlements i (settle_all v ps) ≡ waiting i ps
  settlements-settle_all i v [] = refl
  settlements-settle_all i v (p ∷ ps) = ground (arith, settlements-settle_all i v ps)

  abbrev flying : ℕ → Option (List (Pending A)) → ℕ
  flying i none = 0
  flying i (some ps) = waiting i ps

  -- Where write `i` is: settled, in flight, or queued.
  abbrev pub places : ℕ → Transport A → ℕ
  places i s = settlements i s.settled + flying i s.in_flight + waiting i s.queue

  module _ (o : Options) (i : ℕ) where
    split_batch :
        (n : ℕ) (ps : List (Pending A))
        → waiting i (take n ps) + waiting i (drop n ps) ≡ waiting i ps
    split_batch n ps =
        sym (waiting-append i (take n ps) (drop n ps)) ∙ ap (waiting i) (take-append-drop n ps)

    places-flush : (s : Transport A) → places i (flush o s) ≡ places i s
    unfolding flush
    places-flush s = ground (arith, split_batch (batch_of o) s.queue)

    places-evict_first :
        (ps : List (Pending A)) (s : Transport A)
        → s.queue ≡ ps
        → places i (evict_first ps s) ≡ places i s
    places-evict_first [] s e = refl
    places-evict_first (p ∷ ps) s e =
        grind (arith, settlements-append i s.settled ((p.id, evicted) ∷ []), ap (waiting i) e)

    places-make_room : (s : Transport A) → places i (make_room o s) ≡ places i s
    unfolding make_room
    places-make_room s = ground (arith, places-evict_first s.queue s refl)

    writes-evict_first :
        (ps : List (Pending A)) (s : Transport A) → (evict_first ps s).writes ≡ s.writes
    writes-evict_first [] s = refl
    writes-evict_first (p ∷ ps) s = refl

    writes-make_room : (s : Transport A) → (make_room o s).writes ≡ s.writes
    unfolding make_room
    writes-make_room s = ground (arith, writes-evict_first s.queue s)

    places-enqueue :
        (r : A) (s : Transport A)
        → places i (enqueue r s) ≡ places i s + (if s.writes == i then 1 else 0)
    places-enqueue r s =
        let p : Pending A = record { id = s.writes; value = r } in
        ground (arith, waiting-append i s.queue (p ∷ []))

    places-schedule_flush : (s : Transport A) → places i (schedule_flush s) ≡ places i s
    unfolding schedule_flush
    places-schedule_flush s = ground arith

    places-write :
        (r : A) (s : Transport A)
        → places i (write o r s) ≡ places i s + (if s.writes == i then 1 else 0)
    unfolding write
    places-write r s =
        let s' = make_room o s in
        ground (
          arith,
          settlements-append i s.settled ((s.writes, refused) ∷ []),
          places-flush (enqueue r s'),
          places-schedule_flush (enqueue r s'),
          places-enqueue r s',
          places-make_room s,
          writes-make_room s,
        )

    writes-flush : (s : Transport A) → (flush o s).writes ≡ s.writes
    unfolding flush
    writes-flush s = ground arith

    writes-write : (r : A) (s : Transport A) → (write o r s).writes ≡ s.writes + 1
    unfolding write schedule_flush
    writes-write r s =
        let s' = make_room o s in ground (arith, writes-flush (enqueue r s'), writes-make_room s)

    -- Every write has been made and is in one place, or is still to come.
    abbrev pub Placed : Transport A → Type 0
    Placed s = places i s ≡ (if ltb i s.writes then 1 else 0)

    write-Placed : (r : A) (s : Transport A) → Placed s → Placed (write o r s)
    write-Placed r s h = ground (arith, places-write r s, writes-write r s)

    flush-Placed : (s : Transport A) → Placed s → Placed (flush o s)
    flush-Placed s h = ground (arith, places-flush s, writes-flush s)

    close-Placed : (s : Transport A) → Placed s → Placed (close o s)
    unfolding close
    close-Placed s h = if_both Placed s.closed h (flush-Placed (record s { closed = true }) h)

    on_push-Placed :
        (f : Option (List (Pending A))) (ok : Bool) (s s' : Transport A)
        → s.in_flight ≡ f
        → Placed s
        → on_push o f ok s ≡ some s'
        → Placed s'
    on_push-Placed none ok s s' e h q = grind arith
    on_push-Placed (some batch) ok s s' e h q =
        let v : Outcome = if ok then resolved else push_failed in
        let t : Transport A = record s {
          in_flight = none;
          settled = s.settled ++ settle_all v batch;
        } in
        let placed : Placed t = grind (
          arith,
          settlements-append i s.settled (settle_all v batch),
          settlements-settle_all i v batch,
          ap (flying i) e,
        ) in
        of_some Placed q (if_both Placed (is_empty t.queue) placed (flush-Placed t placed))

    step-Placed : (e : Event A) (s s' : Transport A) → Placed s → step o e s ≡ some s' → Placed s'
    unfolding step
    step-Placed (wrote r) s s' h q = of_some Placed q (write-Placed r s h)
    step-Placed timer_fired s s' h q =
        of_some Placed (some_of_if s.timer q) (flush-Placed (record s { timer = false }) h)
    step-Placed flush_called s s' h q = of_some Placed q (flush-Placed s h)
    step-Placed close_called s s' h q = of_some Placed q (close-Placed s h)
    step-Placed (push_settled ok) s s' h q = on_push-Placed s.in_flight ok s s' refl h q

    run-Placed :
        (es : List (Event A)) (s s' : Transport A) → Placed s → run o es s ≡ some s' → Placed s'
    unfolding run
    run-Placed [] s s' h q = of_some Placed q h
    run-Placed (e ∷ es) s s' h q = elim (Option-cases (step o e s)) [
      | inl stop ↦ absurd (ground arith)
      | inr (t, go) ↦ run-Placed es t s' (step-Placed e s t h go) (ground arith)
    ]

-- After every schedule of events of a fresh transport, each write made so far has exactly one
-- place: its promise is settled once and it is neither queued nor in flight, or it is not settled
-- and stands once in the queue or in the batch in flight. A write not made yet has none.
pub run-places :
    {A : Type 0} (o : Options) (i : ℕ) (es : List (Event A)) (s : Transport A)
    → run o es fresh ≡ some s
    → places i s ≡ (if ltb i s.writes then 1 else 0)
run-places o i es s q = run-Placed o i es fresh s (ground arith) q
