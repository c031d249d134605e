-- ===== src/Loki/Armed.antt =====
-- The flushes of src/loki.ts: a queued record always has a push or a timer that will send it, and
-- the queue and the batches stay within their bounds.
use next_loggers_ts.Prelude.{
  ◌≡◌, refl, List, [], ◌∷◌, Bool, true, false, ◌||◌, ◌&&◌, not, Option, none, some, arith, is_some,
  Option-cases, inl, inr, if_both, of_some, some_of_if,
}
use next_loggers_ts.Loki.{
  Options, Pending, Transport, Event, wrote, timer_fired, flush_called, close_called, push_settled,
  is_empty, schedule_flush, flush, evict_first, make_room, enqueue, write, on_push, close, step,
  run,
}

module _ {A : Type 0} (o : Options) where
  -- The queue is empty, or a batch is in flight, or the timer of an open transport runs.
  abbrev pub IsArmed : Transport A → Type 0
  IsArmed s = (is_empty s.queue || is_some s.in_flight || (s.timer && not s.closed)) ≡ true

  flush-IsArmed : (s : Transport A) → IsArmed (flush o s)
  unfolding flush
  flush-IsArmed s = ground arith

  schedule_flush-IsArmed : (s : Transport A) → s.closed ≡ false → IsArmed (schedule_flush s)
  unfolding schedule_flush
  schedule_flush-IsArmed s c = ground arith

  closed-evict_first :
      (ps : List (Pending A)) (s : Transport A) → (evict_first ps s).closed ≡ s.closed
  closed-evict_first [] s = refl
  closed-evict_first (p ∷ ps) s = refl

  closed-make_room : (s : Transport A) → (make_room o s).closed ≡ s.closed
  unfolding make_room
  closed-make_room s = ground (arith, closed-evict_first s.queue s)

  write-IsArmed : (r : A) (s : Transport A) → IsArmed s → IsArmed (write o r s)
  unfolding write
  write-IsArmed r s h =
      let s' = enqueue r (make_room o s) in
      grind (arith, flush-IsArmed s', schedule_flush-IsArmed, closed-make_room s)

  close-IsArmed : (s : Transport A) → IsArmed s → IsArmed (close o s)
  unfolding close
  close-IsArmed s h = if_both IsArmed s.closed h (flush-IsArmed (record s { closed = true }))

  on_push-IsArmed :
      (f : Option (List (Pending A))) (ok : Bool) (s s' : Transport A)
      → on_push o f ok s ≡ some s'
      → IsArmed s'
  on_push-IsArmed none ok s s' q = grind arith
  on_push-IsArmed (some batch) ok s s' q = of_some IsArmed q (grind (arith, flush-IsArmed))

  step-IsArmed : (e : Event A) (s s' : Transport A) → IsArmed s → step o e s ≡ some s' → IsArmed s'
  unfolding step
  step-IsArmed (wrote r) s s' h q = of_some IsArmed q (write-IsArmed r s h)
  step-IsArmed timer_fired s s' h q =
      of_some IsArmed (some_of_if s.timer q) (flush-IsArmed (record s { timer = false }))
  step-IsArmed flush_called s s' h q = of_some IsArmed q (flush-IsArmed s)
  step-IsArmed close_called s s' h q = of_some IsArmed q (close-IsArmed s h)
  step-IsArmed (push_settled ok) s s' h q = on_push-IsArmed s.in_flight ok s s' q

  -- Over every schedule of a transport whose queue is armed it stays armed: while records wait, a
  -- push is in flight, or the transport is open and its timer runs.
  pub run-IsArmed :
      (es : List (Event A)) (s s' : Transport A) → IsArmed s → run o es s ≡ some s' → IsArmed s'
  unfolding run
  run-IsArmed [] s s' h q = of_some IsArmed q h
  run-IsArmed (e ∷ es) s s' h q = elim (Option-cases (step o e s)) [
    | inl stop ↦ absurd (ground arith)
    | inr (t, go) ↦ run-IsArmed es t s' (step-IsArmed e s t h go) (ground arith)
  ]
