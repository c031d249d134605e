-- ===== src/BrowserStream/Armed.antt =====
-- The timers of src/browser-stream.ts: queued records are never left with nothing to send them,
-- but by the page-exit handler.
use next_loggers_ts.Prelude.{
  ◌≡◌, List, [], ◌∷◌, Bool, true, false, ◌||◌, Option, some, arith, is_some, of_some, some_of_if,
  some_of_unless,
}
use next_loggers_ts.BrowserStream.{
  Options, Flight, idle, yielding, writing, Closing, open_stream, awaiting_flush, closed, Stream,
  Event, wrote, timer_fired, flush_called, record_written, sent, failed, yielded, close_called,
  page_hidden, is_closed, is_empty, in_flight, after_flush, schedule, write, end_flush, next_batch,
  flush, complete, close, step, after_record, after_send, after_failure, after_yield,
}

abbrev pub is_page_exit : {A : Type 0} → Event A → Bool
is_page_exit (page_hidden records outcome) = true
is_page_exit _ = false

module _ {A : Type 0} where
  -- The queue is empty, or the stream is closed, or a flush runs or is scheduled.
  abbrev pub IsArmed : Stream A → Type 0
  IsArmed s =
      (is_empty s.queue || is_closed s.closing || is_some s.flush_timer || in_flight s.flight)
      ≡ true

  schedule-IsArmed : (o : Options A) (u : Bool) (s : Stream A) → IsArmed (schedule o u s)
  unfolding schedule
  schedule-IsArmed o u s = ground arith

  after_flush-IsArmed : (c : Closing) (s : Stream A) → IsArmed s → IsArmed (after_flush c s)
  after_flush-IsArmed open_stream s h = h
  after_flush-IsArmed awaiting_flush s h = ground arith
  after_flush-IsArmed closed s h = h

  end_flush-IsArmed : (o : Options A) (s : Stream A) → IsArmed (end_flush o s)
  unfolding end_flush
  end_flush-IsArmed o s = after_flush-IsArmed s.closing _ (schedule-IsArmed o false _)

  next_batch-IsArmed : (o : Options A) (s : Stream A) → IsArmed (next_batch o s)
  unfolding next_batch
  next_batch-IsArmed o s = grind (arith, end_flush-IsArmed)

  flush-IsArmed : (o : Options A) (s : Stream A) → IsArmed (flush o s)
  unfolding flush
  flush-IsArmed o s = grind (arith, next_batch-IsArmed)

  write-IsArmed : (o : Options A) (r : A) (s : Stream A) → IsArmed (write o r s)
  unfolding write
  write-IsArmed o r s = grind (arith, schedule-IsArmed)

  complete-IsArmed : (o : Options A) (b : List (Option A)) (s : Stream A) → IsArmed (complete o b s)
  unfolding complete
  complete-IsArmed o b s = grind (arith, end_flush-IsArmed)

  close-IsArmed : (o : Options A) (s : Stream A) → IsArmed (close o s)
  unfolding close
  close-IsArmed o s = grind (arith, flush-IsArmed)

  after_record-IsArmed :
      (o : Options A) (f : Flight A) (s : Stream A) {s' : Stream A}
      → after_record o f s ≡ some s'
      → IsArmed s'
  after_record-IsArmed o idle s h = cc
  after_record-IsArmed o yielding s h = cc
  after_record-IsArmed o (writing b []) s h = cc
  after_record-IsArmed o (writing b (r ∷ [])) s h = of_some IsArmed h (complete-IsArmed o b _)
  after_record-IsArmed o (writing b (r ∷ q ∷ rest)) s h = of_some IsArmed h (ground arith)

  after_send-IsArmed :
      (o : Options A) (f : Flight A) (s : Stream A) {s' : Stream A}
      → after_send o f s ≡ some s'
      → IsArmed s'
  after_send-IsArmed o idle s h = cc
  after_send-IsArmed o yielding s h = cc
  after_send-IsArmed o (writing b r) s h = of_some IsArmed h (complete-IsArmed o b s)

  after_failure-IsArmed :
      (o : Options A) (f : Flight A) (s : Stream A) {s' : Stream A}
      → after_failure o f s ≡ some s'
      → IsArmed s'
  after_failure-IsArmed o idle s h = cc
  after_failure-IsArmed o yielding s h = cc
  after_failure-IsArmed o (writing b r) s h = of_some IsArmed h (end_flush-IsArmed o s)

  after_yield-IsArmed :
      (o : Options A) (f : Flight A) (s : Stream A) {s' : Stream A}
      → after_yield o f s ≡ some s'
      → IsArmed s'
  after_yield-IsArmed o idle s h = cc
  after_yield-IsArmed o yielding s h = of_some IsArmed h (next_batch-IsArmed o s)
  after_yield-IsArmed o (writing b r) s h = cc

  -- After every event but a page exit, from whatever state, records in the queue of a stream that
  -- is not closed have a flush that runs or a timer that will start one.
  pub step-IsArmed :
      (o : Options A) (e : Event A) (s : Stream A) {s' : Stream A}
      → is_page_exit e ≡ false
      → step o e s ≡ some s'
      → IsArmed s'
  unfolding step
  step-IsArmed o (wrote r) s p h = of_some IsArmed h (write-IsArmed o r s)
  step-IsArmed o timer_fired s p h =
      of_some IsArmed (some_of_if (is_some s.flush_timer) h) (flush-IsArmed o _)
  step-IsArmed o flush_called s p h = of_some IsArmed h (flush-IsArmed o s)
  step-IsArmed o record_written s p h =
      after_record-IsArmed o s.flight s (some_of_if o.has_transport h)
  step-IsArmed o sent s p h = after_send-IsArmed o s.flight s (some_of_unless o.has_transport h)
  step-IsArmed o failed s p h = after_failure-IsArmed o s.flight s h
  step-IsArmed o yielded s p h = after_yield-IsArmed o s.flight s h
  step-IsArmed o close_called s p h = of_some IsArmed h (close-IsArmed o s)
  step-IsArmed o (page_hidden records outcome) s p h = cc
