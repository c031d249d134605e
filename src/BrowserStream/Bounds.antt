-- ===== src/BrowserStream/Bounds.antt =====
-- The bounds of src/browser-stream.ts: the buffer and the batches.
use next_loggers_ts.Prelude.{
  ◌≤◌, ◌≡◌, List, [], ◌∷◌, ◌++◌, Bool, false, Option, some, arith, is_some, of_some, some_of_if,
  some_of_unless, if_both, length, Option-cases, inl, inr,
}
use next_loggers_ts.CursorQueue.{size, drain, push, empty}
use next_loggers_ts.CursorQueue.Refinement.{size-drain, size-trim, size-clear, length-peek}
use next_loggers_ts.BrowserStream.{
  Options, Flight, idle, yielding, writing, Closing, open_stream, awaiting_flush, closed, Stream,
  BeaconOutcome, Event, wrote, timer_fired, flush_called, record_written, sent, failed, yielded,
  close_called, page_hidden, fresh, batch_of, max_queue_of, flush_on_exit, present, after_flush,
  schedule, write, end_flush, next_batch, flush, complete, close, step, run, after_record,
  after_send, after_failure, after_yield,
}

module _ {A : Type 0} (o : Options A) where
  abbrev IsBatch : List (Option A) → Type 0
  IsBatch b = (1 ≤ length b) × (length b ≤ batch_of o)

  abbrev pub AllBatches : List (List (Option A)) → Type 0
  AllBatches [] = Unit
  AllBatches (b ∷ bs) = (1 ≤ length b) × (length b ≤ batch_of o) × AllBatches bs

  AllBatches-snoc :
      (bs : List (List (Option A))) (b : List (Option A))
      → AllBatches bs
      → IsBatch b
      → AllBatches (bs ++ b ∷ [])
  AllBatches-snoc [] b h k = (k.0, k.1, tt)
  AllBatches-snoc (c ∷ bs) b h k = (h.0, h.1, AllBatches-snoc bs b h.2 k)

  abbrev IsBatchFlight : Flight A → Type 0
  IsBatchFlight idle = Unit
  IsBatchFlight yielding = Unit
  IsBatchFlight (writing b rest) = IsBatch b

  record Bounded (s : Stream A) : Type 0 where
    buffered : size s.queue ≤ max_queue_of o
    in_batch : IsBatchFlight s.flight
    batches : AllBatches s.frames

  schedule-Bounded : (u : Bool) (s : Stream A) → Bounded s → Bounded (schedule o u s)
  unfolding schedule
  schedule-Bounded u s b =
      if_both Bounded _ b
        (record { buffered = b.buffered; in_batch = b.in_batch; batches = b.batches })

  after_flush-Bounded : (c : Closing) (s : Stream A) → Bounded s → Bounded (after_flush c s)
  after_flush-Bounded open_stream s b = b
  after_flush-Bounded awaiting_flush s b = record {
    buffered = b.buffered;
    in_batch = b.in_batch;
    batches = b.batches;
  }
  after_flush-Bounded closed s b = b

  -- Nothing is asked of the batch in flight when the flush ends.
  end_flush-Bounded :
      (s : Stream A) → size s.queue ≤ max_queue_of o → AllBatches s.frames → Bounded (end_flush o s)
  unfolding end_flush
  end_flush-Bounded s h k =
      after_flush-Bounded s.closing _
        (schedule-Bounded false _ (record { buffered = h; in_batch = tt; batches = k }))

  next_batch-Bounded : (s : Stream A) → Bounded s → Bounded (next_batch o s)
  unfolding next_batch
  next_batch-Bounded s b = grind (arith, end_flush-Bounded, length-peek)

  flush-Bounded : (s : Stream A) → Bounded s → Bounded (flush o s)
  unfolding flush
  flush-Bounded s b = if_both Bounded _ b (next_batch-Bounded s b)

  write-Bounded : (r : A) (s : Stream A) → Bounded s → Bounded (write o r s)
  unfolding write
  write-Bounded r s b = if_both Bounded _ b (
      schedule-Bounded _ _ (record {
        buffered = size-trim (max_queue_of o) (push r s.queue);
        in_batch = b.in_batch;
        batches = b.batches;
      }))

  complete-Bounded :
      (batch : List (Option A)) (s : Stream A)
      → IsBatch batch
      → Bounded s
      → Bounded (complete o batch s)
  unfolding complete
  complete-Bounded batch s k b =
      let q : size (drain (length batch) s.queue) ≤ max_queue_of o =
        omega (arith, size-drain (length batch) s.queue, b.buffered) in
      let bs = AllBatches-snoc s.frames batch b.batches k in
      if_both Bounded _ (end_flush-Bounded _ q bs)
        (record { buffered = q; in_batch = tt; batches = bs })

  flush_on_exit-Bounded :
      (rs : List (Option A)) (out : BeaconOutcome) (s : Stream A)
      → Bounded s
      → Bounded (flush_on_exit o rs out s)
  unfolding flush_on_exit
  flush_on_exit-Bounded rs out s b = grind (arith, size-clear s.queue)

  close-Bounded : (s : Stream A) → Bounded s → Bounded (close o s)
  unfolding close
  close-Bounded s b = grind (arith, flush-Bounded)

  after_record-Bounded :
      (f : Flight A) (s : Stream A) {s' : Stream A}
      → IsBatchFlight f
      → Bounded s
      → after_record o f s ≡ some s'
      → Bounded s'
  after_record-Bounded idle s k b h = cc
  after_record-Bounded yielding s k b h = cc
  after_record-Bounded (writing batch []) s k b h = cc
  after_record-Bounded (writing batch (r ∷ [])) s k b h = of_some Bounded h (
      complete-Bounded batch _ k
        (record { buffered = b.buffered; in_batch = b.in_batch; batches = b.batches }))
  after_record-Bounded (writing batch (r ∷ q ∷ rest)) s k b h =
      of_some Bounded h (record { buffered = b.buffered; in_batch = k; batches = b.batches })

  after_send-Bounded :
      (f : Flight A) (s : Stream A) {s' : Stream A}
      → IsBatchFlight f
      → Bounded s
      → after_send o f s ≡ some s'
      → Bounded s'
  after_send-Bounded idle s k b h = cc
  after_send-Bounded yielding s k b h = cc
  after_send-Bounded (writing batch r) s k b h = of_some Bounded h (complete-Bounded batch s k b)

  after_failure-Bounded :
      (f : Flight A) (s : Stream A) {s' : Stream A}
      → Bounded s
      → after_failure o f s ≡ some s'
      → Bounded s'
  after_failure-Bounded idle s b h = cc
  after_failure-Bounded yielding s b h = cc
  after_failure-Bounded (writing batch r) s b h =
      of_some Bounded h (end_flush-Bounded s b.buffered b.batches)

  after_yield-Bounded :
      (f : Flight A) (s : Stream A) {s' : Stream A}
      → Bounded s
      → after_yield o f s ≡ some s'
      → Bounded s'
  after_yield-Bounded idle s b h = cc
  after_yield-Bounded yielding s b h = of_some Bounded h (next_batch-Bounded s b)
  after_yield-Bounded (writing batch r) s b h = cc

  step-Bounded :
      (e : Event A) (s : Stream A) {s' : Stream A} → Bounded s → step o e s ≡ some s' → Bounded s'
  unfolding step
  step-Bounded (wrote r) s b h = of_some Bounded h (write-Bounded r s b)
  step-Bounded timer_fired s b h = of_some Bounded (some_of_if (is_some s.flush_timer) h) (
      flush-Bounded _
        (record { buffered = b.buffered; in_batch = b.in_batch; batches = b.batches }))
  step-Bounded flush_called s b h = of_some Bounded h (flush-Bounded s b)
  step-Bounded record_written s b h =
      after_record-Bounded s.flight s b.in_batch b (some_of_if o.has_transport h)
  step-Bounded sent s b h =
      after_send-Bounded s.flight s b.in_batch b (some_of_unless o.has_transport h)
  step-Bounded failed s b h = after_failure-Bounded s.flight s b h
  step-Bounded yielded s b h = after_yield-Bounded s.flight s b h
  step-Bounded close_called s b h = of_some Bounded h (close-Bounded s b)
  step-Bounded (page_hidden records outcome) s b h =
      of_some Bounded h (flush_on_exit-Bounded (present records) outcome s b)

  run-Bounded :
      (es : List (Event A)) (s : Stream A) {s' : Stream A}
      → Bounded s
      → run o es s ≡ some s'
      → Bounded s'
  unfolding run
  run-Bounded [] s b h = of_some Bounded h b
  run-Bounded (e ∷ es) s {s'} b h = elim (Option-cases (step o e s)) [
    | inl halted ↦ absurd (ground (arith, halted))
    | inr (u, go) ↦ run-Bounded es u {s' = s'} (step-Bounded e s b go) (rw (go, run) at h)
  ]

  -- Over every schedule from a fresh stream the buffer holds at most the configured number of
  -- records, and every batch that is sent holds at least one and at most the batch size.
  pub run_bounds :
      (es : List (Event A)) {s : Stream A}
      → run o es fresh ≡ some s
      → (size s.queue ≤ max_queue_of o) × AllBatches s.frames
  unfolding empty
  run_bounds es {s} h =
      let b =
        run-Bounded es fresh {s' = s}
          (record { buffered = omega arith; in_batch = tt; batches = tt }) h in
      (b.buffered, b.batches)
