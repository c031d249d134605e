-- ===== src/BrowserStream/Balance.antt =====
-- The account of src/browser-stream.ts by numbers: sent, queued and dropped records.
use next_loggers_ts.Prelude.{
  ℕ, ◌+◌, ◌-◌, ◌≤◌, ◌≡◌, refl, List, [], ◌∷◌, ◌++◌, Bool, false, Option, some, arith, is_some,
  of_some, some_of_if, some_of_unless, if_both, length, length-append, length-drop, drop,
  Bool-cases, Option-cases, inl, inr, none,
}
use mathlib.Core.Path.{subst}
use next_loggers_ts.CursorQueue.{size, drain, push, trim_to_last, empty}
use next_loggers_ts.CursorQueue.Refinement.{
  Holds, size-Holds, size-drain, size-trim, size-clear, length-peek, push-Holds, drain-Holds,
  trim-Holds, clear-Holds, empty-Holds,
}
use next_loggers_ts.BrowserStream.Tracks.{total, total-snoc}
use next_loggers_ts.BrowserStream.Kept.{snoc-ne-nil, after_beacon_both, accepts}
use next_loggers_ts.BrowserStream.Delivery.{accepted}
use next_loggers_ts.BrowserStream.{
  Options, Flight, idle, yielding, writing, Closing, open_stream, awaiting_flush, closed, Stream,
  BeaconOutcome, Event, wrote, timer_fired, flush_called, record_written, sent, failed, yielded,
  close_called, page_hidden, fresh, batch_of, max_queue_of, flush_on_exit, present, after_flush,
  schedule, write, end_flush, next_batch, flush, complete, close, step, run, after_record,
  after_send, after_failure, after_yield, is_closed,
}

module _ {A : Type 0} where
  abbrev in_batch : Flight A → ℕ
  in_batch idle = 0
  in_batch yielding = 0
  in_batch (writing batch rest) = length batch

module _ {A : Type 0} (o : Options A) where
  -- `n` records have been accepted.
  record Balanced (n : ℕ) (s : Stream A) : Type 0 where
    held : (ys : List A) × Holds s.queue ys
    buffered : size s.queue ≤ max_queue_of o
    counted : s.beacons ≡ [] → n ≡ total s.frames + size s.queue + s.dropped
    waiting : s.beacons ≡ [] → in_batch s.flight ≤ size s.queue

  -- The same with no batch in flight.
  grounded : (n : ℕ) (s : Stream A) → Balanced n s → Balanced n (record s { flight = idle })
  grounded n s b = record {
    held = b.held;
    buffered = b.buffered;
    counted = b.counted;
    waiting = λ e. omega arith;
  }

  retimed :
      (n : ℕ) (timer : Option ℕ) (c : Closing) (w : List (Option A)) (s : Stream A)
      → Balanced n s
      → Balanced n (record s { flush_timer = timer; closing = c; written = w })
  retimed n timer c w s b = record {
    held = b.held;
    buffered = b.buffered;
    counted = b.counted;
    waiting = b.waiting;
  }

  schedule-Balanced : (n : ℕ) (u : Bool) (s : Stream A) → Balanced n s → Balanced n (schedule o u s)
  unfolding schedule
  schedule-Balanced n u s b = if_both (Balanced n) _ b (retimed n _ s.closing s.written s b)

  after_flush-Balanced :
      (n : ℕ) (c : Closing) (s : Stream A) → Balanced n s → Balanced n (after_flush c s)
  after_flush-Balanced n open_stream s b = b
  after_flush-Balanced n awaiting_flush s b = retimed n s.flush_timer closed s.written s b
  after_flush-Balanced n closed s b = b

  end_flush-Balanced :
      (n : ℕ) (s : Stream A) → Balanced n (record s { flight = idle }) → Balanced n (end_flush o s)
  unfolding end_flush
  end_flush-Balanced n s b =
      after_flush-Balanced n s.closing _ (schedule-Balanced n false (record s { flight = idle }) b)

  next_batch-Balanced : (n : ℕ) (s : Stream A) → Balanced n s → Balanced n (next_batch o s)
  unfolding next_batch
  next_batch-Balanced n s b =
      if_both (Balanced n) _ (end_flush-Balanced n s (grounded n s b)) (record {
        held = b.held;
        buffered = b.buffered;
        counted = b.counted;
        waiting = λ e. omega (arith, length-peek (batch_of o) s.queue);
      })

  flush-Balanced : (n : ℕ) (s : Stream A) → Balanced n s → Balanced n (flush o s)
  unfolding flush
  flush-Balanced n s b = if_both (Balanced n) _ b (next_batch-Balanced n s b)

  -- A pushed record pushes out as many as the queue is too long, each counted.
  enqueued-Balanced :
      (n : ℕ) (r : A) (s : Stream A)
      → Balanced n s
      → Balanced (n + 1) (record s {
        queue = (trim_to_last (max_queue_of o) (push r s.queue)).0;
        dropped = s.dropped + (trim_to_last (max_queue_of o) (push r s.queue)).1;
      })
  enqueued-Balanced n r s b =
      let ys = b.held.0 in
      let m = max_queue_of o in
      let longer = ys ++ r ∷ [] in
      let (held, cut) = trim-Holds m (push r s.queue) longer (push-Holds r s.queue ys b.held.1) in
      let before = size-Holds s.queue ys b.held.1 in
      let after = size-Holds _ _ held in
      let grown = length-append ys (r ∷ []) in
      let shrunk = length-drop (length longer - m) longer in
      record {
        held = (drop (length longer - m) longer, held);
        buffered = size-trim m (push r s.queue);
        counted = λ e. omega (arith, b.counted e, before, after, cut, grown, shrunk);
        waiting = λ e. omega (arith, b.waiting e, b.buffered, before, after, cut, grown, shrunk);
      }

  write-Balanced :
      (n : ℕ) (r : A) (s : Stream A)
      → Balanced n s
      → Balanced (n + length (accepts (wrote r) s)) (write o r s)
  unfolding write
  write-Balanced n r s b = elim (Bool-cases (is_closed s.closing)) [
    | inl shut ↦ rw shut (same_count n s b)
    | inr up ↦ rw up (schedule-Balanced (n + 1) (o.is_urgent r) _ (enqueued-Balanced n r s b))
  ]
    where
      same_count : (k : ℕ) (t : Stream A) → Balanced k t → Balanced (k + 0) t
      same_count k t c = subst (λ (i : ℕ). Balanced i t) (omega arith) c

  acknowledged :
      (n : ℕ) (batch : List (Option A)) (f : Flight A) (s : Stream A)
      → in_batch f ≡ 0
      → length batch ≡ in_batch s.flight
      → Balanced n s
      → Balanced n (record s {
        queue = drain (length batch) s.queue;
        frames = s.frames ++ batch ∷ [];
        flight = f;
      })
  acknowledged n batch f s empty_flight same b = record {
    held = (drop (length batch) b.held.0, drain-Holds (length batch) s.queue b.held.0 b.held.1);
    buffered = omega (arith, size-drain (length batch) s.queue, b.buffered);
    counted = λ e. omega (
      arith,
      b.counted e,
      b.waiting e,
      same,
      total-snoc s.frames batch,
      size-drain (length batch) s.queue,
    );
    waiting = λ e. omega (arith, empty_flight);
  }

  complete-Balanced :
      (n : ℕ) (batch : List (Option A)) (s : Stream A)
      → length batch ≡ in_batch s.flight
      → Balanced n s
      → Balanced n (complete o batch s)
  unfolding complete
  complete-Balanced n batch s same b =
      if_both (Balanced n) _ (end_flush-Balanced n _ (acknowledged n batch idle s refl same b))
        (acknowledged n batch yielding s refl same b)

  flush_on_exit-Balanced :
      (n : ℕ) (rs : List (Option A)) (out : BeaconOutcome) (s : Stream A)
      → Balanced n s
      → Balanced n (flush_on_exit o rs out s)
  unfolding flush_on_exit
  flush_on_exit-Balanced n rs out s b =
      let untouched = retimed n none s.closing s.written s b in
      if_both (Balanced n) _ untouched (
        after_beacon_both (Balanced n) out untouched (record {
          held = ([], clear-Holds s.queue);
          buffered = omega (arith, size-clear s.queue);
          counted = λ e. absurd (snoc-ne-nil s.beacons _ e);
          waiting = λ e. absurd (snoc-ne-nil s.beacons _ e);
        }))

  close-Balanced : (n : ℕ) (s : Stream A) → Balanced n s → Balanced n (close o s)
  unfolding close
  close-Balanced n s b = if_both (Balanced n) _ b (
      if_both (Balanced n) _ (retimed n none closed s.written s b)
        (flush-Balanced n _ (retimed n none awaiting_flush s.written s b)))

  -- One case for each state of the flush that an event meets.
  after_record-Balanced :
      (n : ℕ) (f : Flight A) (s : Stream A) {s' : Stream A}
      → s.flight ≡ f
      → Balanced n s
      → after_record o f s ≡ some s'
      → Balanced n s'
  after_record-Balanced n idle s e b h = cc
  after_record-Balanced n yielding s e b h = cc
  after_record-Balanced n (writing batch []) s e b h = cc
  after_record-Balanced n (writing batch (r ∷ [])) s e b h =
      of_some (Balanced n) h
        (complete-Balanced n batch _ (rw e refl) (retimed n s.flush_timer s.closing _ s b))
  after_record-Balanced n (writing batch (r ∷ q ∷ rest)) s e b h = of_some (Balanced n) h (record {
    held = b.held;
    buffered = b.buffered;
    counted = b.counted;
    waiting = λ k. rw e at (b.waiting k);
  })

  after_send-Balanced :
      (n : ℕ) (f : Flight A) (s : Stream A) {s' : Stream A}
      → s.flight ≡ f
      → Balanced n s
      → after_send o f s ≡ some s'
      → Balanced n s'
  after_send-Balanced n idle s e b h = cc
  after_send-Balanced n yielding s e b h = cc
  after_send-Balanced n (writing batch rest) s e b h =
      of_some (Balanced n) h (complete-Balanced n batch s (rw e refl) b)

  after_failure-Balanced :
      (n : ℕ) (f : Flight A) (s : Stream A) {s' : Stream A}
      → Balanced n s
      → after_failure o f s ≡ some s'
      → Balanced n s'
  after_failure-Balanced n idle s b h = cc
  after_failure-Balanced n yielding s b h = cc
  after_failure-Balanced n (writing batch rest) s b h =
      of_some (Balanced n) h (end_flush-Balanced n s (grounded n s b))

  after_yield-Balanced :
      (n : ℕ) (f : Flight A) (s : Stream A) {s' : Stream A}
      → Balanced n s
      → after_yield o f s ≡ some s'
      → Balanced n s'
  after_yield-Balanced n idle s b h = cc
  after_yield-Balanced n yielding s b h = of_some (Balanced n) h (next_batch-Balanced n s b)
  after_yield-Balanced n (writing batch rest) s b h = cc

  more_none : (n : ℕ) (s : Stream A) → Balanced n s → Balanced (n + 0) s
  more_none n s b = subst (λ (i : ℕ). Balanced i s) (omega arith) b

  step-Balanced :
      (n : ℕ) (e : Event A) (s : Stream A) {s' : Stream A}
      → Balanced n s
      → step o e s ≡ some s'
      → Balanced (n + length (accepts e s)) s'
  unfolding step
  step-Balanced n (wrote r) s b h =
      of_some (Balanced (n + length (accepts (wrote r) s))) h (write-Balanced n r s b)
  step-Balanced n timer_fired s b h = more_none n _ (
      of_some (Balanced n) (some_of_if (is_some s.flush_timer) h)
        (flush-Balanced n _ (retimed n none s.closing s.written s b)))
  step-Balanced n flush_called s b h = more_none n _ (of_some (Balanced n) h (flush-Balanced n s b))
  step-Balanced n record_written s b h =
      more_none n _ (after_record-Balanced n s.flight s refl b (some_of_if o.has_transport h))
  step-Balanced n sent s b h =
      more_none n _ (after_send-Balanced n s.flight s refl b (some_of_unless o.has_transport h))
  step-Balanced n failed s b h = more_none n _ (after_failure-Balanced n s.flight s b h)
  step-Balanced n yielded s b h = more_none n _ (after_yield-Balanced n s.flight s b h)
  step-Balanced n close_called s b h = more_none n _ (of_some (Balanced n) h (close-Balanced n s b))
  step-Balanced n (page_hidden records outcome) s b h =
      more_none n _
        (of_some (Balanced n) h (flush_on_exit-Balanced n (present records) outcome s b))

  run-Balanced :
      (n : ℕ) (es : List (Event A)) (s : Stream A) {s' : Stream A}
      → Balanced n s
      → run o es s ≡ some s'
      → Balanced (n + length (accepted o es s)) s'
  unfolding run accepted
  run-Balanced n [] s {s'} b h = more_none n s' (of_some (Balanced n) h b)
  run-Balanced n (e ∷ es) s {s'} b h = elim (Option-cases (step o e s)) [
    | inl halted ↦ absurd (ground (arith, halted))
    | inr (u, go) ↦
        let rest =
          run-Balanced (n + length (accepts e s)) es u {s' = s'} (step-Balanced n e s b go)
            (rw (go, run) at h) in
        rw (go, accepted)
          (subst (λ (i : ℕ). Balanced i s')
            (omega (arith, length-append (accepts e s) (accepted o es u))) rest)
  ]

  -- Over every schedule from a fresh stream in which nothing is handed to the beacon, failed sends,
  -- disconnections and a full queue included, the numbers balance: the accepted records are as many
  -- as those sent, those in the queue and those that the counter of dropped records reports.
  pub run-accounts_exactly :
      (es : List (Event A)) {s : Stream A}
      → run o es fresh ≡ some s
      → s.beacons ≡ []
      → length (accepted o es fresh) ≡ total s.frames + size s.queue + s.dropped
  unfolding empty
  run-accounts_exactly es {s} h e =
      let start : Balanced 0 fresh = record {
        held = ([], empty-Holds);
        buffered = omega arith;
        counted = λ k. omega arith;
        waiting = λ k. omega arith;
      } in
      omega (arith, (run-Balanced 0 es fresh {s' = s} start h).counted e)
