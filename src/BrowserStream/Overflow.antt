-- ===== src/BrowserStream/Overflow.antt =====
-- A full buffer while a batch of src/browser-stream.ts is in flight.
use next_loggers_ts.Prelude.{
  suc, ◌+◌, ◌-◌, ◌≡◌, refl, ap, ◌∙◌, List, [], ◌∷◌, ◌++◌, true, false, Option, some, arith, length,
  drop, map, length-append, append_assoc,
}
use next_loggers_ts.CursorQueue.{drain, to_array, push}
use next_loggers_ts.CursorQueue.Refinement.{
  Holds, push-Holds, trim-Holds, drain-Holds, to_array-Holds,
}
use next_loggers_ts.BrowserStream.Tracks.{enqueue}
use next_loggers_ts.BrowserStream.{
  Options, writing, Closing, Stream, sent, max_queue_of, is_closed, in_flight, after_flush,
  schedule, write, end_flush, complete, step, open_stream, awaiting_flush, closed,
}

module _ {A : Type 0} (o : Options A) where
  write-in_flight :
      (r : A) (s : Stream A)
      → is_closed s.closing ≡ false
      → in_flight s.flight ≡ true
      → write o r s ≡ enqueue (max_queue_of o) r s
  unfolding write schedule
  write-in_flight r s c f = ground arith

  -- What `complete` leaves in the queue, the sent batches and the counter.
  after_flush_data :
      (c : Closing) (s : Stream A)
      → ((after_flush c s).queue ≡ s.queue)
        × ((after_flush c s).frames ≡ s.frames)
        × ((after_flush c s).dropped ≡ s.dropped)
  after_flush_data open_stream s = (refl, refl, refl)
  after_flush_data awaiting_flush s = (refl, refl, refl)
  after_flush_data closed s = (refl, refl, refl)

  complete_data :
      (b : List (Option A)) (s : Stream A)
      → ((complete o b s).queue ≡ drain (length b) s.queue)
        × ((complete o b s).frames ≡ s.frames ++ b ∷ [])
        × ((complete o b s).dropped ≡ s.dropped)
  unfolding complete end_flush schedule
  complete_data b s = grind (arith, after_flush_data)

  step-sent :
      (b rest : List (Option A)) (s : Stream A)
      → o.has_transport ≡ false
      → s.flight ≡ writing b rest
      → step o sent s ≡ some (complete o b s)
  unfolding step
  step-sent b rest s socket f = ground arith

  drop_past :
      (batch l : List A) (next : A) → drop (suc (length (map some batch))) (batch ++ next ∷ l) ≡ l
  drop_past [] l next = refl
  drop_past (x ∷ batch) l next = drop_past batch l next

  -- The queue once the new record has pushed the first one out.
  enqueue-full :
      (r first : A) (xs : List A) (s : Stream A)
      → Holds s.queue (first ∷ xs)
      → max_queue_of o ≡ length (first ∷ xs)
      → Holds (enqueue (max_queue_of o) r s).queue (xs ++ r ∷ [])
        × ((enqueue (max_queue_of o) r s).dropped ≡ s.dropped + 1)
  enqueue-full r first xs s h full =
      let one : length (first ∷ xs ++ r ∷ []) - max_queue_of o ≡ 1 =
        omega (arith, length-append xs (r ∷ [])) in
      let k =
        trim-Holds (max_queue_of o) (push r s.queue) (first ∷ xs ++ r ∷ [])
          (push-Holds r s.queue (first ∷ xs) h) in
      (rw one at k.0, omega (arith, k.1))

  -- A batch is in flight on a full queue of a socket stream that is not closed, at its head, with a
  -- further record `next` behind it. A record is written, and then the batch is sent. The batch is
  -- among those sent, one record is counted as dropped, and the queue holds what stood behind
  -- `next` and the new record: `next` has been removed although it was never sent.
  pub overflow-loses_unsent :
      (r first next : A) (batch tail : List A) (s : Stream A)
      → o.has_transport ≡ false
      → is_closed s.closing ≡ false
      → s.flight ≡ writing (map some (first ∷ batch)) (map some (first ∷ batch))
      → Holds s.queue (first ∷ batch ++ next ∷ tail)
      → max_queue_of o ≡ length (first ∷ batch ++ next ∷ tail)
      → (s' : Stream A) × (step o sent (write o r s) ≡ some s')
        × (s'.frames ≡ s.frames ++ map some (first ∷ batch) ∷ [])
        × (s'.dropped ≡ s.dropped + 1)
        × (to_array s'.queue ≡ map some (tail ++ r ∷ []))
  overflow-loses_unsent r first next batch tail s socket c f h full =
      let b = map some (first ∷ batch) in
      let s1 = enqueue (max_queue_of o) r s in
      let (held, counted) = enqueue-full r first (batch ++ next ∷ tail) s h full in
      let (queue, frames, dropped) = complete_data b s1 in
      let left = drain-Holds (length b) s1.queue _ held in
      (
        complete o b s1,
        rw (write-in_flight r s c (ground arith)) (step-sent b b s1 socket f),
        frames,
        dropped ∙ counted,
        rw queue (
            to_array-Holds _ _ left
            ∙ ap (map some) (
                ap (drop (length b)) (append_assoc batch (next ∷ tail) (r ∷ []))
                ∙ drop_past batch (tail ++ r ∷ []) next)),
      )
