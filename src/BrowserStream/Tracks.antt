-- ===== src/BrowserStream/Tracks.antt =====
-- The bookkeeping of src/browser-stream.ts: which accepted records are in the queue, in the sent
-- batches, with the beacon, or counted as dropped, and how each part of the transport keeps it.
use mathlib.Core.List.{flatten, map-append}
use next_loggers_ts.Prelude.{
  ℕ, ◌+◌, ◌-◌, ◌≡◌, sym, ap, ◌∙◌, List, [], ◌∷◌, ◌++◌, Bool, false, Option, some, length, take,
  drop, arith, if_both, append-nil, append_assoc, map, take-append-drop,
}
use next_loggers_ts.CursorQueue.{Queue, push, peek, trim_to_last}
use next_loggers_ts.CursorQueue.Refinement.{Holds, push-Holds, peek-Holds, trim-Holds}
use next_loggers_ts.BrowserStream.{
  Options, Flight, idle, yielding, writing, Closing, open_stream, awaiting_flush, closed, Stream,
  after_flush, batch_of, schedule, end_flush, next_batch, flush,
}

module _ {A : Type 0} where
  abbrev pub total : List (List (Option A)) → ℕ
  total [] = 0
  total (b ∷ bs) = length b + total bs

  -- The batch in flight is at the head of the queue.
  abbrev pub Heads : Flight A → List A → Type 0
  Heads (writing batch rest) ys = (zs : List A) × (map some ys ≡ batch ++ map some zs)
  Heads _ ys = Unit

  -- `ys` is in the queue after `xs` has been accepted.
  pub record Tracks (s : Stream A) (ys xs : List A) : Type 0 where
    pub holds : Holds s.queue ys
    pub delivered : s.dropped ≡ 0 → s.beacons ≡ [] → flatten s.frames ++ map some ys ≡ map some xs
    pub heads : s.dropped ≡ 0 → s.beacons ≡ [] → Heads s.flight ys

  pub flatten-snoc :
      (bs : List (List (Option A))) (b : List (Option A)) → flatten (bs ++ b ∷ []) ≡ flatten bs ++ b
  unfolding flatten
  flatten-snoc [] b = append-nil b
  flatten-snoc (c ∷ bs) b =
      ap (λ l. c ++ l) (flatten-snoc bs b) ∙ sym (append_assoc c (flatten bs) b)

  pub total-snoc :
      (bs : List (List (Option A))) (b : List (Option A))
      → total (bs ++ b ∷ []) ≡ total bs + length b
  total-snoc [] b = omega arith
  total-snoc (c ∷ bs) b = omega (arith, total-snoc bs b)

  Heads-snoc : (f : Flight A) (ys : List A) (r : A) → Heads f ys → Heads f (ys ++ r ∷ [])
  Heads-snoc idle ys r h = tt
  Heads-snoc yielding ys r h = tt
  Heads-snoc (writing batch rest) ys r h = (
    h.0 ++ r ∷ [],
    map-append some ys (r ∷ [])
        ∙ ap (λ l. l ++ some r ∷ []) h.1
        ∙ append_assoc batch (map some h.0) (some r ∷ [])
        ∙ ap (λ l. batch ++ l) (sym (map-append some h.0 (r ∷ []))),
  )

  -- The queue and the counter after `record` has been pushed and the queue trimmed.
  abbrev pub enqueue : ℕ → A → Stream A → Stream A
  enqueue m r s =
      let (q, n) = trim_to_last m (push r s.queue) in
      record s { queue = q; dropped = s.dropped + n }

  pub enqueue-Tracks :
      (m : ℕ) (r : A) (s : Stream A) (ys xs : List A)
      → Tracks s ys xs
      → Tracks (enqueue m r s) (drop (length (ys ++ r ∷ []) - m) (ys ++ r ∷ [])) (xs ++ r ∷ [])
  enqueue-Tracks m r s ys xs t = record {
    holds = trimmed.0;
    delivered = λ d b. rw (none_cut d) (
        ap (λ l. flatten s.frames ++ l) (map-append some ys (r ∷ []))
        ∙ sym (append_assoc (flatten s.frames) (map some ys) (some r ∷ []))
        ∙ ap (λ l. l ++ some r ∷ []) (t.delivered (omega arith) b)
        ∙ sym (map-append some xs (r ∷ [])));
    heads = λ d b. rw (none_cut d) (Heads-snoc s.flight ys r (t.heads (omega arith) b));
  }
    where
      trimmed :
          Holds
            (trim_to_last m (push r s.queue)).0
            (drop (length (ys ++ r ∷ []) - m) (ys ++ r ∷ []))
          × ((trim_to_last m (push r s.queue)).1 ≡ length (ys ++ r ∷ []) - m)
      trimmed = trim-Holds m (push r s.queue) (ys ++ r ∷ []) (push-Holds r s.queue ys t.holds)

      none_cut : s.dropped + (trim_to_last m (push r s.queue)).1 ≡ 0 → length (ys ++ r ∷ []) - m ≡ 0
      none_cut d = omega (arith, trimmed.1)

  -- The timer, the written records and the state of `close` are no part of the bookkeeping.
  pub retimed-Tracks :
      (timer : Option ℕ) (c : Closing) (w : List (Option A)) (s : Stream A) (ys xs : List A)
      → Tracks s ys xs
      → Tracks (record s { flush_timer = timer; closing = c; written = w }) ys xs
  retimed-Tracks timer c w s ys xs t = record {
    holds = t.holds;
    delivered = t.delivered;
    heads = t.heads;
  }

  -- The same once no batch is in flight.
  pub grounded-Tracks :
      (s : Stream A) (ys xs : List A) → Tracks s ys xs → Tracks (record s { flight = idle }) ys xs
  grounded-Tracks s ys xs t = record { holds = t.holds; delivered = t.delivered; heads = λ d b. tt }

  pub schedule-Tracks :
      (o : Options A) (u : Bool) (s : Stream A) (ys xs : List A)
      → Tracks s ys xs
      → Tracks (schedule o u s) ys xs
  unfolding schedule
  schedule-Tracks o u s ys xs t =
      if_both (λ s'. Tracks s' ys xs) _ t (retimed-Tracks _ s.closing s.written s ys xs t)

  after_flush-Tracks :
      (c : Closing) (s : Stream A) (ys xs : List A)
      → Tracks s ys xs
      → Tracks (after_flush c s) ys xs
  after_flush-Tracks open_stream s ys xs t = t
  after_flush-Tracks awaiting_flush s ys xs t =
      retimed-Tracks s.flush_timer closed s.written s ys xs t
  after_flush-Tracks closed s ys xs t = t

  pub end_flush-Tracks :
      (o : Options A) (s : Stream A) (ys xs : List A)
      → Tracks (record s { flight = idle }) ys xs
      → Tracks (end_flush o s) ys xs
  unfolding end_flush
  end_flush-Tracks o s ys xs t =
      after_flush-Tracks s.closing _ ys xs
        (schedule-Tracks o false (record s { flight = idle }) ys xs t)

  peek-heads :
      (n : ℕ) (q : Queue A) (ys : List A)
      → Holds q ys
      → map some ys ≡ peek n q ++ map some (drop n ys)
  peek-heads n q ys h = sym (
      ap (λ l. l ++ map some (drop n ys)) (peek-Holds n q ys h)
      ∙ sym (map-append some (take n ys) (drop n ys))
      ∙ ap (map some) (take-append-drop n ys))

  pub next_batch-Tracks :
      (o : Options A) (s : Stream A) (ys xs : List A)
      → Tracks s ys xs
      → Tracks (next_batch o s) ys xs
  unfolding next_batch
  next_batch-Tracks o s ys xs t =
      if_both (λ s'. Tracks s' ys xs) _ (end_flush-Tracks o s ys xs (grounded-Tracks s ys xs t))
        (record {
          holds = t.holds;
          delivered = t.delivered;
          heads = λ d b. (drop (batch_of o) ys, peek-heads (batch_of o) s.queue ys t.holds);
        })

  pub flush-Tracks :
      (o : Options A) (s : Stream A) (ys xs : List A) → Tracks s ys xs → Tracks (flush o s) ys xs
  unfolding flush
  flush-Tracks o s ys xs t = if_both (λ s'. Tracks s' ys xs) _ t (next_batch-Tracks o s ys xs t)
