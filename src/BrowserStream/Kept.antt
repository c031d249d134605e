-- ===== src/BrowserStream/Kept.antt =====
-- Each event of src/browser-stream.ts keeps the bookkeeping of BrowserStream/Tracks.
use mathlib.Core.List.{flatten}
use next_loggers_ts.Prelude.{
  suc, ◌≡◌, refl, sym, ap, ◌∙◌, inl, inr, List, [], ◌∷◌, ◌++◌, Option, none, some, length, drop,
  if◌then◌else◌, is_some, if_both, drop-map, drop-length_append, Bool-cases, of_some, some_of_if,
  some_of_unless, append-nil, append_assoc, map,
}
use next_loggers_ts.CursorQueue.{drain, to_array, clear}
use next_loggers_ts.CursorQueue.Refinement.{drain-Holds, clear-Holds}
use next_loggers_ts.BrowserStream.Tracks.{
  Heads, Tracks, enqueue-Tracks, flatten-snoc, retimed-Tracks, grounded-Tracks, schedule-Tracks,
  end_flush-Tracks, next_batch-Tracks, flush-Tracks,
}
use next_loggers_ts.BrowserStream.{
  Options, Flight, idle, yielding, writing, awaiting_flush, closed, Stream, BeaconOutcome, queued,
  refused, threw, Event, wrote, timer_fired, flush_called, record_written, sent, failed, yielded,
  close_called, page_hidden, after_beacon, after_record, after_send, after_failure, after_yield,
  is_closed, max_queue_of, write, complete, flush_on_exit, close, present, step,
}

pub snoc-ne-nil : {B : Type 0} (bs : List B) (b : B) → bs ++ b ∷ [] ≡ [] → ⊥
snoc-ne-nil [] b e = cc
snoc-ne-nil (c ∷ bs) b e = cc

module _ {A : Type 0} where
  pub after_beacon_both :
      (P : Stream A → Type 0) (b : BeaconOutcome) {kept sent_off : Stream A}
      → P kept
      → P sent_off
      → P (after_beacon b kept sent_off)
  after_beacon_both P queued k h = h
  after_beacon_both P refused k h = h
  after_beacon_both P threw k h = k

  -- The records that are accepted along a run: those written before the stream is closed.
  abbrev pub accepts : Event A → Stream A → List A
  accepts (wrote r) s = if is_closed s.closing then [] else r ∷ []
  accepts _ s = []

  -- What is left of the queue behind a batch at its head.
  behind :
      (batch : List (Option A)) (ys zs : List A)
      → map some ys ≡ batch ++ map some zs
      → batch ++ map some (drop (length batch) ys) ≡ map some ys
  behind batch ys zs e =
      ap (λ l. batch ++ l)
        (sym (drop-map some (length batch) ys)
          ∙ ap (drop (length batch)) e
          ∙ drop-length_append batch (map some zs))
      ∙ sym e

  -- The queue and the batches after `batch` has been sent.
  abbrev acknowledge : List (Option A) → Flight A → Stream A → Stream A
  acknowledge batch f s = record s {
    queue = drain (length batch) s.queue;
    frames = s.frames ++ batch ∷ [];
    flight = f;
  }

  acknowledge-Tracks :
      (batch rest : List (Option A)) (f : Flight A) (s : Stream A) (ys xs : List A)
      → Tracks s ys xs
      → s.flight ≡ writing batch rest
      → ((zs : List A) → Heads f zs)
      → Tracks (acknowledge batch f s) (drop (length batch) ys) xs
  acknowledge-Tracks batch rest f s ys xs t e rests = record {
    holds = drain-Holds (length batch) s.queue ys t.holds;
    delivered = λ d b.
        ap (λ l. l ++ map some (drop (length batch) ys)) (flatten-snoc s.frames batch)
        ∙ append_assoc (flatten s.frames) batch (map some (drop (length batch) ys))
        ∙ ap (λ l. flatten s.frames ++ l) (behind batch ys (ahead d b).0 (ahead d b).1)
        ∙ t.delivered d b;
    heads = λ d b. rests (drop (length batch) ys);
  }
    where
      ahead : s.dropped ≡ 0 → s.beacons ≡ [] → (zs : List A) × (map some ys ≡ batch ++ map some zs)
      ahead d b = rw e at (t.heads d b)

  complete-Tracks :
      (o : Options A) (batch rest : List (Option A)) (s : Stream A) (ys xs : List A)
      → Tracks s ys xs
      → s.flight ≡ writing batch rest
      → Tracks (complete o batch s) (drop (length batch) ys) xs
  unfolding complete
  complete-Tracks o batch rest s ys xs t e =
      if_both (λ s'. Tracks s' (drop (length batch) ys) xs) _
        (end_flush-Tracks o _ (drop (length batch) ys) xs
          (acknowledge-Tracks batch rest idle s ys xs t e (λ zs. tt)))
        (acknowledge-Tracks batch rest yielding s ys xs t e (λ zs. tt))

  -- Some list is in the queue, and the bookkeeping is right.
  abbrev pub Kept : Stream A → List A → Type 0
  Kept s xs = (ys : List A) × Tracks s ys xs

  length-present : (rs : List A) → length (present rs) ≡ length rs
  unfolding present
  length-present [] = refl
  length-present (r ∷ rs) = ap suc (length-present rs)

  handed_over-Kept :
      (s : Stream A) (records : List (Option A)) (ys xs : List A)
      → Tracks s ys xs
      → Kept
          (record s {
            flush_timer = none;
            queue = clear s.queue;
            beacons = s.beacons ++ (to_array s.queue ++ records) ∷ [];
          })
          xs
  handed_over-Kept s records ys xs t =
      let pending = to_array s.queue ++ records in
      (
        [],
        record {
          holds = clear-Holds s.queue;
          delivered = λ d b. absurd (snoc-ne-nil s.beacons pending b);
          heads = λ d b. absurd (snoc-ne-nil s.beacons pending b);
        },
      )

  flush_on_exit-Kept :
      (o : Options A) (records : List (Option A)) (outcome : BeaconOutcome) (s : Stream A)
      (ys xs : List A)
      → Tracks s ys xs
      → Kept (flush_on_exit o records outcome s) xs
  unfolding flush_on_exit
  flush_on_exit-Kept o records outcome s ys xs t =
      let untouched : Kept (record s { flush_timer = none }) xs =
        (ys, retimed-Tracks none s.closing s.written s ys xs t) in
      if_both (λ s'. Kept s' xs) _ untouched
        (after_beacon_both (λ s'. Kept s' xs) outcome untouched
          (handed_over-Kept s records ys xs t))

  close-Tracks :
      (o : Options A) (s : Stream A) (ys xs : List A) → Tracks s ys xs → Tracks (close o s) ys xs
  unfolding close
  close-Tracks o s ys xs t =
      if_both (λ s'. Tracks s' ys xs) _ t
        (if_both (λ s'. Tracks s' ys xs) _ (retimed-Tracks none closed s.written s ys xs t)
          (flush-Tracks o _ ys xs (retimed-Tracks none awaiting_flush s.written s ys xs t)))

  write-Kept :
      (o : Options A) (r : A) (s : Stream A) (ys xs : List A)
      → Tracks s ys xs
      → Kept (write o r s) (xs ++ accepts (wrote r) s)
  unfolding write
  write-Kept o r s ys xs t = elim (Bool-cases (is_closed s.closing)) [
    | inl shut ↦ rw shut (ys, rw append-nil t)
    | inr up ↦
        rw up
          (_, schedule-Tracks o (o.is_urgent r) _ _ _ (enqueue-Tracks (max_queue_of o) r s ys xs t))
  ]

  -- One case for each state of the flush that an event meets.
  after_record-Kept :
      (o : Options A) (f : Flight A) (s : Stream A) (ys xs : List A) {s' : Stream A}
      → Tracks s ys xs
      → s.flight ≡ f
      → after_record o f s ≡ some s'
      → Kept s' xs
  after_record-Kept o idle s ys xs t e h = cc
  after_record-Kept o yielding s ys xs t e h = cc
  after_record-Kept o (writing batch []) s ys xs t e h = cc
  after_record-Kept o (writing batch (r ∷ [])) s ys xs t e h =
      of_some (λ u. Kept u xs) h
        (
          drop (length batch) ys,
          complete-Tracks o batch (r ∷ []) _ ys xs
              (retimed-Tracks s.flush_timer s.closing _ s ys xs t) e,
        )
  after_record-Kept o (writing batch (r ∷ q ∷ rest)) s ys xs t e h =
      of_some (λ u. Kept u xs) h
        (
          ys,
          record { holds = t.holds; delivered = t.delivered; heads = λ d b. rw e at (t.heads d b) },
        )

  after_send-Kept :
      (o : Options A) (f : Flight A) (s : Stream A) (ys xs : List A) {s' : Stream A}
      → Tracks s ys xs
      → s.flight ≡ f
      → after_send o f s ≡ some s'
      → Kept s' xs
  after_send-Kept o idle s ys xs t e h = cc
  after_send-Kept o yielding s ys xs t e h = cc
  after_send-Kept o (writing batch rest) s ys xs t e h =
      of_some (λ u. Kept u xs) h (drop (length batch) ys, complete-Tracks o batch rest s ys xs t e)

  after_failure-Kept :
      (o : Options A) (f : Flight A) (s : Stream A) (ys xs : List A) {s' : Stream A}
      → Tracks s ys xs
      → after_failure o f s ≡ some s'
      → Kept s' xs
  after_failure-Kept o idle s ys xs t h = cc
  after_failure-Kept o yielding s ys xs t h = cc
  after_failure-Kept o (writing batch rest) s ys xs t h =
      of_some (λ u. Kept u xs) h (ys, end_flush-Tracks o s ys xs (grounded-Tracks s ys xs t))

  after_yield-Kept :
      (o : Options A) (f : Flight A) (s : Stream A) (ys xs : List A) {s' : Stream A}
      → Tracks s ys xs
      → after_yield o f s ≡ some s'
      → Kept s' xs
  after_yield-Kept o idle s ys xs t h = cc
  after_yield-Kept o yielding s ys xs t h =
      of_some (λ u. Kept u xs) h (ys, next_batch-Tracks o s ys xs t)
  after_yield-Kept o (writing batch rest) s ys xs t h = cc

  -- Each event keeps the bookkeeping, for what it accepts.
  pub step-Kept :
      (o : Options A) (e : Event A) (s : Stream A) (ys xs : List A) {s' : Stream A}
      → Tracks s ys xs
      → step o e s ≡ some s'
      → Kept s' (xs ++ accepts e s)
  unfolding step
  step-Kept o (wrote r) s ys xs t h =
      of_some (λ u. Kept u (xs ++ accepts (wrote r) s)) h (write-Kept o r s ys xs t)
  step-Kept o timer_fired s ys xs t h = rw append-nil (
      of_some (λ u. Kept u xs) (some_of_if (is_some s.flush_timer) h)
        (ys, flush-Tracks o _ ys xs (retimed-Tracks none s.closing s.written s ys xs t)))
  step-Kept o flush_called s ys xs t h =
      rw append-nil (of_some (λ u. Kept u xs) h (ys, flush-Tracks o s ys xs t))
  step-Kept o record_written s ys xs t h =
      rw append-nil (after_record-Kept o s.flight s ys xs t refl (some_of_if o.has_transport h))
  step-Kept o sent s ys xs t h =
      rw append-nil (after_send-Kept o s.flight s ys xs t refl (some_of_unless o.has_transport h))
  step-Kept o failed s ys xs t h = rw append-nil (after_failure-Kept o s.flight s ys xs t h)
  step-Kept o yielded s ys xs t h = rw append-nil (after_yield-Kept o s.flight s ys xs t h)
  step-Kept o close_called s ys xs t h =
      rw append-nil (of_some (λ u. Kept u xs) h (ys, close-Tracks o s ys xs t))
  step-Kept o (page_hidden records outcome) s ys xs t h =
      rw append-nil
        (of_some (λ u. Kept u xs) h (flush_on_exit-Kept o (present records) outcome s ys xs t))
