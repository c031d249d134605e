-- ===== src/SupabaseIngest/Invariant/Runs.antt =====
-- The invariant of the transport of src/supabase-ingest.ts over every schedule.
use next_loggers_ts.Prelude.{
  ℕ, suc, ◌+◌, ◌≡◌, refl, ap, inl, inr, List, [], ◌∷◌, Bool, true, false, not, ◌&&◌, ◌||◌, ◌==◌,
  Option, none, some, is_some, length, leb, ltb, if◌then◌else◌, if_both, arith, of_some, some_of_if,
  Option-cases,
}
use next_loggers_ts.SupabaseIngest.Queue.{size, items, items-prepend, prepend-IsWithin}
use next_loggers_ts.SupabaseIngest.{
  Options, Queued, Flushing, idle, posting, settling, Exit, awaiting, resuming, exiting, Leaving,
  Ingest, fresh, has_none, enqueue, after_enqueue, schedule_retry, write,
}
use next_loggers_ts.SupabaseIngest.Steps.{
  Event, written, flush_called, exit_called, close_called, interval_fired, retry_fired, drain_sent,
  drain_failed, settled, exit_resumed, exit_sent, exit_failed, pick, awake_all, settle, fail_post,
  succeed_post, after_sent, after_failed, after_settled, resume_exit, sent_exit, failed_exit,
  on_exit, step, run,
}
use next_loggers_ts.SupabaseIngest.Batches.{Small, Small-append}
use next_loggers_ts.SupabaseIngest.Invariant.{
  tally, tally-append, in_flight, in_exit, in_exits, Inv, enqueue-Inv, schedule_interval-Inv,
  drain_on-Inv, flush-Inv, exit_on-Inv, flush_on_exit-Inv, close-Inv,
}
use next_loggers_ts.SupabaseIngest.Invariant.Exits.{Parts, pick-Parts, in_exits-awake_all}

count_next :
    (n w : ℕ)
    → (if ltb n w then 1 else 0) + (if w == n then 1 else 0) ≡ (if ltb n (suc w) then 1 else 0)
count_next n w = ground arith

module _ (o : Options) (n : ℕ) where
  after_enqueue-Inv : (p : Ingest × Bool) → Inv o n [] p.0 → Inv o n [] (after_enqueue o p)
  after_enqueue-Inv (s, false) h = h
  after_enqueue-Inv (s, true) h =
      if_both (Inv o n []) (leb o.batch_size (size s.queue) || o.await_delivery) (flush-Inv o n s h)
        (schedule_interval-Inv o n s h)

  write-Inv : (bytes : ℕ) (s : Ingest) → Inv o n [] s → Inv o n [] (write o bytes s)
  unfolding write
  write-Inv bytes s h =
      let f = h.facts in
      let item : Queued = record { number = s.writes; bytes = bytes } in
      after_enqueue-Inv (enqueue o item (record s { writes = suc s.writes })) (
        enqueue-Inv o n item (record s { writes = suc s.writes })
          (record {
            facts = (f.0, f.1, f.2, f.3, f.4, omega (arith, f.5, count_next n s.writes), f.6);
          }))

  fail_post-Inv :
      (b : List Queued) (s : Ingest)
      → Small o.max_record_bytes b
      → Inv o n b s
      → Inv o n [] (fail_post b s)
  unfolding fail_post
  fail_post-Inv b s small h =
      let f = h.facts in
      let shape = items-prepend b s.queue in
      record {
        facts = (
          prepend-IsWithin b s.queue f.0,
          rw shape (Small-append o.max_record_bytes b (items s.queue) small f.1),
          f.2,
          f.3,
          f.4,
          omega (arith, f.5, ap (tally n) shape, tally-append n b (items s.queue)),
          f.6,
        );
      }

  succeed_post-Inv : (b : List Queued) (s : Ingest) → Inv o n b s → Inv o n [] (succeed_post b s)
  unfolding succeed_post
  succeed_post-Inv b s h =
      let f = h.facts in
      record { facts = (f.0, f.1, f.2, f.3, f.4, omega (arith, f.5, tally-append n s.sent b), f.6) }

  -- The batch of the drain's flight comes in hand.
  land-Inv :
      (b : List Queued) (s : Ingest)
      → s.flushing ≡ posting b
      → Inv o n [] s
      → Inv o n b (record s { flushing = idle })
  land-Inv b s e h =
      let f = h.facts in
      record {
        facts = (
          f.0,
          f.1,
          omega arith,
          f.3,
          f.4,
          omega (arith, f.5, ap (λ g. tally n (in_flight g)) e),
          f.6,
        );
      }

  in_flight-Small :
      (b : List Queued) (s : Ingest)
      → s.flushing ≡ posting b
      → Inv o n [] s
      → Small o.max_record_bytes b
  in_flight-Small b s e h = rw e at h.facts.2

  after_sent-Inv :
      (f : Flushing) (s : Ingest) {t : Ingest}
      → s.flushing ≡ f
      → Inv o n [] s
      → after_sent o f s ≡ some t
      → Inv o n [] t
  unfolding after_sent succeed_post
  after_sent-Inv idle s e h k = cc
  after_sent-Inv (posting b) s e h k =
      of_some (Inv o n []) k
        (drain_on-Inv o n _ (record { facts = (succeed_post-Inv b _ (land-Inv b s e h)).facts }))
  after_sent-Inv (settling failed) s e h k = cc

  after_failed-Inv :
      (f : Flushing) (s : Ingest) {t : Ingest}
      → s.flushing ≡ f
      → Inv o n [] s
      → after_failed f s ≡ some t
      → Inv o n [] t
  unfolding after_failed fail_post
  after_failed-Inv idle s e h k = cc
  after_failed-Inv (posting b) s e h k =
      of_some (Inv o n []) k
        (record { facts = (fail_post-Inv b _ (in_flight-Small b s e h) (land-Inv b s e h)).facts })
  after_failed-Inv (settling failed) s e h k = cc

  awake-Inv :
      (s : Ingest)
      → Inv o n [] (record s { flushing = idle })
      → Inv o n [] (record s { flushing = idle; exits = awake_all s.exits })
  awake-Inv s h =
      let f = h.facts in
      let shape = in_exits-awake_all s.exits in
      record {
        facts = (f.0, f.1, f.2, rw shape f.3, f.4, omega (arith, f.5, ap (tally n) shape), f.6);
      }

  rest_Inv :
      (failed : Bool) (s : Ingest)
      → s.flushing ≡ settling failed
      → Inv o n [] s
      → Inv o n [] (record s { flushing = idle })
  rest_Inv failed s e h =
      let f = h.facts in
      record {
        facts = (
          f.0,
          f.1,
          omega arith,
          f.3,
          f.4,
          omega (arith, f.5, ap (λ g. tally n (in_flight g)) e),
          f.6,
        );
      }

  schedule_interval-awake_Inv :
      (s : Ingest) → Inv o n [] (record s { flushing = idle }) → Inv o n [] (settle o false s)
  unfolding settle
  schedule_interval-awake_Inv s h =
      if_both (Inv o n []) (not (has_none s.queue) && s.accepting)
        (schedule_interval-Inv o n _ (awake-Inv s h)) (awake-Inv s h)

  retried_Inv :
      (s : Ingest) → Inv o n [] (record s { flushing = idle }) → Inv o n [] (settle o true s)
  unfolding settle schedule_retry
  retried_Inv s h = awake-Inv (if s.accepting then schedule_retry o s else s) (
      if_both (λ (r : Ingest). Inv o n [] (record r { flushing = idle })) s.accepting
        (if_both (λ (r : Ingest). Inv o n [] (record r { flushing = idle }))
          ((not s.accepting || is_some s.retry_timer) || has_none s.queue) h
          (record { facts = h.facts }))
        h)

  -- A flush that has ended has no batch in flight.
  after_settled-Inv :
      (f : Flushing) (s : Ingest) {t : Ingest}
      → s.flushing ≡ f
      → Inv o n [] s
      → after_settled o f s ≡ some t
      → Inv o n [] t
  unfolding after_settled
  after_settled-Inv idle s e h k = cc
  after_settled-Inv (posting b) s e h k = cc
  after_settled-Inv (settling true) s e h k =
      of_some (Inv o n []) k (retried_Inv s (rest_Inv true s e h))
  after_settled-Inv (settling false) s e h k =
      of_some (Inv o n []) k (schedule_interval-awake_Inv s (rest_Inv false s e h))

  -- The call of `flushOnExit` that was picked has come in hand.
  resume_exit-Inv :
      (c : Bool) (e : Exit) (s : Ingest) {t : Ingest}
      → Inv o n (in_exit e) s
      → resume_exit o c e s ≡ some t
      → Inv o n [] t
  unfolding resume_exit
  resume_exit-Inv c awaiting s h k = cc
  resume_exit-Inv c resuming s h k = of_some (Inv o n []) k (exit_on-Inv o n c s h)
  resume_exit-Inv c (exiting b) s h k = cc

  sent_exit-Inv :
      (c : Bool) (e : Exit) (s : Ingest) {t : Ingest}
      → Inv o n (in_exit e) s
      → sent_exit o c e s ≡ some t
      → Inv o n [] t
  unfolding sent_exit
  sent_exit-Inv c awaiting s h k = cc
  sent_exit-Inv c resuming s h k = cc
  sent_exit-Inv c (exiting b) s h k =
      of_some (Inv o n []) k (exit_on-Inv o n c _ (succeed_post-Inv b s h))

  failed_exit-Inv :
      (c : Bool) (e : Exit) (s : Ingest) {t : Ingest}
      → Small o.max_record_bytes (in_exit e)
      → Inv o n (in_exit e) s
      → failed_exit c e s ≡ some t
      → Inv o n [] t
  unfolding failed_exit
  failed_exit-Inv c awaiting s small h k = cc
  failed_exit-Inv c resuming s small h k = cc
  failed_exit-Inv c (exiting b) s small h k = of_some (Inv o n []) k (
      if_both (Inv o n []) c (record { facts = (fail_post-Inv b s small h).facts })
        (fail_post-Inv b s small h))

  on_exit-Inv :
      (f : Bool → Exit → Ingest → Option Ingest) (p : Option (Leaving × List Leaving)) (s : Ingest)
      {t : Ingest}
      → ((r : Leaving × List Leaving) → p ≡ some r → Parts n o.max_record_bytes s.exits r)
      → ((c : Bool) (e : Exit) (u v : Ingest)
          → Small o.max_record_bytes (in_exit e)
          → Inv o n (in_exit e) u
          → f c e u ≡ some v
          → Inv o n [] v)
      → Inv o n [] s
      → on_exit f p s ≡ some t
      → Inv o n [] t
  on_exit-Inv f none s parts keeps h k = cc
  on_exit-Inv f (some (x, others)) s {t} parts keeps h k =
      let p = parts (x, others) refl in
      let g = h.facts in
      let small = p.1 g.3 in
      keeps x.by_close x.exit (record s { exits = others }) t small.0
        (record { facts = (g.0, g.1, g.2, small.1, g.4, omega (arith, g.5, p.0), g.6) }) k

  step-Inv :
      (e : Event) (s : Ingest) {t : Ingest} → Inv o n [] s → step o e s ≡ some t → Inv o n [] t
  unfolding step
  step-Inv (written b) s h k = of_some (Inv o n []) k (write-Inv b s h)
  step-Inv flush_called s h k = of_some (Inv o n []) k (flush-Inv o n s h)
  step-Inv exit_called s h k = of_some (Inv o n []) k (flush_on_exit-Inv o n false s h)
  step-Inv close_called s h k = of_some (Inv o n []) k (close-Inv o n s h)
  step-Inv interval_fired s h k =
      of_some (Inv o n []) (some_of_if s.interval_timer k)
        (flush-Inv o n _ (record { facts = h.facts }))
  step-Inv retry_fired s h k =
      of_some (Inv o n []) (some_of_if (is_some s.retry_timer) k)
        (flush-Inv o n _ (record { facts = h.facts }))
  step-Inv drain_sent s h k = after_sent-Inv s.flushing s refl h k
  step-Inv drain_failed s h k = after_failed-Inv s.flushing s refl h k
  step-Inv settled s h k = after_settled-Inv s.flushing s refl h k
  step-Inv (exit_resumed i) s {t} h k =
      on_exit-Inv (resume_exit o) (pick i s.exits) s {t = t}
        (pick-Parts n o.max_record_bytes i s.exits) (λ c e u v small. resume_exit-Inv c e u {t = v})
        h k
  step-Inv (exit_sent i) s {t} h k =
      on_exit-Inv (sent_exit o) (pick i s.exits) s {t = t}
        (pick-Parts n o.max_record_bytes i s.exits) (λ c e u v small. sent_exit-Inv c e u {t = v}) h
        k
  step-Inv (exit_failed i) s {t} h k =
      on_exit-Inv failed_exit (pick i s.exits) s {t = t} (pick-Parts n o.max_record_bytes i s.exits)
        (λ c e u v small. failed_exit-Inv c e u {t = v} small) h k

  pub run-Inv :
      (es : List Event) (s : Ingest) {t : Ingest}
      → Inv o n [] s
      → run o es s ≡ some t
      → Inv o n [] t
  unfolding run
  run-Inv [] s h k = of_some (Inv o n []) k h
  run-Inv (e ∷ es) s {t} h k = elim (Option-cases (step o e s)) [
    | inl stuck ↦ absurd (ground (arith, stuck))
    | inr (u, go) ↦ run-Inv es u {t = t} (step-Inv e s h go) (rw (go, run) at k)
  ]

  pub fresh-Inv : Inv o n [] fresh
  fresh-Inv = record {
    facts = (omega arith, omega arith, omega arith, omega arith, omega arith, ground arith, refl);
  }

-- On every schedule from a new transport each record that was written is in exactly one place: it
-- waits in the queue, is in the batch of the running flush or of a call of `flushOnExit`, was sent
-- or was dropped; and no place has a record twice or one that was not written. The counter of
-- drops is exact.
pub run-accounts_for :
    (o : Options) (es : List Event) (s : Ingest) (n : ℕ)
    → run o es fresh ≡ some s
    → (tally n (items s.queue)
          + (tally n (in_flight s.flushing)
              + (tally n (in_exits s.exits) + (tally n s.sent + tally n s.lost)))
        ≡ (if ltb n s.writes then 1 else 0))
      × (s.dropped ≡ length s.lost)
run-accounts_for o es s n h =
    let f = (run-Inv o n es fresh {t = s} (fresh-Inv o n) h).facts in (omega (arith, f.5), f.6)
