-- ===== src/SupabaseIngest/Armed.antt =====
-- The timers of the transport of src/supabase-ingest.ts: while it accepts records, those in its
-- queue have a flush that runs or a timer that will start one.
use next_loggers_ts.Prelude.{
  ℕ, ◌≡◌, refl, List, [], ◌∷◌, inl, inr, Bool, true, false, not, ◌&&◌, ◌||◌, Option, none, some,
  is_some, leb, ltb, if◌then◌else◌, if_both, if_cases, arith, of_some, some_of_if, Option-cases,
}
use next_loggers_ts.SupabaseIngest.Queue.{size}
use next_loggers_ts.SupabaseIngest.{
  Options, Queued, Flushing, idle, posting, settling, Exit, awaiting, resuming, exiting, Leaving,
  Ingest, fresh, has_none, is_idle, take_batch, drop_record, enqueue, after_enqueue,
  schedule_interval, schedule_retry, clear_timers, post_drained, drain_on, flush, write, end_exit,
  post_exiting, exit_on, flush_on_exit, close,
}
use next_loggers_ts.SupabaseIngest.Steps.{
  Event, written, flush_called, exit_called, close_called, interval_fired, retry_fired, drain_sent,
  drain_failed, settled, exit_resumed, exit_sent, exit_failed, pick, awake_all, settle,
  succeed_post, after_sent, after_failed, after_settled, resume_exit, sent_exit, on_exit, step, run,
}
use next_loggers_ts.SupabaseIngest.Batches.{Batch}

-- The timers and the flush that can empty the queue.
abbrev pub is_driven : Ingest → Bool
is_driven s = (s.interval_timer || is_some s.retry_timer) || not (is_idle s.flushing)

abbrev pub IsArmed : Ingest → Type 0
IsArmed s = (not s.accepting || (has_none s.queue || is_driven s)) ≡ true

schedule_interval-IsArmed : (s : Ingest) → IsArmed (schedule_interval s)
unfolding schedule_interval
schedule_interval-IsArmed s = ground arith

abbrev pub is_exit_failed : Event → Bool
is_exit_failed (exit_failed i) = true
is_exit_failed _ = false

abbrev pub any_exit_failed : List Event → Bool
any_exit_failed [] = false
any_exit_failed (e ∷ es) = is_exit_failed e || any_exit_failed es

module _ (o : Options) where
  post_drained-IsArmed : (s : Ingest) (p : Batch) → IsArmed (post_drained s p)
  post_drained-IsArmed s ([], q) = ground arith
  post_drained-IsArmed s (x ∷ xs, q) = ground arith

  drain_on-IsArmed : (s : Ingest) → IsArmed (drain_on o s)
  unfolding drain_on
  drain_on-IsArmed s =
      if_both (λ (u : Ingest). IsArmed u) (has_none s.queue) (ground arith)
        (post_drained-IsArmed s (take_batch o false s.queue))

  flush-IsArmed : (s : Ingest) → IsArmed (flush o s)
  unfolding flush
  flush-IsArmed s =
      if_cases (λ (u : Ingest). IsArmed u) (is_idle s.flushing)
        (λ free. drain_on-IsArmed (clear_timers s)) (λ busy. ground (arith, busy))

  after_enqueue-IsArmed :
      (p : Ingest × Bool) → (p.1 ≡ false → IsArmed p.0) → IsArmed (after_enqueue o p)
  after_enqueue-IsArmed (s, true) h =
      if_both (λ (u : Ingest). IsArmed u) (leb o.batch_size (size s.queue) || o.await_delivery)
        (flush-IsArmed s) (schedule_interval-IsArmed s)
  after_enqueue-IsArmed (s, false) h = h refl

  enqueue_refused :
      (x : Queued) (s : Ingest) → IsArmed s → (enqueue o x s).1 ≡ false → IsArmed (enqueue o x s).0
  unfolding enqueue drop_record
  enqueue_refused x s h =
      if_both (λ (p : Ingest × Bool). p.1 ≡ false → IsArmed p.0) (not s.accepting) (λ e. h)
        (if_both (λ (p : Ingest × Bool). p.1 ≡ false → IsArmed p.0) (ltb o.max_record_bytes x.bytes)
          (λ e. h) (λ e. absurd (ground (arith, e))))

  write-IsArmed : (bytes : ℕ) (s : Ingest) → IsArmed s → IsArmed (write o bytes s)
  unfolding write
  write-IsArmed bytes s h =
      after_enqueue-IsArmed _ (enqueue_refused (record { number = s.writes; bytes = bytes }) _ h)

  end_exit-IsArmed : (c : Bool) (s : Ingest) → IsArmed s → IsArmed (end_exit c s)
  unfolding end_exit
  end_exit-IsArmed c s h = if_both (λ (u : Ingest). IsArmed u) c h h

  post_exiting-IsArmed :
      (c : Bool) (s : Ingest) (p : Batch)
      → (not s.accepting || is_driven s) ≡ true
      → IsArmed (post_exiting c s p)
  post_exiting-IsArmed c s ([], q) h = end_exit-IsArmed c _ (ground (arith, h))
  post_exiting-IsArmed c s (x ∷ xs, q) h = ground (arith, h)

  exit_on-IsArmed : (c : Bool) (s : Ingest) → IsArmed s → IsArmed (exit_on o c s)
  unfolding exit_on
  exit_on-IsArmed c s h =
      if_cases (λ (u : Ingest). IsArmed u) (has_none s.queue) (λ none_left. end_exit-IsArmed c s h)
        (λ some_left.
          post_exiting-IsArmed c s (take_batch o true s.queue) (ground (arith, some_left, h)))

  flush_on_exit-IsArmed : (c : Bool) (s : Ingest) → IsArmed s → IsArmed (flush_on_exit o c s)
  unfolding flush_on_exit
  flush_on_exit-IsArmed c s h =
      if_both (λ (u : Ingest). IsArmed u) (has_none s.queue) (end_exit-IsArmed c s h)
        (if_both (λ (u : Ingest). IsArmed u) (is_idle s.flushing) (exit_on-IsArmed c s h) h)

  close-IsArmed : (s : Ingest) → IsArmed s → IsArmed (close o s)
  unfolding close clear_timers
  close-IsArmed s h =
      if_both (λ (u : Ingest). IsArmed u) (s.closed || s.closing) h
        (flush_on_exit-IsArmed true _ refl)

  -- Even with no flush.
  abbrev IsTimed : Ingest → Type 0
  IsTimed s =
      (not s.accepting || (has_none s.queue || (s.interval_timer || is_some s.retry_timer))) ≡ true

  schedule_retry-IsTimed : (s : Ingest) → IsTimed (schedule_retry o s)
  unfolding schedule_retry
  schedule_retry-IsTimed s = ground arith

  rest-IsArmed :
      (r : Ingest) (xs : List Leaving)
      → IsTimed r
      → IsArmed (record r { flushing = idle; exits = xs })
  rest-IsArmed r xs h = ground (arith, h)

  settle-IsArmed : (failed : Bool) (s : Ingest) → IsArmed (settle o failed s)
  unfolding settle
  settle-IsArmed true s =
      let retried = if s.accepting then schedule_retry o s else s in
      rest-IsArmed retried (awake_all retried.exits) (
        if_cases (λ (r : Ingest). IsTimed r) s.accepting (λ yes_it_is. schedule_retry-IsTimed s)
          (λ refused. ground (arith, refused)))
  settle-IsArmed false s =
      if_cases (λ (u : Ingest). IsArmed u) (not (has_none s.queue) && s.accepting)
        (λ waits.
          schedule_interval-IsArmed (record s { flushing = idle; exits = awake_all s.exits }))
        (λ rests. ground (arith, rests))

  after_sent-IsArmed :
      (f : Flushing) (s : Ingest) {t : Ingest} → after_sent o f s ≡ some t → IsArmed t
  unfolding after_sent
  after_sent-IsArmed idle s k = cc
  after_sent-IsArmed (posting b) s k = of_some IsArmed k (drain_on-IsArmed _)
  after_sent-IsArmed (settling failed) s k = cc

  after_failed-IsArmed :
      (f : Flushing) (s : Ingest) {t : Ingest} → after_failed f s ≡ some t → IsArmed t
  unfolding after_failed
  after_failed-IsArmed idle s k = cc
  after_failed-IsArmed (posting b) s k = of_some IsArmed k (ground arith)
  after_failed-IsArmed (settling failed) s k = cc

  after_settled-IsArmed :
      (f : Flushing) (s : Ingest) {t : Ingest} → after_settled o f s ≡ some t → IsArmed t
  unfolding after_settled
  after_settled-IsArmed idle s k = cc
  after_settled-IsArmed (posting b) s k = cc
  after_settled-IsArmed (settling failed) s k = of_some IsArmed k (settle-IsArmed failed s)

  resume_exit-IsArmed :
      (c : Bool) (e : Exit) (s : Ingest) {t : Ingest}
      → IsArmed s
      → resume_exit o c e s ≡ some t
      → IsArmed t
  unfolding resume_exit
  resume_exit-IsArmed c awaiting s h k = cc
  resume_exit-IsArmed c resuming s h k = of_some IsArmed k (exit_on-IsArmed c s h)
  resume_exit-IsArmed c (exiting b) s h k = cc

  sent_exit-IsArmed :
      (c : Bool) (e : Exit) (s : Ingest) {t : Ingest}
      → IsArmed s
      → sent_exit o c e s ≡ some t
      → IsArmed t
  unfolding sent_exit succeed_post
  sent_exit-IsArmed c awaiting s h k = cc
  sent_exit-IsArmed c resuming s h k = cc
  sent_exit-IsArmed c (exiting b) s h k = of_some IsArmed k (exit_on-IsArmed c _ h)

  on_exit-IsArmed :
      (f : Bool → Exit → Ingest → Option Ingest) (p : Option (Leaving × List Leaving)) (s : Ingest)
      {t : Ingest}
      → ((c : Bool) (e : Exit) (u v : Ingest) → IsArmed u → f c e u ≡ some v → IsArmed v)
      → IsArmed s
      → on_exit f p s ≡ some t
      → IsArmed t
  on_exit-IsArmed f none s keeps h k = cc
  on_exit-IsArmed f (some (x, others)) s {t} keeps h k =
      keeps x.by_close x.exit (record s { exits = others }) t h k

  step-IsArmed :
      (e : Event) (s : Ingest) {t : Ingest}
      → is_exit_failed e ≡ false
      → IsArmed s
      → step o e s ≡ some t
      → IsArmed t
  unfolding step
  step-IsArmed (written b) s f h k = of_some IsArmed k (write-IsArmed b s h)
  step-IsArmed flush_called s f h k = of_some IsArmed k (flush-IsArmed s)
  step-IsArmed exit_called s f h k = of_some IsArmed k (flush_on_exit-IsArmed false s h)
  step-IsArmed close_called s f h k = of_some IsArmed k (close-IsArmed s h)
  step-IsArmed interval_fired s f h k =
      of_some IsArmed (some_of_if s.interval_timer k) (flush-IsArmed _)
  step-IsArmed retry_fired s f h k =
      of_some IsArmed (some_of_if (is_some s.retry_timer) k) (flush-IsArmed _)
  step-IsArmed drain_sent s f h k = after_sent-IsArmed s.flushing s k
  step-IsArmed drain_failed s f h k = after_failed-IsArmed s.flushing s k
  step-IsArmed settled s f h k = after_settled-IsArmed s.flushing s k
  step-IsArmed (exit_resumed i) s {t} f h k =
      on_exit-IsArmed (resume_exit o) (pick i s.exits) s {t = t}
        (λ c e u v. resume_exit-IsArmed c e u {t = v}) h k
  step-IsArmed (exit_sent i) s {t} f h k =
      on_exit-IsArmed (sent_exit o) (pick i s.exits) s {t = t}
        (λ c e u v. sent_exit-IsArmed c e u {t = v}) h k
  step-IsArmed (exit_failed i) s f h k = cc

  run-IsArmed_from :
      (es : List Event) (s : Ingest) {t : Ingest}
      → any_exit_failed es ≡ false
      → IsArmed s
      → run o es s ≡ some t
      → IsArmed t
  unfolding run
  run-IsArmed_from [] s f h k = of_some IsArmed k h
  run-IsArmed_from (e ∷ es) s {t} f h k = elim (Option-cases (step o e s)) [
    | inl stuck ↦ absurd (ground (arith, stuck))
    | inr (u, go) ↦
        run-IsArmed_from es u {t = t} (ground (arith, f))
          (step-IsArmed e s (ground (arith, f)) h go) (rw (go, run) at k)
  ]

-- On every schedule from a new transport in which no post of `flushOnExit` fails, the transport
-- does not accept records any more, or its queue is empty, or a flush runs or a timer is armed
-- that will start one.
pub run-is_driven :
    (o : Options) (es : List Event) (s : Ingest)
    → any_exit_failed es ≡ false
    → run o es fresh ≡ some s
    → (not s.accepting || (has_none s.queue || is_driven s)) ≡ true
run-is_driven o es s f h = run-IsArmed_from o es fresh {t = s} f refl h
