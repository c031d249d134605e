-- ===== src/SupabaseIngest/Invariant.antt =====
-- Where the records of the transport of src/supabase-ingest.ts are, and what it posts: an
-- invariant of its operations, for one number `n` of a record.
pub mod Exits
pub mod Runs
pub mod Requests
use next_loggers_ts.Prelude.{
  ℕ, zero, suc, ◌+◌, ◌-◌, ◌≤◌, ◌<◌, ◌≡◌, refl, sym, ap, ◌∙◌, max, min, List, [], ◌∷◌, ◌++◌, Bool,
  true, false, not, ◌&&◌, ◌||◌, ◌==◌, Option, none, some, is_some, length, length-append,
  append_assoc, leb, ltb, if◌then◌else◌, if_both, if_cases, arith,
}
use next_loggers_ts.SupabaseIngest.Queue.{
  CursorQueue, size, items, push, shift, prepend, is_nil, IsWithin, first, rest, first-shift,
  items-shift, shift-IsWithin, items-push, push-IsWithin, items-prepend, prepend-IsWithin,
}
use next_loggers_ts.SupabaseIngest.{
  Options, Queued, Flushing, idle, posting, settling, Exit, awaiting, resuming, exiting, Leaving,
  Ingest, has_none, is_idle, take_batch, budget, drop_record, drop_oldest, make_room, push_record,
  enqueue, schedule_interval, schedule_retry, clear_timers, post_drained, drain_on, flush, leave,
  end_exit, post_exiting, exit_on, flush_on_exit, close,
}
use next_loggers_ts.SupabaseIngest.Batches.{
  Batch, contents, weight, head_bytes, Small, Small-append, Small-left, Small-right,
  contents-take_batch, take_batch-IsWithin, length-take_batch, weight-take_batch,
}

abbrev pub tally : ℕ → List Queued → ℕ
tally n [] = 0
tally n (x ∷ xs) = (if x.number == n then 1 else 0) + tally n xs

pub tally-append : (n : ℕ) (xs ys : List Queued) → tally n (xs ++ ys) ≡ tally n xs + tally n ys
tally-append n [] ys = omega arith
tally-append n (x ∷ xs) ys = omega (arith, tally-append n xs ys)

abbrev pub in_flight : Flushing → List Queued
in_flight idle = []
in_flight (posting batch) = batch
in_flight (settling failed) = []

abbrev pub in_exit : Exit → List Queued
in_exit awaiting = []
in_exit resuming = []
in_exit (exiting batch) = batch

abbrev pub in_exits : List Leaving → List Queued
in_exits [] = []
in_exits (x ∷ xs) = in_exit x.exit ++ in_exits xs

pub in_exits-append : (xs ys : List Leaving) → in_exits (xs ++ ys) ≡ in_exits xs ++ in_exits ys
in_exits-append [] ys = refl
in_exits-append (x ∷ xs) ys = simp (in_exits-append xs ys, append_assoc)

module _ (o : Options) where
  -- One batch is within the limits of its kind.
  abbrev pub Fits : Bool → List Queued → Type 0
  Fits exit batch =
      (1 ≤ length batch)
      × (length batch ≤ o.batch_size)
      × Small o.max_record_bytes batch
      × (512 + weight batch
          ≤ max (if exit then o.max_exit_batch_bytes else o.max_batch_bytes)
              (512 + (head_bytes batch + 1)))

  abbrev pub AllFit : List (Bool × List Queued) → Type 0
  AllFit [] = 0 ≤ 0
  AllFit ((exit, batch) ∷ posts) = Fits exit batch × AllFit posts

  AllFit-append :
      (posts : List (Bool × List Queued)) (exit : Bool) (batch : List Queued)
      → AllFit posts
      → Fits exit batch
      → AllFit (posts ++ (exit, batch) ∷ [])
  AllFit-append [] exit batch h k = (k, omega arith)
  AllFit-append ((e, b) ∷ posts) exit batch h k = (h.0, AllFit-append posts exit batch h.1 k)

  module _ (n : ℕ) where
    -- The records `owed` are in hand: they have left one place and have not come to another.
    pub record Inv (owed : List Queued) (s : Ingest) : Type 0 where
      pub facts :
          IsWithin s.queue
          × Small o.max_record_bytes (items s.queue)
          × Small o.max_record_bytes (in_flight s.flushing)
          × Small o.max_record_bytes (in_exits s.exits)
          × AllFit s.posts
          × (tally n (items s.queue)
                + (tally n (in_flight s.flushing)
                    + (tally n (in_exits s.exits)
                        + (tally n s.sent + (tally n s.lost + tally n owed))))
              ≡ (if ltb n s.writes then 1 else 0))
          × (s.dropped ≡ length s.lost)

    drop_record-Inv :
        (x : Queued) (ys : List Queued) (s : Ingest) → Inv (x ∷ ys) s → Inv ys (drop_record x s)
    unfolding drop_record
    drop_record-Inv x ys s h =
        let f = h.facts in
        record {
          facts = (
            f.0,
            f.1,
            f.2,
            f.3,
            f.4,
            omega (arith, f.5, tally-append n s.lost (x ∷ [])),
            omega (arith, f.6, length-append s.lost (x ∷ [])),
          );
        }

    push_record-Inv :
        (x : Queued) (s : Ingest)
        → x.bytes ≤ o.max_record_bytes
        → Inv (x ∷ []) s
        → Inv [] (push_record x s)
    push_record-Inv x s small h =
        let f = h.facts in
        let shape = items-push x s.queue f.0 in
        record {
          facts = (
            push-IsWithin x s.queue f.0,
            rw shape
                (Small-append o.max_record_bytes (items s.queue) (x ∷ []) f.1 (small, omega arith)),
            f.2,
            f.3,
            f.4,
            omega (arith, f.5, ap (tally n) shape, tally-append n (items s.queue) (x ∷ [])),
            f.6,
          );
        }

    -- Records leave the queue at its front.
    pub requeue-Inv :
        (q : CursorQueue Queued) (xs ys : List Queued) (s : Ingest)
        → items s.queue ≡ xs ++ items q
        → IsWithin q
        → Inv ys s
        → Inv (xs ++ ys) (record s { queue = q })
    requeue-Inv q xs ys s e w h =
        let f = h.facts in
        record {
          facts = (
            w,
            Small-right o.max_record_bytes xs (items q) (rw e at f.1),
            f.2,
            f.3,
            f.4,
            omega (arith, f.5, ap (tally n) e, tally-append n xs (items q), tally-append n xs ys),
            f.6,
          );
        }

    drop_oldest-Inv :
        (p : Option Queued × CursorQueue Queued) (xs ys : List Queued) (s : Ingest)
        → p.0 ≡ first xs
        → items p.1 ≡ rest xs
        → IsWithin p.1
        → items s.queue ≡ xs
        → Inv ys s
        → Inv ys (drop_oldest p s)
    drop_oldest-Inv (none, q) [] ys s a b w e h = requeue-Inv q [] ys s (e ∙ sym b) w h
    drop_oldest-Inv (none, q) (x ∷ xs) ys s a b w e h = cc
    drop_oldest-Inv (some item, q) [] ys s a b w e h = cc
    drop_oldest-Inv (some item, q) (x ∷ xs) ys s a b w e h =
        let same : x ≡ item = cc in
        drop_record-Inv item ys _ (
          requeue-Inv q (item ∷ []) ys s
            (e ∙ ap (λ (i : Queued). i ∷ xs) same ∙ ap (λ t. item ∷ t) (sym b)) w h)

    make_room-Inv : (ys : List Queued) (s : Ingest) → Inv ys s → Inv ys (make_room o s)
    unfolding make_room
    make_room-Inv ys s h =
        if_both (Inv ys) (leb o.max_queue_size (size s.queue))
          (drop_oldest-Inv (shift s.queue) (items s.queue) ys s (first-shift s.queue)
            (items-shift s.queue) (shift-IsWithin s.queue h.facts.0) refl h)
          h

    pub enqueue-Inv : (x : Queued) (s : Ingest) → Inv (x ∷ []) s → Inv [] (enqueue o x s).0
    unfolding enqueue
    enqueue-Inv x s h =
        if_both (λ (p : Ingest × Bool). Inv [] p.0) (not s.accepting) (drop_record-Inv x [] s h)
          (if_cases (λ (p : Ingest × Bool). Inv [] p.0) (ltb o.max_record_bytes x.bytes)
            (λ large. drop_record-Inv x [] s h)
            (λ small. push_record-Inv x _ (ground (arith, small)) (make_room-Inv (x ∷ []) s h)))

    pub schedule_interval-Inv : (s : Ingest) → Inv [] s → Inv [] (schedule_interval s)
    unfolding schedule_interval
    schedule_interval-Inv s h =
        if_both (Inv [])
          (((not s.accepting || s.interval_timer) || is_some s.retry_timer) || has_none s.queue) h
          (record { facts = h.facts })

    pub schedule_retry-Inv : (s : Ingest) → Inv [] s → Inv [] (schedule_retry o s)
    unfolding schedule_retry
    schedule_retry-Inv s h =
        if_both (Inv []) ((not s.accepting || is_some s.retry_timer) || has_none s.queue) h
          (record { facts = h.facts })

    -- A batch is posted by the drain, whose flight was over.
    post_drained-Inv :
        (p : Batch) (s : Ingest)
        → contents p ≡ items s.queue
        → IsWithin p.1
        → length p.0 ≤ o.batch_size
        → 512 + weight p.0 ≤ max o.max_batch_bytes (512 + (head_bytes p.0 + 1))
        → Inv [] (record s { flushing = idle })
        → Inv [] (post_drained s p)
    post_drained-Inv ([], q) s e w l b h = record {
      facts = (requeue-Inv q [] [] _ (sym e) w h).facts;
    }
    post_drained-Inv (x ∷ xs, q) s e w l b h =
        let f = (requeue-Inv q (x ∷ xs) [] (record s { flushing = idle }) (sym e) w h).facts in
        record {
          facts = (
            f.0,
            f.1,
            Small-left o.max_record_bytes (x ∷ xs) (items q) (rw (← e) at h.facts.1),
            f.3,
            AllFit-append s.posts false (x ∷ xs) f.4 (
              omega arith,
              l,
              Small-left o.max_record_bytes (x ∷ xs) (items q) (rw (← e) at h.facts.1),
              b,
            ),
            omega (arith, f.5, tally-append n (x ∷ xs) []),
            f.6,
          );
        }

    pub drain_on-Inv : (s : Ingest) → Inv [] (record s { flushing = idle }) → Inv [] (drain_on o s)
    unfolding drain_on
    drain_on-Inv s h =
        if_both (Inv []) (has_none s.queue) (record { facts = h.facts })
          (post_drained-Inv (take_batch o false s.queue) s (contents-take_batch o false s.queue)
            (take_batch-IsWithin o false s.queue h.facts.0) (length-take_batch o false s.queue)
            (weight-take_batch o false s.queue) h)

    -- With no flight, the idle flush is as good.
    idle_Inv :
        (f : Flushing) (s : Ingest)
        → s.flushing ≡ f
        → is_idle f ≡ true
        → Inv [] s
        → Inv [] (record s { flushing = idle })
    idle_Inv idle s e i h = rw e at h
    idle_Inv (posting batch) s e i h = cc
    idle_Inv (settling failed) s e i h = cc

    pub flush-Inv : (s : Ingest) → Inv [] s → Inv [] (flush o s)
    unfolding flush clear_timers
    flush-Inv s h =
        if_cases (Inv []) (is_idle s.flushing)
          (λ free.
            drain_on-Inv (clear_timers s)
              (record { facts = (idle_Inv s.flushing s refl free h).facts }))
          (λ busy. h)

    leave-Inv :
        (c : Bool) (e : Exit) (s : Ingest)
        → Small o.max_record_bytes (in_exit e)
        → Inv (in_exit e) s
        → Inv [] (leave c e s)
    leave-Inv c e s small h =
        let f = h.facts in
        let shape = in_exits-append s.exits (record { by_close = c; exit = e } ∷ []) in
        record {
          facts = (
            f.0,
            f.1,
            f.2,
            rw shape (
                Small-append o.max_record_bytes (in_exits s.exits) _ f.3
                  (Small-append o.max_record_bytes (in_exit e) [] small (omega arith))),
            f.4,
            omega (
              arith,
              f.5,
              ap (tally n) shape,
              tally-append n (in_exits s.exits) (in_exit e ++ []),
              tally-append n (in_exit e) [],
            ),
            f.6,
          );
        }

    end_exit-Inv : (c : Bool) (s : Ingest) → Inv [] s → Inv [] (end_exit c s)
    unfolding end_exit
    end_exit-Inv c s h = if_both (Inv []) c (record { facts = h.facts }) h

    post_exiting-Inv :
        (c : Bool) (p : Batch) (s : Ingest)
        → contents p ≡ items s.queue
        → IsWithin p.1
        → length p.0 ≤ o.batch_size
        → 512 + weight p.0 ≤ max o.max_exit_batch_bytes (512 + (head_bytes p.0 + 1))
        → Inv [] s
        → Inv [] (post_exiting c s p)
    post_exiting-Inv c ([], q) s e w l b h = end_exit-Inv c _ (requeue-Inv q [] [] s (sym e) w h)
    post_exiting-Inv c (x ∷ xs, q) s e w l b h =
        let f = (requeue-Inv q (x ∷ xs) [] s (sym e) w h).facts in
        leave-Inv c (exiting (x ∷ xs)) _
          (Small-left o.max_record_bytes (x ∷ xs) (items q) (rw (← e) at h.facts.1))
          (record {
            facts = (
              f.0,
              f.1,
              f.2,
              f.3,
              AllFit-append s.posts true (x ∷ xs) f.4 (
                omega arith,
                l,
                Small-left o.max_record_bytes (x ∷ xs) (items q) (rw (← e) at h.facts.1),
                b,
              ),
              omega (arith, f.5, tally-append n (x ∷ xs) []),
              f.6,
            );
          })

    pub exit_on-Inv : (c : Bool) (s : Ingest) → Inv [] s → Inv [] (exit_on o c s)
    unfolding exit_on
    exit_on-Inv c s h = if_both (Inv []) (has_none s.queue) (end_exit-Inv c s h) (
        post_exiting-Inv c (take_batch o true s.queue) s (contents-take_batch o true s.queue)
          (take_batch-IsWithin o true s.queue h.facts.0) (length-take_batch o true s.queue)
          (weight-take_batch o true s.queue) h)

    pub flush_on_exit-Inv : (c : Bool) (s : Ingest) → Inv [] s → Inv [] (flush_on_exit o c s)
    unfolding flush_on_exit
    flush_on_exit-Inv c s h = if_both (Inv []) (has_none s.queue) (end_exit-Inv c s h) (
        if_both (Inv []) (is_idle s.flushing) (exit_on-Inv c s h)
          (leave-Inv c awaiting s (omega arith) h))

    pub close-Inv : (s : Ingest) → Inv [] s → Inv [] (close o s)
    unfolding close clear_timers
    close-Inv s h =
        if_both (Inv []) (s.closed || s.closing) h
          (flush_on_exit-Inv true _ (record { facts = h.facts }))
