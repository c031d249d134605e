-- ===== src/SupabaseIngest/Batches.antt =====
-- `takeBatch` of src/supabase-ingest.ts: what a batch holds and what it leaves in the queue.
use next_loggers_ts.Prelude.{
  ℕ, zero, suc, ◌+◌, ◌≤◌, ◌≡◌, refl, ap, ◌∙◌, max, List, [], ◌∷◌, ◌++◌, Bool, true, false, not,
  ◌&&◌, Option, none, some, length, ltb, if◌then◌else◌, if_both, if_cases, arith,
}
use next_loggers_ts.SupabaseIngest.Queue.{
  CursorQueue, items, shift, IsWithin, first, rest, first-shift, items-shift, shift-IsWithin,
  items-prepend, prepend-IsWithin,
}
use next_loggers_ts.SupabaseIngest.{Options, Queued, place, take_each, take_batch, budget}

abbrev pub Batch : Type 0
Batch = List Queued × CursorQueue Queued

-- The batch, and behind it what is left.
abbrev pub contents : Batch → List Queued
contents (batch, q) = batch ++ items q

place-items :
    (once : Bool) (maximum bytes : ℕ) (more : ℕ → CursorQueue Queued → Batch)
    (p : Option Queued × CursorQueue Queued) (xs : List Queued)
    → p.0 ≡ first xs
    → items p.1 ≡ rest xs
    → ((b : ℕ) (q : CursorQueue Queued) → contents (more b q) ≡ items q)
    → contents (place once maximum bytes more p) ≡ xs
place-items once maximum bytes more (none, q) [] h k m = k
place-items once maximum bytes more (none, q) (x ∷ xs) h k m = cc
place-items once maximum bytes more (some item, q) [] h k m = cc
place-items once maximum bytes more (some item, q) (x ∷ xs) h k m =
    let same : item ≡ x = cc in
    if_both (λ (b : Batch). contents b ≡ x ∷ xs)
      (not once && ltb maximum (bytes + (item.bytes + 1)))
      (items-prepend (item ∷ []) q ∙ ap (λ t. item ∷ t) k ∙ ap (λ (i : Queued). i ∷ xs) same)
      (ap (λ t. item ∷ t) (m (bytes + (item.bytes + 1)) q ∙ k) ∙ ap (λ (i : Queued). i ∷ xs) same)

pub contents-take_each :
    (room maximum : ℕ) (once : Bool) (bytes : ℕ) (q : CursorQueue Queued)
    → contents (take_each room maximum once bytes q) ≡ items q
unfolding take_each
contents-take_each zero maximum once bytes q = refl
contents-take_each (suc room) maximum once bytes q =
    place-items once maximum bytes (take_each room maximum false) (shift q) (items q)
      (first-shift q) (items-shift q) (λ b p. contents-take_each room maximum false b p)

place-IsWithin :
    (once : Bool) (maximum bytes : ℕ) (more : ℕ → CursorQueue Queued → Batch)
    (p : Option Queued × CursorQueue Queued)
    → IsWithin p.1
    → ((b : ℕ) (q : CursorQueue Queued) → IsWithin q → IsWithin (more b q).1)
    → IsWithin (place once maximum bytes more p).1
place-IsWithin once maximum bytes more (none, q) h m = h
place-IsWithin once maximum bytes more (some item, q) h m =
    if_both (λ (b : Batch). IsWithin b.1) (not once && ltb maximum (bytes + (item.bytes + 1)))
      (prepend-IsWithin (item ∷ []) q h) (m _ q h)

pub take_each-IsWithin :
    (room maximum : ℕ) (once : Bool) (bytes : ℕ) (q : CursorQueue Queued)
    → IsWithin q
    → IsWithin (take_each room maximum once bytes q).1
unfolding take_each
take_each-IsWithin zero maximum once bytes q h = h
take_each-IsWithin (suc room) maximum once bytes q h =
    place-IsWithin once maximum bytes (take_each room maximum false) (shift q) (shift-IsWithin q h)
      (λ b p k. take_each-IsWithin room maximum false b p k)

-- The bytes of a batch, with a comma for each record.
abbrev pub weight : List Queued → ℕ
weight [] = 0
weight (x ∷ xs) = x.bytes + 1 + weight xs

place-length :
    (once : Bool) (maximum bytes room : ℕ) (more : ℕ → CursorQueue Queued → Batch)
    (p : Option Queued × CursorQueue Queued)
    → ((b : ℕ) (q : CursorQueue Queued) → length (more b q).0 ≤ room)
    → length (place once maximum bytes more p).0 ≤ suc room
place-length once maximum bytes room more (none, q) m = omega arith
place-length once maximum bytes room more (some item, q) m =
    if_both (λ (b : Batch). length b.0 ≤ suc room)
      (not once && ltb maximum (bytes + (item.bytes + 1))) (omega arith)
      (omega (arith, m (bytes + (item.bytes + 1)) q))

pub length-take_each :
    (room maximum : ℕ) (once : Bool) (bytes : ℕ) (q : CursorQueue Queued)
    → length (take_each room maximum once bytes q).0 ≤ room
unfolding take_each
length-take_each zero maximum once bytes q = omega arith
length-take_each (suc room) maximum once bytes q =
    place-length once maximum bytes room (take_each room maximum false) (shift q)
      (λ b p. length-take_each room maximum false b p)

-- Behind the first record the budget is kept.
place-weight_rest :
    (maximum bytes : ℕ) (more : ℕ → CursorQueue Queued → Batch)
    (p : Option Queued × CursorQueue Queued)
    → ((b : ℕ) (q : CursorQueue Queued) → b + weight (more b q).0 ≤ max maximum b)
    → bytes + weight (place false maximum bytes more p).0 ≤ max maximum bytes
place-weight_rest maximum bytes more (none, q) m = omega arith
place-weight_rest maximum bytes more (some item, q) m =
    if_cases (λ (b : Batch). bytes + weight b.0 ≤ max maximum bytes)
      (ltb maximum (bytes + (item.bytes + 1))) (λ full. omega arith)
      (λ room. ground (arith, room, m (bytes + (item.bytes + 1)) q))

weight_rest :
    (room maximum bytes : ℕ) (q : CursorQueue Queued)
    → bytes + weight (take_each room maximum false bytes q).0 ≤ max maximum bytes
unfolding take_each
weight_rest zero maximum bytes q = omega arith
weight_rest (suc room) maximum bytes q =
    place-weight_rest maximum bytes (take_each room maximum false) (shift q)
      (λ b p. weight_rest room maximum b p)

-- Every record has at most so many bytes.
abbrev pub Small : ℕ → List Queued → Type 0
Small m [] = 0 ≤ 0
Small m (x ∷ xs) = (x.bytes ≤ m) × Small m xs

pub Small-append : (m : ℕ) (xs ys : List Queued) → Small m xs → Small m ys → Small m (xs ++ ys)
Small-append m [] ys h k = k
Small-append m (x ∷ xs) ys h k = (h.0, Small-append m xs ys h.1 k)

pub Small-left : (m : ℕ) (xs ys : List Queued) → Small m (xs ++ ys) → Small m xs
Small-left m [] ys h = omega arith
Small-left m (x ∷ xs) ys h = (h.0, Small-left m xs ys h.1)

pub Small-right : (m : ℕ) (xs ys : List Queued) → Small m (xs ++ ys) → Small m ys
Small-right m [] ys h = h
Small-right m (x ∷ xs) ys h = Small-right m xs ys h.1

-- The bytes of the first record.
abbrev pub head_bytes : List Queued → ℕ
head_bytes [] = 0
head_bytes (x ∷ xs) = x.bytes

place-weight :
    (maximum bytes : ℕ) (more : ℕ → CursorQueue Queued → Batch)
    (p : Option Queued × CursorQueue Queued)
    → ((b : ℕ) (q : CursorQueue Queued) → b + weight (more b q).0 ≤ max maximum b)
    → bytes + weight (place true maximum bytes more p).0
      ≤ max maximum (bytes + (head_bytes (place true maximum bytes more p).0 + 1))
place-weight maximum bytes more (none, q) k = omega arith
place-weight maximum bytes more (some item, q) k = omega (arith, k (bytes + (item.bytes + 1)) q)

-- The budget is kept, or by the first record alone exceeded.
pub weight-take_each :
    (room maximum bytes : ℕ) (q : CursorQueue Queued)
    → bytes + weight (take_each room maximum true bytes q).0
      ≤ max maximum (bytes + (head_bytes (take_each room maximum true bytes q).0 + 1))
unfolding take_each
weight-take_each zero maximum bytes q = omega arith
weight-take_each (suc room) maximum bytes q =
    place-weight maximum bytes (take_each room maximum false) (shift q)
      (λ b p. weight_rest room maximum b p)

module _ (o : Options) (exit : Bool) (q : CursorQueue Queued) where
  pub contents-take_batch : contents (take_batch o exit q) ≡ items q
  unfolding take_batch
  contents-take_batch = contents-take_each o.batch_size (budget o exit) true 512 q

  pub take_batch-IsWithin : IsWithin q → IsWithin (take_batch o exit q).1
  unfolding take_batch
  take_batch-IsWithin h = take_each-IsWithin o.batch_size (budget o exit) true 512 q h

  pub length-take_batch : length (take_batch o exit q).0 ≤ o.batch_size
  unfolding take_batch
  length-take_batch = length-take_each o.batch_size (budget o exit) true 512 q

  pub weight-take_batch :
      512 + weight (take_batch o exit q).0
      ≤ max
          (if exit then o.max_exit_batch_bytes else o.max_batch_bytes)
          (512 + (head_bytes (take_batch o exit q).0 + 1))
  unfolding take_batch
  weight-take_batch = weight-take_each o.batch_size (budget o exit) 512 q
