-- ===== src/CursorQueue/Refinement.antt =====
-- The cursor queue of src/browser-stream.ts is a first-in first-out list: each operation, seen
-- through `contents`, is the list operation.
use mathlib.Core.List.{map-append}
use next_loggers_ts.Prelude.{
  ◌&&◌, drop-min-length, ℕ, zero, suc, ◌+◌, ◌-◌, ◌*◌, ◌≤◌, min, ◌≡◌, refl, sym, ap, ◌∙◌, inl, inr,
  List, [], ◌∷◌, ◌++◌, Option, none, some, length, take, drop, set, ltb, leb, arith, length-set,
  drop-set, drop-append, drop-drop, length-drop, length-append, length-take, map, drop-map,
  take-map, length-map, Bool-cases, leb→le,
}
use next_loggers_ts.CursorQueue.{
  Queue, empty, size, push, peek, blank, compact, drain, trim_to_last, to_array, clear,
}

-- The calls that a client makes.
pub data Op {ℓ} (A : Type ℓ) : Type ℓ where
  pushed : A → Op A
  drained trimmed : ℕ → Op A
  cleared : Op A

module _ {ℓ} {A : Type ℓ} where
  -- The items between the cursor and the end.
  abbrev pub contents : Queue A → List (Option A)
  contents q = drop q.head q.items

  -- The queue holds the list: the cursor has not passed the end, and the slots from the cursor on
  -- hold the values of the list in order.
  pub record Holds (q : Queue A) (xs : List A) : Type ℓ where
    pub in_range : q.head ≤ length q.items
    pub values : contents q ≡ map some xs

  pub empty-Holds : Holds empty []
  unfolding empty
  empty-Holds = record { in_range = omega arith; values = refl }

  pub size-Holds : (q : Queue A) (xs : List A) → Holds q xs → size q ≡ length xs
  size-Holds q xs h = sym (length-drop q.head q.items) ∙ ap length h.values ∙ length-map some xs

  pub push-Holds :
      (a : A) (q : Queue A) (xs : List A) → Holds q xs → Holds (push a q) (xs ++ a ∷ [])
  unfolding push
  push-Holds a q xs h = record {
    in_range = omega (arith, h.in_range, length-append q.items (some a ∷ []));
    values =
        drop-append q.head q.items (some a ∷ []) h.in_range
        ∙ ap (λ l. l ++ some a ∷ []) h.values
        ∙ sym (map-append some xs (a ∷ []));
  }

  pub peek-Holds :
      (n : ℕ) (q : Queue A) (xs : List A) → Holds q xs → peek n q ≡ map some (take n xs)
  unfolding peek
  peek-Holds n q xs h = ap (take n) h.values ∙ take-map some n xs

  pub to_array-Holds : (q : Queue A) (xs : List A) → Holds q xs → to_array q ≡ map some xs
  unfolding to_array
  to_array-Holds q xs h = h.values

  pub clear-Holds : (q : Queue A) → Holds (clear q) []
  unfolding clear
  clear-Holds q = record { in_range = omega arith; values = refl }

  length-blank :
      (rounds index : ℕ) (items : List (Option A))
      → length (blank rounds index items) ≡ length items
  unfolding blank
  length-blank zero index items = refl
  length-blank (suc r) index items =
      length-blank r (index + 1) (set items index none) ∙ length-set items index none

  drop-blank :
      (rounds index n : ℕ) (items : List (Option A))
      → index + rounds ≤ n
      → drop n (blank rounds index items) ≡ drop n items
  unfolding blank
  drop-blank zero index n items h = refl
  drop-blank (suc r) index n items h =
      drop-blank r (index + 1) n (set items index none) (omega arith)
      ∙ drop-set n index items none (omega arith)

  compact-Holds : (q : Queue A) (xs : List A) → Holds q xs → Holds (compact q) xs
  unfolding compact
  compact-Holds q xs h = elim (Bool-cases (ltb 512 q.head && ltb (length q.items) (2 * q.head))) [
    | inl reclaim ↦ rw reclaim (record { in_range = omega arith; values = h.values })
    | inr keep ↦ rw keep h
  ]

  pub drain-Holds : (n : ℕ) (q : Queue A) (xs : List A) → Holds q xs → Holds (drain n q) (drop n xs)
  unfolding drain
  drain-Holds n q xs h =
      let next = min (q.head + n) (length q.items) in
      compact-Holds _ (drop n xs) (record {
        in_range = omega (arith, length-blank (next - q.head) q.head q.items);
        values =
            drop-blank (next - q.head) q.head next q.items (omega (arith, h.in_range))
            ∙ drop-min-length (q.head + n) q.items
            ∙ sym (drop-drop q.head n q.items)
            ∙ ap (drop n) h.values
            ∙ drop-map some n xs;
      })

  pub trim-Holds :
      (max : ℕ) (q : Queue A) (xs : List A)
      → Holds q xs
      → Holds (trim_to_last max q).0 (drop (length xs - max) xs)
        × ((trim_to_last max q).1 ≡ length xs - max)
  unfolding trim_to_last
  trim-Holds max q xs h = elim (Bool-cases (leb (size q) max)) [
    | inl fits ↦
        let e : length xs - max ≡ 0 = omega (arith, leb→le _ _ fits, size-Holds q xs h) in
        rw (fits, e) (h, refl)
    | inr over ↦ rw (over, size-Holds q xs h) (drain-Holds (length xs - max) q xs h, refl)
  ]

  -- One call, on the queue and on the list, with the number of items that a trim reports.
  abbrev pub call : Op A → Queue A → Queue A × ℕ
  call (pushed a) q = (push a q, 0)
  call (drained n) q = (drain n q, 0)
  call (trimmed max) q = trim_to_last max q
  call cleared q = (clear q, 0)

  abbrev pub list_call : Op A → List A → List A × ℕ
  list_call (pushed a) xs = (xs ++ a ∷ [], 0)
  list_call (drained n) xs = (drop n xs, 0)
  list_call (trimmed max) xs = (drop (length xs - max) xs, length xs - max)
  list_call cleared xs = ([], 0)

  -- The calls in order, with the sum of what the trims report.
  unfoldable pub calls : List (Op A) → Queue A → ℕ → Queue A × ℕ
  calls [] q n = (q, n)
  calls (c ∷ cs) q n = let (q', k) = call c q in calls cs q' (n + k)

  unfoldable pub list_calls : List (Op A) → List A → ℕ → List A × ℕ
  list_calls [] xs n = (xs, n)
  list_calls (c ∷ cs) xs n = let (xs', k) = list_call c xs in list_calls cs xs' (n + k)

  call-Holds :
      (c : Op A) (q : Queue A) (xs : List A)
      → Holds q xs
      → Holds (call c q).0 (list_call c xs).0 × ((call c q).1 ≡ (list_call c xs).1)
  call-Holds (pushed a) q xs h = (push-Holds a q xs h, refl)
  call-Holds (drained n) q xs h = (drain-Holds n q xs h, refl)
  call-Holds (trimmed max) q xs h = trim-Holds max q xs h
  call-Holds cleared q xs h = (clear-Holds q, refl)

  calls-Holds :
      (cs : List (Op A)) (q : Queue A) (xs : List A) (n : ℕ)
      → Holds q xs
      → Holds (calls cs q n).0 (list_calls cs xs n).0 × ((calls cs q n).1 ≡ (list_calls cs xs n).1)
  unfolding calls list_calls
  calls-Holds [] q xs n h = (h, refl)
  calls-Holds (c ∷ cs) q xs n h =
      let step = call-Holds c q xs h in
      rw (step.1, calls)
        (calls-Holds cs (call c q).0 (list_call c xs).0 (n + (list_call c xs).1) step.0)

  -- After any sequence of calls on an empty queue, the queue's length, its array copy, a peek of
  -- any length and the total that its trims reported are those of the first-in first-out list on
  -- which the same calls are list operations.
  pub calls-refines :
      (cs : List (Op A)) (n : ℕ)
      → let q = (calls cs empty 0).0 in
        let xs = (list_calls cs [] 0).0 in
        (size q ≡ length xs)
        × (to_array q ≡ map some xs)
        × (peek n q ≡ map some (take n xs))
        × ((calls cs empty 0).1 ≡ (list_calls cs [] 0).1)
  calls-refines cs n =
      let (h, e) = calls-Holds cs empty [] 0 empty-Holds in
      (size-Holds _ _ h, to_array-Holds _ _ h, peek-Holds n _ _ h, e)

  compact-bounded :
      (q : Queue A) → q.head ≤ length q.items → (compact q).head ≤ 512 + size (compact q)
  unfolding compact
  compact-bounded q v = ground arith

  -- Draining a queue whose cursor is in range leaves at most 512 more dead slots than live ones
  -- in the array, whatever the number drained.
  drain-bounded :
      (n : ℕ) (q : Queue A) → q.head ≤ length q.items → (drain n q).head ≤ 512 + size (drain n q)
  unfolding drain
  drain-bounded n q v =
      compact-bounded _
        (omega (arith, length-blank (min (q.head + n) (length q.items) - q.head) q.head q.items))

  size-compact : (q : Queue A) → size (compact q) ≡ size q
  unfolding compact
  size-compact q = ground (arith, length-drop q.head q.items)

  -- These hold of every queue, whatever its slots and wherever its cursor.
  pub size-drain : (n : ℕ) (q : Queue A) → size (drain n q) ≡ size q - n
  unfolding drain
  size-drain n q =
      size-compact _
      ∙ omega (arith, length-blank (min (q.head + n) (length q.items) - q.head) q.head q.items)

  pub size-trim : (max : ℕ) (q : Queue A) → size (trim_to_last max q).0 ≤ max
  unfolding trim_to_last
  size-trim max q = ground (arith, size-drain (size q - max) q)

  pub size-clear : (q : Queue A) → size (clear q) ≡ 0
  unfolding clear
  size-clear q = omega arith

  pub length-peek : (n : ℕ) (q : Queue A) → length (peek n q) ≡ min n (size q)
  unfolding peek
  length-peek n q = omega (arith, length-take n (drop q.head q.items), length-drop q.head q.items)
