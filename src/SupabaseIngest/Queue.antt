-- ===== src/SupabaseIngest/Queue.antt =====
-- `CursorQueue` of src/supabase-ingest.ts: an array with a head cursor, and what is behind the
-- cursor as a list. The laws say what the transport relies on.
use next_loggers_ts.Prelude.{
  ℕ, zero, suc, ◌+◌, ◌-◌, ◌*◌, ◌≤◌, ◌≡◌, refl, sym, ap, ◌∙◌, List, [], ◌∷◌, ◌++◌, Bool, true, false,
  ◌&&◌, Option, none, some, length, drop, ltb, leb, if◌then◌else◌, if_both, if_cases, arith, leb→le,
  drop-append, drop-length, length-drop, drop-nil, length-append,
}

pub record CursorQueue {ℓ} (A : Type ℓ) : Type ℓ where
  pub values : List A
  pub head : ℕ

module _ {ℓ} {A : Type ℓ} where
  abbrev pub empty : CursorQueue A
  empty = record { values = []; head = 0 }

  abbrev pub size : CursorQueue A → ℕ
  size q = length q.values - q.head

  abbrev pub items : CursorQueue A → List A
  items q = drop q.head q.values

  unfoldable pub push : A → CursorQueue A → CursorQueue A
  push a q = record q { values = q.values ++ a ∷ [] }

  unfoldable pub compact : CursorQueue A → CursorQueue A
  compact q =
      if ltb 1024 q.head && ltb (length q.values) (q.head * 2)
      then record { values = drop q.head q.values; head = 0 }
      else q

  abbrev pub get_elem? : List A → ℕ → Option A
  get_elem? [] i = none
  get_elem? (x ∷ xs) zero = some x
  get_elem? (x ∷ xs) (suc i) = get_elem? xs i

  unfoldable pub shift : CursorQueue A → Option A × CursorQueue A
  shift q =
      if leb (length q.values) q.head
      then (none, q)
      else (get_elem? q.values q.head, compact (record q { head = q.head + 1 }))

  abbrev pub is_nil : List A → Bool
  is_nil [] = true
  is_nil (x ∷ xs) = false

  unfoldable pub prepend : List A → CursorQueue A → CursorQueue A
  prepend xs q = if is_nil xs then q else record { values = xs ++ drop q.head q.values; head = 0 }

  -- The cursor is within the array.
  abbrev pub IsWithin : CursorQueue A → Type 0
  IsWithin q = q.head ≤ length q.values

  abbrev pub first : List A → Option A
  first [] = none
  first (x ∷ xs) = some x

  abbrev pub rest : List A → List A
  rest [] = []
  rest (x ∷ xs) = xs

  pub size-items : (q : CursorQueue A) → size q ≡ length (items q)
  size-items q = sym (length-drop q.head q.values)

  pub items-push : (a : A) (q : CursorQueue A) → IsWithin q → items (push a q) ≡ items q ++ a ∷ []
  unfolding push
  items-push a q h = drop-append q.head q.values (a ∷ []) h

  pub push-IsWithin : (a : A) (q : CursorQueue A) → IsWithin q → IsWithin (push a q)
  unfolding push
  push-IsWithin a q h = omega (arith, length-append q.values (a ∷ []))

  items-compact : (q : CursorQueue A) → items (compact q) ≡ items q
  unfolding compact
  items-compact q =
      if_both (λ (p : CursorQueue A). items p ≡ items q)
        (ltb 1024 q.head && ltb (length q.values) (q.head * 2)) refl refl

  compact-IsWithin : (q : CursorQueue A) → IsWithin q → IsWithin (compact q)
  unfolding compact
  compact-IsWithin q h =
      if_both IsWithin (ltb 1024 q.head && ltb (length q.values) (q.head * 2)) (omega arith) h

  first-drop : (n : ℕ) (xs : List A) → first (drop n xs) ≡ get_elem? xs n
  first-drop zero [] = refl
  first-drop zero (x ∷ xs) = refl
  first-drop (suc n) [] = refl
  first-drop (suc n) (x ∷ xs) = first-drop n xs

  rest-drop : (n : ℕ) (xs : List A) → rest (drop n xs) ≡ drop (n + 1) xs
  rest-drop zero [] = refl
  rest-drop zero (x ∷ xs) = refl
  rest-drop (suc n) [] = sym (drop-nil (suc n + 1))
  rest-drop (suc n) (x ∷ xs) =
      rest-drop n xs ∙ ap (λ k. drop k (x ∷ xs)) {x = suc (n + 1)} {y = suc n + 1} (omega arith)

  pub first-shift : (q : CursorQueue A) → (shift q).0 ≡ first (items q)
  unfolding shift
  first-shift q =
      if_cases (λ (p : Option A × CursorQueue A). p.0 ≡ first (items q))
        (leb (length q.values) q.head)
        (λ over. ap first (sym (drop-length q.head q.values (leb→le _ _ over))))
        (λ under. sym (first-drop q.head q.values))

  pub items-shift : (q : CursorQueue A) → items (shift q).1 ≡ rest (items q)
  unfolding shift
  items-shift q =
      if_cases (λ (p : Option A × CursorQueue A). items p.1 ≡ rest (items q))
        (leb (length q.values) q.head)
        (λ over.
          drop-length q.head q.values (leb→le _ _ over)
          ∙ ap rest (sym (drop-length q.head q.values (leb→le _ _ over))))
        (λ under. items-compact _ ∙ sym (rest-drop q.head q.values))

  pub shift-IsWithin : (q : CursorQueue A) → IsWithin q → IsWithin (shift q).1
  unfolding shift
  shift-IsWithin q h =
      if_cases (λ (p : Option A × CursorQueue A). IsWithin p.1) (leb (length q.values) q.head)
        (λ over. h) (λ under. compact-IsWithin _ (ground (arith, under)))

  pub items-prepend : (xs : List A) (q : CursorQueue A) → items (prepend xs q) ≡ xs ++ items q
  unfolding prepend
  items-prepend [] q = refl
  items-prepend (x ∷ xs) q = refl

  pub prepend-IsWithin : (xs : List A) (q : CursorQueue A) → IsWithin q → IsWithin (prepend xs q)
  unfolding prepend
  prepend-IsWithin [] q h = h
  prepend-IsWithin (x ∷ xs) q h = omega arith
