-- ===== src/CursorQueue.antt =====
-- `CursorQueue` of src/browser-stream.ts: a queue in an array with a head cursor. A slot is
-- `none` once it holds `undefined`; what the class promises is in CursorQueue/Refinement.
pub mod Refinement
pub mod Tests
use next_loggers_ts.Prelude.{
  ℕ, zero, suc, ◌+◌, ◌-◌, ◌*◌, ◌/◌, min, List, [], ◌∷◌, ◌++◌, Bool, true, false, ◌&&◌, Option, none,
  some, length, take, drop, set, ltb, leb, if◌then◌else◌,
}

pub record Queue {ℓ} (A : Type ℓ) : Type ℓ where
  pub items : List (Option A)
  pub head : ℕ

module _ {ℓ} {A : Type ℓ} where
  unfoldable pub empty : Queue A
  empty = record { items = []; head = 0 }

  abbrev pub size : Queue A → ℕ
  size q = length q.items - q.head

  unfoldable pub push : A → Queue A → Queue A
  push a q = record q { items = q.items ++ some a ∷ [] }

  -- `items.slice(head, head + count)`.
  unfoldable pub peek : ℕ → Queue A → List (Option A)
  peek count q = take count (drop q.head q.items)

  -- The loop that sets the slots from `index` on to `undefined`, with its number of rounds.
  unfoldable pub blank : ℕ → ℕ → List (Option A) → List (Option A)
  blank zero index items = items
  blank (suc rounds) index items = blank rounds (index + 1) (set items index none)

  unfoldable pub compact : Queue A → Queue A
  compact q =
      if ltb 512 q.head && ltb (length q.items) (2 * q.head)
      then record { items = drop q.head q.items; head = 0 }
      else q

  unfoldable pub drain : ℕ → Queue A → Queue A
  drain count q =
      let next = min (q.head + count) (length q.items) in
      compact (record { items = blank (next - q.head) q.head q.items; head = next })

  -- The queue, and the number of items dropped.
  unfoldable pub trim_to_last : ℕ → Queue A → Queue A × ℕ
  trim_to_last max q = if leb (size q) max then (q, 0) else (drain (size q - max) q, size q - max)

  unfoldable pub to_array : Queue A → List (Option A)
  to_array q = drop q.head q.items

  unfoldable pub clear : Queue A → Queue A
  clear q = record { items = []; head = 0 }
