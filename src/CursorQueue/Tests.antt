-- ===== src/CursorQueue/Tests.antt =====
-- The queue of src/browser-stream.ts on concrete calls.
use next_loggers_ts.Prelude.{ℕ, ◌≡◌, refl, List, [], ◌∷◌, none, some, length, take, map}
use next_loggers_ts.CursorQueue.{
  Queue, empty, size, push, peek, blank, compact, drain, trim_to_last, to_array,
}
use next_loggers_ts.CursorQueue.Refinement.{
  Op, pushed, drained, trimmed, calls, list_calls, calls-refines,
}

-- Three records, of which one is sent and one is trimmed.
abbrev script : List (Op ℕ)
script = pushed 1 ∷ pushed 2 ∷ pushed 3 ∷ drained 1 ∷ trimmed 1 ∷ pushed 4 ∷ []

script_result :
    (to_array (calls script empty 0).0 ≡ some 3 ∷ some 4 ∷ []) × ((calls script empty 0).1 ≡ 1)
unfolding calls empty push drain trim_to_last to_array compact blank
script_result = (refl, refl)

calls-refines_example :
    let q = (calls script empty 0).0 in
    let xs = (list_calls script [] 0).0 in
    (size q ≡ length xs)
    × (to_array q ≡ map some xs)
    × (peek 2 q ≡ map some (take 2 xs))
    × ((calls script empty 0).1 ≡ (list_calls script [] 0).1)
calls-refines_example = calls-refines script 2

-- A cursor behind two blank slots.
abbrev part_read : Queue ℕ
part_read = record { items = none ∷ none ∷ some 3 ∷ some 4 ∷ []; head = 2 }
