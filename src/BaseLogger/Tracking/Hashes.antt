-- ===== src/BaseLogger/Tracking/Hashes.antt =====
-- The set of hashes of src/base-logger.ts.
use Prim.Native.String.{String}
use text.Mathlib.Text.{◌==◌ as str_eq}
use text.Mathlib.TextEquality.{eq_iff}
use next_loggers_ts.Prelude.{
  ℕ, suc, zero, ◌+◌, ◌≤◌, ◌≡◌, refl, List, [], ◌∷◌, ◌++◌, true, false, not, ◌&&◌, ◌||◌, length,
  drop, leb, if◌then◌else◌, arith, if_both, if_cases, length-append, length-drop,
}
use next_loggers_ts.Cli.Text.{member}
use next_loggers_ts.BaseLogger.Objects.{add, is_distinct, add-distinct, member-add}
use next_loggers_ts.BaseLogger.Tracking.{
  Options, Record, Tracker, fresh, matches, make_room, write, remove, post_failed, Event, wrote,
  failed, step, run,
}

length-add : (v : String) (vs : List String) → length (add v vs) ≤ length vs + 1
unfolding add
length-add v vs = ground (arith, length-append vs (v ∷ []))

length-remove : (h : String) (hs : List String) → length (remove h hs) ≤ length hs
unfolding remove
length-remove h [] = omega arith
length-remove h (g ∷ gs) = ground (arith, length-remove h gs)

member-remove :
    (k h : String) (hs : List String) → member k (remove h hs) ≡ (member k hs && not (str_eq h k))
unfolding remove
member-remove k h [] = refl
member-remove k h (g ∷ gs) =
    ground (arith, member-remove k h gs, eq_iff g h, eq_iff g k, eq_iff h k)

remove-distinct :
    (h : String) (hs : List String) → is_distinct hs ≡ true → is_distinct (remove h hs) ≡ true
unfolding remove
remove-distinct h [] d = refl
remove-distinct h (g ∷ gs) d = ground (arith, remove-distinct h gs, member-remove g h gs)

drop-distinct : (n : ℕ) (hs : List String) → is_distinct hs ≡ true → is_distinct (drop n hs) ≡ true
drop-distinct zero hs d = d
drop-distinct (suc n) [] d = refl
drop-distinct (suc n) (h ∷ hs) d = drop-distinct n hs (ground (arith, d))

length-drop_room :
    (n m : ℕ) (hs : List String) → length hs ≤ m → 1 ≤ n → 1 ≤ m → length (drop n hs) + 1 ≤ m
length-drop_room n m hs l p q = omega (arith, length-drop n hs)

lt_of_not_le : (a b : ℕ) → leb a b ≡ false → b + 1 ≤ a
lt_of_not_le a b h = ground arith

make_room_bounds : (hs : List String) → length hs ≤ 5000 → length (make_room hs) + 1 ≤ 5000
unfolding make_room
make_room_bounds hs h =
    if_cases (λ (gs : List String). length gs + 1 ≤ 5000) (leb 5000 (length hs))
      (λ full. length-drop_room 2500 5000 hs h (omega arith) (omega arith))
      (lt_of_not_le 5000 (length hs))

make_room-distinct : (hs : List String) → is_distinct hs ≡ true → is_distinct (make_room hs) ≡ true
unfolding make_room
make_room-distinct hs d =
    if_both (λ (gs : List String). is_distinct gs ≡ true) (leb 5000 (length hs))
      (drop-distinct 2500 hs d) d

abbrev pub IsBounded : Tracker → Type 0
IsBounded s = (length s.hashes ≤ 5000) × (is_distinct s.hashes ≡ true)

write-IsBounded : (o : Options) (r : Record) (s : Tracker) → IsBounded s → IsBounded (write o r s)
unfolding write
write-IsBounded o r s (l, d) =
    if_both IsBounded (not (matches o r)) (l, d)
      (if_both IsBounded (not o.dedupe) (l, d)
        (if_both IsBounded (member r.hash s.hashes) (l, d)
          (
            omega (arith, length-add r.hash (make_room s.hashes), make_room_bounds s.hashes l),
            add-distinct r.hash (make_room s.hashes) (make_room-distinct s.hashes d),
          )))

post_failed-IsBounded : (r : Record) (s : Tracker) → IsBounded s → IsBounded (post_failed r s)
unfolding post_failed
post_failed-IsBounded r s (l, d) =
    (omega (arith, l, length-remove r.hash s.hashes), remove-distinct r.hash s.hashes d)

step-IsBounded : (o : Options) (e : Event) (s : Tracker) → IsBounded s → IsBounded (step o e s)
unfolding step
step-IsBounded o (wrote r) s b = write-IsBounded o r s b
step-IsBounded o (failed r) s b = if_both IsBounded o.dedupe (post_failed-IsBounded r s b) b

run_from-IsBounded :
    (o : Options) (es : List Event) (s : Tracker) → IsBounded s → IsBounded (run o es s)
unfolding run
run_from-IsBounded o [] s b = b
run_from-IsBounded o (e ∷ es) s b = run_from-IsBounded o es (step o e s) (step-IsBounded o e s b)

-- Over every sequence of writes and failed posts the tracker holds at most five thousand hashes,
-- none of them twice.
run-IsBounded : (o : Options) (es : List Event) → IsBounded (run o es fresh)
run-IsBounded o es = run_from-IsBounded o es fresh (omega arith, refl)

module _ (o : Options) (r : Record) (d : o.dedupe ≡ true) where
  sent-write :
      (s : Tracker)
      → (write o r s).sent
        ≡ (if matches o r && not (member r.hash s.hashes) then s.sent ++ r ∷ [] else s.sent)
  unfolding write
  sent-write s = ground (arith, d)

  member-write :
      (s : Tracker) → member r.hash (write o r s).hashes ≡ (matches o r || member r.hash s.hashes)
  unfolding write
  member-write s =
      ground (arith, d, member-add r.hash r.hash (make_room s.hashes), eq_iff r.hash r.hash)

  released :
      (s : Tracker)
      → (write o r (post_failed r s)).sent ≡ (if matches o r then s.sent ++ r ∷ [] else s.sent)
  unfolding post_failed
  released s = ground (
    arith,
    sent-write (post_failed r s),
    member-remove r.hash r.hash s.hashes,
    eq_iff r.hash r.hash,
  )

-- With deduplication on, a write posts its record just when the record is severe enough and its
-- hash is not known; then the hash is known, so that the next write of it posts nothing; and when
-- the post fails the hash is unknown again, so that the next write posts it.
write-post_failed :
    (o : Options) (r : Record) (s : Tracker)
    → o.dedupe ≡ true
    → ((write o r s).sent
        ≡ (if matches o r && not (member r.hash s.hashes) then s.sent ++ r ∷ [] else s.sent))
      × (member r.hash (write o r s).hashes ≡ (matches o r || member r.hash s.hashes))
      × ((write o r (write o r s)).sent ≡ (write o r s).sent)
      × ((write o r (post_failed r (write o r s))).sent
          ≡ (if matches o r then (write o r s).sent ++ r ∷ [] else (write o r s).sent))
write-post_failed o r s d = (
  sent-write o r d s,
  member-write o r d s,
  ground (arith, sent-write o r d (write o r s), member-write o r d s),
  released o r d (write o r s),
)
