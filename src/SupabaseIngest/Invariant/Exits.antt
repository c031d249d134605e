-- ===== src/SupabaseIngest/Invariant/Exits.antt =====
-- The calls of `flushOnExit` of src/supabase-ingest.ts that have not ended, as lists.
use next_loggers_ts.Prelude.{
  ℕ, zero, suc, ◌+◌, ◌≡◌, refl, ap, ◌∙◌, List, [], ◌∷◌, ◌++◌, Option, none, some, arith, of_some,
}
use next_loggers_ts.SupabaseIngest.{Exit, awaiting, resuming, exiting, Leaving}
use next_loggers_ts.SupabaseIngest.Steps.{keep, pick, awake, awake_all}
use next_loggers_ts.SupabaseIngest.Batches.{Small, Small-append, Small-left, Small-right}
use next_loggers_ts.SupabaseIngest.Invariant.{tally, tally-append, in_exit, in_exits}

in_exit-awake : (e : Exit) → in_exit (awake e) ≡ in_exit e
in_exit-awake awaiting = refl
in_exit-awake resuming = refl
in_exit-awake (exiting batch) = refl

pub in_exits-awake_all : (xs : List Leaving) → in_exits (awake_all xs) ≡ in_exits xs
in_exits-awake_all [] = refl
in_exits-awake_all (x ∷ xs) =
    ap (λ b. b ++ in_exits (awake_all xs)) (in_exit-awake x.exit)
    ∙ ap (λ b. in_exit x.exit ++ b) (in_exits-awake_all xs)

-- One call of `flushOnExit` among all, and the others.
abbrev pub Parts : ℕ → ℕ → List Leaving → Leaving × List Leaving → Type 0
Parts n m xs (x, others) =
    (tally n (in_exits xs) ≡ tally n (in_exit x.exit) + tally n (in_exits others))
    × (Small m (in_exits xs) → Small m (in_exit x.exit) × Small m (in_exits others))

keep-Parts :
    (n m : ℕ) (x : Leaving) (xs : List Leaving) (p : Option (Leaving × List Leaving))
    → ((r : Leaving × List Leaving) → p ≡ some r → Parts n m xs r)
    → (r : Leaving × List Leaving) → keep x p ≡ some r
    → Parts n m (x ∷ xs) r
keep-Parts n m x xs none h r e = cc
keep-Parts n m x xs (some (y, others)) h r e =
    let k = h (y, others) refl in
    of_some (Parts n m (x ∷ xs)) e (
      omega (
        arith,
        k.0,
        tally-append n (in_exit x.exit) (in_exits xs),
        tally-append n (in_exit x.exit) (in_exits others),
      ),
      (λ small.
          let later = k.1 (Small-right m (in_exit x.exit) (in_exits xs) small) in
          (
            later.0,
            Small-append m (in_exit x.exit) (in_exits others)
                (Small-left m (in_exit x.exit) (in_exits xs) small) later.1,
          )),
    )

pub pick-Parts :
    (n m k : ℕ) (xs : List Leaving) (r : Leaving × List Leaving)
    → pick k xs ≡ some r
    → Parts n m xs r
unfolding pick
pick-Parts n m zero [] r e = cc
pick-Parts n m (suc k) [] r e = cc
pick-Parts n m zero (x ∷ xs) r e = of_some (Parts n m (x ∷ xs)) e (
  tally-append n (in_exit x.exit) (in_exits xs),
  (λ small. (
    Small-left m (in_exit x.exit) (in_exits xs) small,
    Small-right m (in_exit x.exit) (in_exits xs) small,
  )),
)
pick-Parts n m (suc k) (x ∷ xs) r e =
    keep-Parts n m x xs (pick k xs) (λ q f. pick-Parts n m k xs q f) r e
