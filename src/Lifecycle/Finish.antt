-- ===== src/Lifecycle/Finish.antt =====
-- The deadlines of src/server-lifecycle.ts end every shutdown.
use next_loggers_ts.Prelude.{
  ℕ, suc, ◌≤◌, ◌≡◌, refl, ap, List, [], ◌∷◌, Bool, true, false, ◌&&◌, some, length, arith,
}
use next_loggers_ts.Lifecycle.{
  Phase, running, draining, forced, closed, Cause, timeout, Hook, flush, force_hook, exceeded, Task,
  not_called, pending, settled, Forcing, not_forced, awaiting_hook, awaiting_flush, done, Options,
  Controller, installed, is_running, is_draining, is_forced, caught, call, finish, force,
}
use next_loggers_ts.Lifecycle.Steps.{
  Event, deadline, force_exceeded, flush_exceeded, step, run, await_flush, on_force_exceeded,
  on_flush_exceeded,
}
use next_loggers_ts.Lifecycle.Invariant.{Inv}
use next_loggers_ts.Lifecycle.Continuations.{phase-force}
use next_loggers_ts.Lifecycle.Results.{fired-Inv, run-Inv, installed-Inv}

abbrev pub is_deadline : Event → Bool
is_deadline deadline = true
is_deadline force_exceeded = true
is_deadline flush_exceeded = true
is_deadline _ = false

abbrev pub all_deadlines : List Event → Bool
all_deadlines [] = true
all_deadlines (e ∷ es) = is_deadline e && all_deadlines es

-- Some deadlines, at most `n` of them, bring the controller to its result.
abbrev pub EndsWithin : Options → ℕ → Controller → Type 0
EndsWithin o n s =
    (es : List Event) × (t : Controller) × (run o es s ≡ some t)
    × (t.resolved ≡ true)
    × (all_deadlines es ≡ true)
    × (length es ≤ n)

module _ (o : Options) where
  then_step :
      (e : Event) (n : ℕ) (s t : Controller)
      → is_deadline e ≡ true
      → step o e s ≡ some t
      → EndsWithin o n t
      → EndsWithin o (suc n) s
  unfolding run
  then_step e n s t d h (es, u, r, over, all, short) =
      (e ∷ es, u, ground (arith, h, r), over, ground (arith, d, all), omega (arith, short))

  resolved-finish : (p : Phase) (c : Cause) (s : Controller) → (finish o p c s).resolved ≡ true
  unfolding finish
  resolved-finish p c s = ground arith

  ended_now : (n : ℕ) (s : Controller) → s.resolved ≡ true → EndsWithin o n s
  unfolding run
  ended_now n s h = ([], s, refl, h, refl, omega arith)

  weaken : (n : ℕ) (s : Controller) → EndsWithin o n s → EndsWithin o (suc n) s
  weaken n s (es, u, r, over, all, short) = (es, u, r, over, all, omega (arith, short))

  ends_awaiting_flush :
      (c : Cause) (s : Controller) → s.forcing ≡ awaiting_flush c → EndsWithin o 1 s
  unfolding step on_flush_exceeded
  ends_awaiting_flush c s e =
      let t =
        finish o forced c (caught o (some (exceeded flush)) c (record s { forcing = done })) in
      then_step flush_exceeded 0 s t refl (ap (λ (f : Forcing). on_flush_exceeded o f s) e)
        (ended_now 0 t (resolved-finish forced c _))

  forcing-call : (h : Hook) (c : Cause) (s : Controller) → (call o h c s).forcing ≡ s.forcing
  forcing-call h c s = ground arith

  ends-await_flush : (t : Task) (c : Cause) (s : Controller) → EndsWithin o 1 (await_flush o t c s)
  unfolding await_flush
  ends-await_flush not_called c s = ends_awaiting_flush c _ (forcing-call flush c _)
  ends-await_flush (pending d) c s = ends_awaiting_flush c _ refl
  ends-await_flush settled c s = ended_now 1 _ (resolved-finish forced c _)

  ends_by_forcing :
      (f : Forcing) (s : Controller)
      → s.forcing ≡ f
      → Inv s
      → is_forced s.phase ≡ true
      → EndsWithin o 2 s
  unfolding step on_force_exceeded
  ends_by_forcing not_forced s e v p = absurd (ground (arith, e, p, v.when_forced))
  ends_by_forcing (awaiting_hook c) s e v p =
      let u = caught o (some (exceeded force_hook)) c s in
      then_step force_exceeded 1 s (await_flush o s.flush_task c u) refl
        (ap (λ (f : Forcing). on_force_exceeded o f s) e) (ends-await_flush s.flush_task c u)
  ends_by_forcing (awaiting_flush c) s e v p = weaken 1 s (ends_awaiting_flush c s e)
  ends_by_forcing done s e v p = ended_now 2 s (ground arith)

  ends_forced : (s : Controller) → Inv s → is_forced s.phase ≡ true → EndsWithin o 2 s
  ends_forced s v p = ends_by_forcing s.forcing s refl v p

  ends_draining :
      (s : Controller) → Inv s → is_draining s.phase ≡ true → s.disposed ≡ false → EndsWithin o 3 s
  unfolding step
  ends_draining s v d live =
      let t : Controller = record (force o timeout s) { timer = false } in
      then_step deadline 2 s t refl (ground arith)
        (ends_forced t (fired-Inv o s v) (ground (arith, phase-force o timeout s)))

  ends_by_phase :
      (p : Phase) (s : Controller)
      → s.phase ≡ p
      → Inv s
      → is_running p ≡ false
      → (is_draining p && s.disposed) ≡ false
      → EndsWithin o 3 s
  ends_by_phase running s e v r d = absurd (ground (arith, r))
  ends_by_phase draining s e v r d = ends_draining s v (ap is_draining e) d
  ends_by_phase forced s e v r d = weaken 2 s (ends_forced s v (ap is_forced e))
  ends_by_phase closed s e v r d = ended_now 3 s (ground (arith, e, v.when_closed))

-- A shutdown that has begun always comes to an end: from every reachable state that is not running
-- and is not a disposed one that still drains, at most three deadlines, whatever hooks and servers
-- do, bring the controller to its result.
pub run-EndsWithin :
    (o : Options) (es : List Event) (s : Controller)
    → run o es installed ≡ some s
    → is_running s.phase ≡ false
    → (is_draining s.phase && s.disposed) ≡ false
    → EndsWithin o 3 s
run-EndsWithin o es s h r d =
    ends_by_phase o s.phase s refl (run-Inv o es installed s installed-Inv h) r d
