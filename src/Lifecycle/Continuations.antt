-- ===== src/Lifecycle/Continuations.antt =====
-- The continuations of src/server-lifecycle.ts keep the invariant.
use next_loggers_ts.Prelude.{
  ◌+◌, ◌≡◌, refl, ◌∙◌, ap, List, [], ◌∷◌, Bool, true, false, Option, none, some, if◌then◌else◌,
  arith, if_both, if_cases, of_some,
}
use next_loggers_ts.Lifecycle.{
  Phase, running, draining, forced, closed, Cause, flush, force_hook, ErrorValue, exceeded, Server,
  Options, Task, not_called, pending, settled, Drain, in_before, closing, flushing, in_after, ended,
  Forcing, awaiting_hook, awaiting_flush, Controller, is_running, is_draining, is_closed, caught,
  force, enter_forced, by_phase,
}
use next_loggers_ts.Lifecycle.Steps.{
  on_signal, flush_by, flush_once, close_listeners, after_before, on_before, caught_all, any_failed,
  after_closing, on_servers, resume_drain, resume_forcing, on_flush, after_after, on_after,
  await_flush, behind_hook, on_force, on_force_exceeded, on_flush_exceeded,
}
use next_loggers_ts.Lifecycle.Invariant.{
  Inv, times-append, kept_by_close_servers, caught-Inv, force-Inv, begin-Inv, finish_forced-Inv,
  finish_closed-Inv, call-flush-Inv, call_after-Inv,
}

module _ (o : Options) where
  abbrev Keeps : Controller → Controller → Type 0
  Keeps s t =
      (t.phase ≡ s.phase)
      × (t.drain ≡ s.drain)
      × (t.forcing ≡ s.forcing)
      × (t.flush_task ≡ s.flush_task)

  caught-Keeps : (e : Option ErrorValue) (c : Cause) (s : Controller) → Keeps s (caught o e c s)
  caught-Keeps none c s = (refl, refl, refl, refl)
  caught-Keeps (some e) c s = (refl, refl, refl, refl)

  pub by_phase-Inv :
      (p : Phase) (c : Cause) (s : Controller) → s.phase ≡ p → Inv s → Inv (by_phase o p c s)
  by_phase-Inv running c s e v = begin-Inv o c s v (ap is_running e)
  by_phase-Inv draining c s e v = force-Inv o c s v
  by_phase-Inv forced c s e v = v
  by_phase-Inv closed c s e v = v

  pub on_signal-Inv : (c : Cause) (s : Controller) → Inv s → Inv (on_signal o c s)
  on_signal-Inv c s v =
      let t : Controller = record s { signal_count = s.signal_count + 1 } in
      by_phase-Inv s.phase c t refl (ground arith)

  close_listeners-Inv : (vs : List Server) (s : Controller) → Inv s → Inv (close_listeners o vs s)
  close_listeners-Inv [] s v = v
  close_listeners-Inv (x ∷ vs) s v = close_listeners-Inv vs _ (grind (arith, times-append))

  after_before-Inv :
      (c : Cause) (s : Controller) → s.drain ≡ in_before c → Inv s → Inv (after_before o c s)
  unfolding after_before
  after_before-Inv c s e v =
      if_cases Inv (is_draining s.phase)
        (λ d. close_listeners-Inv o.servers (record s { drain = closing c }) (grind (arith, e, d)))
        (λ d. grind (arith, e, d))

  pub on_before-Inv :
      (d : Drain) (e : Option ErrorValue) (s s' : Controller)
      → s.drain ≡ d
      → Inv s
      → on_before o d e s ≡ some s'
      → Inv s'
  unfolding on_before
  on_before-Inv (in_before c) e s s' q v h =
      let (p, same, f, t) = caught-Keeps e c s in
      of_some Inv h (after_before-Inv c (caught o e c s) (same ∙ q) (caught-Inv o e c s v))
  on_before-Inv _ e s s' q v h = absurd (ground (arith, h))

  caught_all-Inv :
      (es : List (Option ErrorValue)) (c : Cause) (s : Controller)
      → Inv s
      → Inv (caught_all o es c s)
  caught_all-Inv [] c s v = v
  caught_all-Inv (e ∷ es) c s v = caught_all-Inv es c _ (caught-Inv o e c s v)

  caught_all-Keeps :
      (es : List (Option ErrorValue)) (c : Cause) (s : Controller) → Keeps s (caught_all o es c s)
  caught_all-Keeps [] c s = (refl, refl, refl, refl)
  caught_all-Keeps (e ∷ es) c s =
      ground (arith, caught_all-Keeps es c (caught o e c s), caught-Keeps e c s)

  flush_by-Inv :
      (t : Task) (c : Cause) (s : Controller) → s.flush_task ≡ t → Inv s → Inv (flush_by o t c s)
  flush_by-Inv not_called c s e v =
      call-flush-Inv o c (record s { flush_task = pending c }) (grind (arith, e)) (grind (arith, e))
        refl
  flush_by-Inv (pending d) c s e v = v
  flush_by-Inv settled c s e v = v

  ended-Inv :
      (s : Controller)
      → Inv s
      → is_running s.phase ≡ false
      → is_draining s.phase ≡ false
      → Inv (record s { drain = ended })
  ended-Inv s v r d = grind arith

  phase_open :
      (p : Phase) → is_draining p ≡ true → (if is_closed p then closed else forced) ≡ forced
  phase_open p d = ground arith

  pub phase-force :
      (c : Cause) (s : Controller)
      → (force o c s).phase ≡ (if is_closed s.phase then closed else forced)
  unfolding force enter_forced
  phase-force c s =
      let (same, still, p) = kept_by_close_servers o force_hook o.servers c (enter_forced o c s) in
      ground arith

  after_closing-Inv :
      (failed : Bool) (c : Cause) (s : Controller)
      → s.drain ≡ closing c
      → Inv s
      → Inv (after_closing o failed c s)
  unfolding after_closing flush_once
  after_closing-Inv failed c s e v =
      if_cases Inv (is_draining s.phase)
        (λ d.
          if_both Inv failed
            (let gone = phase-force c s ∙ phase_open s.phase d in
              ended-Inv (force o c s) (force-Inv o c s v) (ap is_running gone)
                (ap is_draining gone))
            (flush_by-Inv s.flush_task c (record s { drain = flushing c }) refl (grind (arith, e))))
        (λ d. ended-Inv s v (grind (arith, e)) d)

  pub on_servers-Inv :
      (d : Drain) (es : List (Option ErrorValue)) (s s' : Controller)
      → s.drain ≡ d
      → Inv s
      → on_servers o d es s ≡ some s'
      → Inv s'
  unfolding on_servers
  on_servers-Inv (closing c) es s s' q v h =
      let (p, same, f, t) = caught_all-Keeps es c s in
      of_some Inv h (
        after_closing-Inv (any_failed o es) c (caught_all o es c s) (same ∙ q)
          (caught_all-Inv es c s v))
  on_servers-Inv _ es s s' q v h = absurd (ground (arith, h))

  resume_drain-Inv : (d : Drain) (s : Controller) → s.drain ≡ d → Inv s → Inv (resume_drain o d s)
  unfolding resume_drain
  resume_drain-Inv (flushing c) s e v =
      if_cases Inv (is_draining s.phase)
        (λ d.
          call_after-Inv o c (record s { drain = in_after c }) (grind (arith, e, d))
            (grind (arith, e)) refl)
        (λ d. ended-Inv s v (grind (arith, e)) d)
  resume_drain-Inv _ s e v = v

  -- What waits for the flush after a forcing is on a forced controller.
  resume_forcing-Inv :
      (f : Forcing) (s : Controller) → s.forcing ≡ f → Inv s → Inv (resume_forcing o f s)
  unfolding resume_forcing
  resume_forcing-Inv (awaiting_flush c) s e v = finish_forced-Inv o c s v (grind (arith, e))
  resume_forcing-Inv _ s e v = v

  forcing-resume_drain : (d : Drain) (s : Controller) → (resume_drain o d s).forcing ≡ s.forcing
  unfolding resume_drain
  forcing-resume_drain (flushing c) s = ground arith
  forcing-resume_drain _ s = refl

  pub on_flush-Inv :
      (t : Task) (e : Option ErrorValue) (s s' : Controller)
      → s.flush_task ≡ t
      → Inv s
      → on_flush o t e s ≡ some s'
      → Inv s'
  unfolding on_flush
  on_flush-Inv (pending c) e s s' q v h =
      let u : Controller = record s { flush_task = settled } in
      let u' = caught o e c u in
      let (p, same, f, t) = caught-Keeps e c u in
      let w = resume_drain-Inv s.drain u' same (caught-Inv o e c u (grind (arith, q))) in
      of_some Inv h (
        resume_forcing-Inv s.forcing (resume_drain o s.drain u')
          (forcing-resume_drain s.drain u' ∙ f) w)
  on_flush-Inv _ e s s' q v h = absurd (ground (arith, h))

  after_after-Inv :
      (c : Cause) (s : Controller) → s.drain ≡ in_after c → Inv s → Inv (after_after o c s)
  unfolding after_after
  after_after-Inv c s e v =
      if_cases Inv (is_draining s.phase) (λ d. finish_closed-Inv o c s v d)
        (λ d. ended-Inv s v (grind (arith, e)) d)

  pub on_after-Inv :
      (d : Drain) (e : Option ErrorValue) (s s' : Controller)
      → s.drain ≡ d
      → Inv s
      → on_after o d e s ≡ some s'
      → Inv s'
  unfolding on_after
  on_after-Inv (in_after c) e s s' q v h =
      let (p, same, f, t) = caught-Keeps e c s in
      of_some Inv h (after_after-Inv c (caught o e c s) (same ∙ q) (caught-Inv o e c s v))
  on_after-Inv _ e s s' q v h = absurd (ground (arith, h))

  await_flush-Inv :
      (t : Task) (c d : Cause) (s : Controller)
      → s.flush_task ≡ t
      → s.forcing ≡ awaiting_hook d
      → Inv s
      → Inv (await_flush o t c s)
  unfolding await_flush
  await_flush-Inv not_called c d s e f v =
      call-flush-Inv o c (record s { flush_task = pending c; forcing = awaiting_flush c })
        (grind (arith, e, f)) (grind (arith, e)) refl
  await_flush-Inv (pending _) c d s e f v = grind (arith, f)
  await_flush-Inv settled c d s e f v = finish_forced-Inv o c s v (grind (arith, f))

  behind_hook-Inv : (f : Forcing) (s : Controller) → s.forcing ≡ f → Inv s → Inv (behind_hook o f s)
  unfolding behind_hook
  behind_hook-Inv (awaiting_hook c) s e v = await_flush-Inv s.flush_task c c s refl e v
  behind_hook-Inv _ s e v = v

  pub on_force-Inv :
      (t : Task) (e : Option ErrorValue) (s s' : Controller)
      → Inv s
      → on_force o t e s ≡ some s'
      → Inv s'
  unfolding on_force
  on_force-Inv (pending c) e s s' v h =
      let u : Controller = record s { force_task = settled } in
      let (p, d, same, t) = caught-Keeps e c u in
      of_some Inv h
        (behind_hook-Inv s.forcing (caught o e c u) same (caught-Inv o e c u (grind arith)))
  on_force-Inv _ e s s' v h = absurd (ground (arith, h))

  pub on_force_exceeded-Inv :
      (f : Forcing) (s s' : Controller)
      → s.forcing ≡ f
      → Inv s
      → on_force_exceeded o f s ≡ some s'
      → Inv s'
  unfolding on_force_exceeded
  on_force_exceeded-Inv (awaiting_hook c) s s' e v h =
      let x : Option ErrorValue = some (exceeded force_hook) in
      of_some Inv h
        (await_flush-Inv s.flush_task c c (caught o x c s) refl e (caught-Inv o x c s v))
  on_force_exceeded-Inv _ s s' e v h = absurd (ground (arith, h))

  pub on_flush_exceeded-Inv :
      (f : Forcing) (s s' : Controller)
      → s.forcing ≡ f
      → Inv s
      → on_flush_exceeded o f s ≡ some s'
      → Inv s'
  unfolding on_flush_exceeded
  on_flush_exceeded-Inv (awaiting_flush c) s s' e v h =
      let x : Option ErrorValue = some (exceeded flush) in
      of_some Inv h
        (finish_forced-Inv o c (caught o x c s) (caught-Inv o x c s v) (grind (arith, e)))
  on_flush_exceeded-Inv _ s s' e v h = absurd (ground (arith, h))
