-- ===== src/Lifecycle/Invariant.antt =====
-- What every reachable state of a controller of src/server-lifecycle.ts satisfies.
use next_loggers_ts.Prelude.{
  ℕ, ◌+◌, ◌≤◌, ◌≡◌, refl, ◌∙◌, ap, List, [], ◌∷◌, ◌++◌, Bool, true, false, not, ◌&&◌, ◌||◌, Option,
  none, some, is_some, if◌then◌else◌, implies, arith, if_both, if_cases,
}
use next_loggers_ts.Lifecycle.{
  forced, closed, Cause, Hook, before_graceful, flush, after_graceful, force_hook, ErrorValue,
  Server, Options, close_gracefully, close_now, hook, Call, Task, not_called, Drain, not_begun,
  in_after, ended, Forcing, not_forced, done, Controller, is_running, is_draining, is_forced,
  is_closed, cleanup, caught, call, finish, force, begin, enter_forced, enter_draining,
  close_servers,
}

abbrev pub is_hook : Hook → Hook → Bool
is_hook before_graceful before_graceful = true
is_hook flush flush = true
is_hook after_graceful after_graceful = true
is_hook force_hook force_hook = true
is_hook _ _ = false

abbrev pub is_call_of : Hook → Call → Bool
is_call_of h (hook k c) = is_hook k h
is_call_of h close_gracefully = false
is_call_of h close_now = false

-- How often a hook has been called.
abbrev pub times : Hook → List Call → ℕ
times h [] = 0
times h (c ∷ cs) = let rest = times h cs in if is_call_of h c then rest + 1 else rest

pub times-append :
    (h : Hook) (cs : List Call) (c : Call)
    → times h (cs ++ c ∷ []) ≡ times h cs + (if is_call_of h c then 1 else 0)
times-append h [] c = ground arith
times-append h (d ∷ cs) c = ground (arith, times-append h cs c)

abbrev pub is_not_called : Task → Bool
is_not_called not_called = true
is_not_called _ = false

abbrev pub is_not_begun : Drain → Bool
is_not_begun not_begun = true
is_not_begun _ = false

abbrev pub is_ended : Drain → Bool
is_ended ended = true
is_ended _ = false

-- The last hook of the graceful body is still to come.
abbrev pub is_early : Drain → Bool
is_early (in_after c) = false
is_early ended = false
is_early _ = true

abbrev pub is_not_forced : Forcing → Bool
is_not_forced not_forced = true
is_not_forced _ = false

abbrev pub is_done : Forcing → Bool
is_done done = true
is_done _ = false

pub record Inv (s : Controller) : Type 0 where
  pub while_running :
      implies
        (is_running s.phase)
        (is_not_begun s.drain && is_not_forced s.forcing && not s.resolved)
      ≡ true
  pub while_draining :
      implies (is_draining s.phase) (
        not (is_not_begun s.drain)
        && not (is_ended s.drain)
        && is_not_forced s.forcing
        && not s.resolved)
      ≡ true
  pub when_forced : implies (is_forced s.phase) (not (is_not_forced s.forcing)) ≡ true
  pub forced_open : implies (is_forced s.phase && not s.resolved) (not (is_done s.forcing)) ≡ true
  pub forced_done : implies (is_forced s.phase && s.resolved) (is_done s.forcing) ≡ true
  pub when_closed : implies (is_closed s.phase) (is_not_forced s.forcing && s.resolved) ≡ true
  pub has_result : is_some s.result ≡ s.resolved
  pub has_exit_code : s.exit_code_set ≡ s.resolved
  pub timer_only : implies s.timer (is_draining s.phase || s.disposed) ≡ true
  pub timer_set : implies (is_draining s.phase && not s.disposed) s.timer ≡ true
  pub is_cleaned : implies s.resolved s.disposed ≡ true
  pub is_deaf : implies s.disposed (not s.listening) ≡ true
  pub flush_calls : times flush s.calls ≤ (if is_not_called s.flush_task then 0 else 1)
  pub force_calls : times force_hook s.calls ≤ (if is_not_forced s.forcing then 0 else 1)
  pub before_calls : times before_graceful s.calls ≤ (if is_not_begun s.drain then 0 else 1)
  pub after_calls : times after_graceful s.calls + (if is_early s.drain then 1 else 0) ≤ 1

module _ (o : Options) where
  pub caught-Inv :
      (e : Option ErrorValue) (c : Cause) (s : Controller) → Inv s → Inv (caught o e c s)
  caught-Inv none c s v = v
  caught-Inv (some e) c s v = ground arith

  pub append_close-Inv :
      (s : Controller) → Inv s → Inv (record s { calls = s.calls ++ close_now ∷ [] })
  append_close-Inv s v = grind (arith, times-append)

  close_servers-Inv :
      (vs : List Server) (c : Cause) (s : Controller) → Inv s → Inv (close_servers o vs c s)
  unfolding close_servers
  close_servers-Inv [] c s v = v
  close_servers-Inv (x ∷ vs) c s v =
      let t = record s { calls = s.calls ++ close_now ∷ [] } in
      close_servers-Inv vs c _
        (caught-Inv x.on_close_all c _ (caught-Inv x.on_close c t (append_close-Inv s v)))

  kept_by_caught :
      (h : Hook) (e : Option ErrorValue) (c : Cause) (s : Controller)
      → (times h (caught o e c s).calls ≡ times h s.calls)
        × ((caught o e c s).forcing ≡ s.forcing)
        × ((caught o e c s).phase ≡ s.phase)
  kept_by_caught h none c s = (refl, refl, refl)
  kept_by_caught h (some e) c s = (refl, refl, refl)

  pub kept_by_close_servers :
      (h : Hook) (vs : List Server) (c : Cause) (s : Controller)
      → (times h (close_servers o vs c s).calls ≡ times h s.calls)
        × ((close_servers o vs c s).forcing ≡ s.forcing)
        × ((close_servers o vs c s).phase ≡ s.phase)
  unfolding close_servers
  kept_by_close_servers h [] c s = (refl, refl, refl)
  kept_by_close_servers h (v ∷ vs) c s =
      let t : Controller = record s { calls = s.calls ++ close_now ∷ [] } in
      let t' = caught o v.on_close c t in
      grind (
        arith,
        kept_by_close_servers h vs c (caught o v.on_close_all c t'),
        kept_by_caught h v.on_close_all c t',
        kept_by_caught h v.on_close c t,
        times-append h s.calls close_now,
      )

  call_force-Inv :
      (c : Cause) (s : Controller)
      → Inv s
      → times force_hook s.calls ≤ 0
      → is_not_forced s.forcing ≡ false
      → Inv (call o force_hook c s)
  call_force-Inv c s v none_yet f =
      if_both Inv (o.has_hook force_hook) (grind (arith, times-append)) v

  call_before-Inv :
      (c : Cause) (s : Controller)
      → Inv s
      → times before_graceful s.calls ≤ 0
      → is_not_begun s.drain ≡ false
      → Inv (call o before_graceful c s)
  call_before-Inv c s v none_yet f =
      if_both Inv (o.has_hook before_graceful) (grind (arith, times-append)) v

  pub call-flush-Inv :
      (c : Cause) (s : Controller)
      → Inv s
      → times flush s.calls ≤ 0
      → is_not_called s.flush_task ≡ false
      → Inv (call o flush c s)
  call-flush-Inv c s v none_yet f = if_both Inv (o.has_hook flush) (grind (arith, times-append)) v

  pub call_after-Inv :
      (c : Cause) (s : Controller)
      → Inv s
      → times after_graceful s.calls ≤ 0
      → is_early s.drain ≡ false
      → Inv (call o after_graceful c s)
  call_after-Inv c s v none_yet f =
      if_both Inv (o.has_hook after_graceful) (grind (arith, times-append)) v

  pub finish_forced-Inv :
      (c : Cause) (s : Controller)
      → Inv s
      → is_forced s.phase ≡ true
      → Inv (finish o forced c (record s { forcing = done }))
  unfolding finish
  finish_forced-Inv c s v p = ground arith

  pub finish_closed-Inv :
      (c : Cause) (s : Controller)
      → Inv s
      → is_draining s.phase ≡ true
      → Inv (finish o closed c (record s { drain = ended }))
  unfolding finish
  finish_closed-Inv c s v p = ground arith

  enter_forced-Inv :
      (c : Cause) (s : Controller)
      → Inv s
      → (is_forced s.phase || is_closed s.phase) ≡ false
      → Inv (enter_forced o c s)
        × (times force_hook (enter_forced o c s).calls ≤ 0)
        × (is_not_forced (enter_forced o c s).forcing ≡ false)
  unfolding enter_forced
  enter_forced-Inv c s v free = (grind arith, grind arith, grind arith)

  pub force-Inv : (c : Cause) (s : Controller) → Inv s → Inv (force o c s)
  unfolding force
  force-Inv c s v =
      if_cases Inv (is_forced s.phase || is_closed s.phase) (λ h. v)
        (λ free.
          let (w, none_yet, f) = enter_forced-Inv c s v free in
          let t = enter_forced o c s in
          let (same, still, p) = kept_by_close_servers force_hook o.servers c t in
          call_force-Inv c _ (close_servers-Inv o.servers c t w) (omega (arith, same, none_yet))
            (ap is_not_forced still ∙ f))

  enter_draining-Inv :
      (c : Cause) (s : Controller)
      → Inv s
      → is_running s.phase ≡ true
      → Inv (enter_draining o c s)
        × (times before_graceful (enter_draining o c s).calls ≤ 0)
        × (is_not_begun (enter_draining o c s).drain ≡ false)
  unfolding enter_draining
  enter_draining-Inv c s v p = (grind arith, grind arith, grind arith)

  pub begin-Inv :
      (c : Cause) (s : Controller) → Inv s → is_running s.phase ≡ true → Inv (begin o c s)
  unfolding begin
  begin-Inv c s v p =
      let (w, none_yet, f) = enter_draining-Inv c s v p in call_before-Inv c _ w none_yet f

  pub cleanup-Inv : (s : Controller) → Inv s → Inv (cleanup s)
  cleanup-Inv s v = ground arith
