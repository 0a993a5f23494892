-- ===== src/Daemon/Pace.antt =====
-- One round of the loop and the time of the last cycle of probes.
use uplinkmgr.Prelude.{
  ◌≡◌, refl, sym, ap, ◌∙◌, subst, Bool, Bool-cases, inl, inr, true, false, Option, none, some, ℤ,
  ◌-ℤ◌, leb_ℤ, if◌then◌else◌,
}
use uplinkmgr.Config.{Config}
use uplinkmgr.Radvd.{Ipaddress}
use uplinkmgr.Daemon.Calls.{IsSteady, IsSteady-refl, IsSteady-trans, Steady}
use uplinkmgr.Daemon.Steady.{do_radvd_sighup-Steady, do_reconcile-Steady, run_cycle-Steady}
use uplinkmgr.Daemon.Machine.{Daemon}
use uplinkmgr.Daemon.Handlers.{
  Env, Outcome, done, raised, lost, ◌>>>◌, outcome, when, nanoseconds, run_cycle, is_due,
  handle_requests, cycle_if_due,
}

-- What the handlers before the cycle may do.
abbrev pub Calm : Daemon → Outcome → Type 0
Calm d (done d') = IsSteady d d'
Calm d (raised d') = ⊥
Calm d lost = Unit

outcome-Calm : (d : Daemon) (o : Option Daemon) → Steady d o → Calm d (outcome o)
outcome-Calm d none s = tt
outcome-Calm d (some x) s = s

when-Calm :
    (b : Bool) (f : Daemon → Option Daemon) (d : Daemon)
    → ((x : Daemon) → Steady x (f x))
    → Calm d (when b (λ x. outcome (f x)) d)
when-Calm true f d s = outcome-Calm d (f d) (s d)
when-Calm false f d s = IsSteady-refl d

Calm-after : (d x : Daemon) (o : Outcome) → IsSteady d x → Calm x o → Calm d o
Calm-after d x (done y) s t = IsSteady-trans d x y s t
Calm-after d x (raised y) s t = t
Calm-after d x lost s t = tt

>>>-Calm :
    (d : Daemon) (o : Outcome) (f : Daemon → Outcome)
    → Calm d o
    → ((x : Daemon) → Calm x (f x))
    → Calm d (o >>> f)
>>>-Calm d (done x) f s next = Calm-after d x (f x) s (next x)
>>>-Calm d (raised x) f s next = s
>>>-Calm d lost f s next = tt

no_reload-Calm :
    (d : Daemon) (f : Daemon → Outcome)
    → d.reload_requested ≡ false
    → Calm d (when d.reload_requested f d)
no_reload-Calm d f quiet = subst (λ b. Calm d (when b f d)) (sym quiet) (IsSteady-refl d)

-- The time of the last cycle after a round.
module _ (addresses : Ipaddress) where
  abbrev pub probed : Env → Daemon → Option ℤ
  probed env d = if is_due addresses env d then some env.mono else d.last_probe

  pub record IsPaced (env : Env) (d d' : Daemon) : Type 0 where
    pub cfg : d'.cfg ≡ d.cfg
    pub no_reload : d'.reload_requested ≡ d.reload_requested
    pub last_probe : d'.last_probe ≡ probed env d

  abbrev pub EndsPaced : Env → Daemon → Outcome → Type 0
  EndsPaced env d (done d') = IsPaced env d d'
  EndsPaced env d (raised d') = ⊥
  EndsPaced env d lost = Unit

  -- `is_due` of the configuration and the time of the last cycle.
  abbrev pub due : Env → Config → Option ℤ → Bool
  due env cfg last_probe = elim last_probe [
    | none ↦ true
    | some last ↦ leb_ℤ (nanoseconds cfg.monitor.interval) (env.mono -ℤ last)
  ]

  -- After a cycle.
  cycled-EndsPaced :
      (env : Env) (d : Daemon) (o : Option Daemon)
      → is_due addresses env d ≡ true
      → Steady (record d { last_probe = some env.mono }) o
      → EndsPaced env d (outcome o)
  cycled-EndsPaced env d none now t = tt
  cycled-EndsPaced env d (some y) now t = record {
    cfg = t.cfg;
    no_reload = t.reload_requested;
    last_probe = t.last_probe ∙ ap (λ b. if b then some env.mono else d.last_probe) (sym now);
  }

  pub cycle_if_due-EndsPaced :
      (env : Env) (d : Daemon) → EndsPaced env d (cycle_if_due addresses env d)
  unfolding cycle_if_due
  cycle_if_due-EndsPaced env d = elim (Bool-cases (is_due addresses env d)) [
    | inl now ↦
        let probing : Daemon = record d { last_probe = some env.mono } in
        rw now (
          cycled-EndsPaced env d (run_cycle addresses env probing) now
            (run_cycle-Steady addresses env probing))
    | inr later ↦ rw later (record {
      cfg = refl;
      no_reload = refl;
      last_probe = ap (λ b. if b then some env.mono else d.last_probe) (sym later);
    })
  ]

  -- Without a request for a reload.
  pub handle_requests-Calm :
      (env : Env) (d : Daemon)
      → d.reload_requested ≡ false
      → Calm d (handle_requests addresses env d)
  unfolding handle_requests
  handle_requests-Calm env d quiet =
      >>>-Calm d _ _
        (>>>-Calm d _ _ (no_reload-Calm d _ quiet)
          (λ x. when-Calm x.radvd_sighup_requested _ x (do_radvd_sighup-Steady addresses env)))
        (λ x. when-Calm x.reconcile_requested _ x (do_reconcile-Steady addresses env))
