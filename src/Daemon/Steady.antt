-- ===== src/Daemon/Steady.antt =====
-- What leaves the clock of the probes alone: everything but a reload and a due cycle.
use uplinkmgr.Prelude.{List, [], ◌∷◌, ◌||◌, Bool, false, Option, none, some, if◌then◌else◌}
use uplinkmgr.Config.{UplinkConfig}
use uplinkmgr.State.{◌>>=◌}
use uplinkmgr.Radvd.{Ipaddress, RegenerateAction, sighup, write}
use uplinkmgr.Uplink.Invariant.{if_keeps}
use uplinkmgr.StateMachine.{Family, ipv4, ipv6}
use uplinkmgr.Daemon.Machine.{
  Daemon, view_of, put_view, reconcile_one4, update_primaries, regenerate,
}
use uplinkmgr.Daemon.Handlers.{
  Env, announce, judge, do_radvd_sighup, signals_radvd, do_reconcile, after_change4, after_change6,
  cycle_one, cycle_each, run_cycle,
}
use uplinkmgr.Daemon.Calls.{
  IsSteady, IsSteady-refl, IsSteady-trans, like-IsSteady, Steady, Steady-after, >>=-Steady,
  bind-Steady, reconcile_one4-IsSteady, reconcile_one6-Steady, reconcile_all-Steady,
  update_primaries-IsSteady,
}

module _ (addresses : Ipaddress) (env : Env) where
  regenerate-Steady :
      (action : RegenerateAction) (d : Daemon)
      → Steady d (regenerate addresses env.files env.now action d)
  unfolding regenerate
  regenerate-Steady action d =
      bind-Steady d _ (λ t. some (record d { trace = t }))
        (λ t. like-IsSteady d (record d { trace = t }))

  -- The signal is noted.
  signalled-Steady :
      (d : Daemon)
      → Steady d (
          regenerate addresses env.files env.now sighup d >>= λ d'.
          some (record d' { last_radvd_sighup = env.mono }))
  signalled-Steady d =
      >>=-Steady d _ (λ x. some (record x { last_radvd_sighup = env.mono }))
        (regenerate-Steady sighup d)
        (λ x. like-IsSteady x (record x { last_radvd_sighup = env.mono }))

  pub do_radvd_sighup-Steady : (d : Daemon) → Steady d (do_radvd_sighup addresses env d)
  unfolding do_radvd_sighup
  do_radvd_sighup-Steady d =
      let asked : Daemon = record d { radvd_sighup_requested = false } in
      Steady-after d asked _ (like-IsSteady d asked) (signalled-Steady asked)

  pub do_reconcile-Steady : (d : Daemon) → Steady d (do_reconcile addresses env d)
  unfolding do_reconcile
  do_reconcile-Steady d =
      let asked : Daemon = record d { reconcile_requested = false } in
      Steady-after d asked _ (like-IsSteady d asked) (
        >>=-Steady asked _ _ (reconcile_all-Steady env.files env.now asked) (λ x.
          let x' = update_primaries x in
          Steady-after x x' _ (update_primaries-IsSteady x) (
            if_keeps (Steady x') (signals_radvd addresses env x') (signalled-Steady x')
              (regenerate-Steady write x'))))

  announce-IsSteady :
      (family : Family) (u : UplinkConfig) (d : Daemon)
      → IsSteady d (announce addresses env family u d)
  announce-IsSteady family u d = like-IsSteady d (announce addresses env family u d)

  after_change6-Steady :
      (changed : Bool) (u : UplinkConfig) (d : Daemon)
      → Steady d (after_change6 addresses env changed u d)
  unfolding after_change6
  after_change6-Steady changed u d =
      if_keeps (Steady d) changed
        (>>=-Steady d _ (λ x. some (announce addresses env ipv6 u x))
          (reconcile_one6-Steady env.files env.now u d) (announce-IsSteady ipv6 u))
        (IsSteady-refl d)

  after_change4-IsSteady :
      (changed : Bool) (u : UplinkConfig) (d : Daemon)
      → IsSteady d (after_change4 addresses env changed u d)
  unfolding after_change4
  after_change4-IsSteady changed u d =
      let x = reconcile_one4 env.files u d in
      if_keeps (IsSteady d) changed
        (IsSteady-trans d x _ (reconcile_one4-IsSteady env.files u d) (announce-IsSteady ipv4 u x))
        (IsSteady-refl d)

  -- The pairs of the loop of `_run_cycle`.
  abbrev SteadyRound : Daemon → Option (Bool × Daemon) → Type 0
  SteadyRound d none = Unit
  SteadyRound d (some (b, d')) = IsSteady d d'

  SteadyRound-of :
      (d : Daemon) (o : Option Daemon) (b : Bool)
      → Steady d o
      → SteadyRound d (o >>= λ x. some (b, x))
  SteadyRound-of d none b s = tt
  SteadyRound-of d (some x) b s = s

  SteadyRound-after :
      (d x : Daemon) (o : Option (Bool × Daemon)) → IsSteady d x → SteadyRound x o → SteadyRound d o
  SteadyRound-after d x none s t = tt
  SteadyRound-after d x (some (b, y)) s t = IsSteady-trans d x y s t

  SteadyRound-bind :
      (d : Daemon) (o : Option (Bool × Daemon)) (f : Bool × Daemon → Option (Bool × Daemon))
      → SteadyRound d o
      → ((b : Bool) (x : Daemon) → SteadyRound x (f (b, x)))
      → SteadyRound d (o >>= f)
  SteadyRound-bind d none f s next = tt
  SteadyRound-bind d (some (b, x)) f s next = SteadyRound-after d x (f (b, x)) s (next b x)

  cycle_one-SteadyRound :
      (u : UplinkConfig) (b : Bool) (d : Daemon) → SteadyRound d (cycle_one addresses env u (b, d))
  unfolding cycle_one
  cycle_one-SteadyRound u b d =
      let (st, c4, c6) = judge addresses env d.cfg u (d.states u.name) in
      let judged = put_view u (record (view_of d u) { health = st }) d in
      let after4 = after_change4 addresses env c4 u judged in
      SteadyRound-of d (after_change6 addresses env c6 u after4) (b || c6) (
        Steady-after d after4 _
          (IsSteady-trans d judged after4 (like-IsSteady d judged)
            (after_change4-IsSteady c4 u judged))
          (after_change6-Steady c6 u after4))

  cycle_each-SteadyRound :
      (uplinks : List UplinkConfig) (b : Bool) (d : Daemon)
      → SteadyRound d (cycle_each addresses env uplinks (b, d))
  unfolding cycle_each
  cycle_each-SteadyRound [] b d = IsSteady-refl d
  cycle_each-SteadyRound (u ∷ uplinks) b d =
      SteadyRound-bind d (cycle_one addresses env u (b, d)) _ (cycle_one-SteadyRound u b d)
        (cycle_each-SteadyRound uplinks)

  pub run_cycle-Steady : (d : Daemon) → Steady d (run_cycle addresses env d)
  unfolding run_cycle
  run_cycle-Steady d =
      ended (cycle_each addresses env d.cfg.uplinks (false, d))
        (cycle_each-SteadyRound d.cfg.uplinks false d)
    where
      ended :
          (o : Option (Bool × Daemon))
          → SteadyRound d o
          → Steady d (
              o >>= λ (any, x).
              (if any then regenerate addresses env.files env.now sighup x else some x) >>= λ y.
              some (update_primaries y))
      ended none s = tt
      ended (some (any, x)) s =
          >>=-Steady d _ (λ y. some (update_primaries y))
            (Steady-after d x _ s
              (if_keeps (Steady x) any (regenerate-Steady sighup x) (IsSteady-refl x)))
            update_primaries-IsSteady
