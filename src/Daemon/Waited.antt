-- ===== src/Daemon/Waited.antt =====
-- How far the time of the last cycle of probes has moved, after one input.
use uplinkmgr.Prelude.{
  ℕ, ◌+◌, ◌≡◌, refl, sym, ap, ◌∙◌, subst, List, [], ◌∷◌, Bool, Bool-cases, inl, inr, true, false,
  some, ℤ, pos, ◌-ℤ◌, ◌*ℤ◌, ◌≤ℤ◌, leb_ℤ, if◌then◌else◌, arith,
}
use uplinkmgr.Radvd.{Ipaddress}
use uplinkmgr.Daemon.Machine.{Daemon}
use uplinkmgr.Daemon.Handlers.{
  Env, Outcome, done, raised, lost, ◌>>>◌, nanoseconds, is_due, handle_requests, cycle_if_due,
  iterate, Input, term, hup, usr1, usr2, round, deliver, handle_term, handle_usr1, handle_usr2,
}
use uplinkmgr.Daemon.Calls.{IsSteady}
use uplinkmgr.Daemon.Pace.{
  Calm, IsPaced, EndsPaced, due, cycle_if_due-EndsPaced, handle_requests-Calm,
}
use uplinkmgr.Daemon.Waits.{no_wait, one_wait}

-- No reload is asked for.
abbrev pub HasNoReload : List Input → Type 0
HasNoReload [] = Unit
HasNoReload (hup ∷ inputs) = ⊥
HasNoReload (_ ∷ inputs) = HasNoReload inputs

pub first_quiet :
    (input : Input) (inputs : List Input)
    → HasNoReload (input ∷ inputs)
    → HasNoReload (input ∷ []) × HasNoReload inputs
first_quiet term inputs h = (tt, h)
first_quiet hup inputs h = absurd h
first_quiet usr1 inputs h = (tt, h)
first_quiet usr2 inputs h = (tt, h)
first_quiet (round env) inputs h = (tt, h)

module _ (addresses : Ipaddress) where
  -- The number of cycles that a round starts after the requests, that an input starts, and that a list of inputs starts.
  abbrev pub starts : Env → Outcome → ℕ
  starts env (done d) = if is_due addresses env d then 1 else 0
  starts env (raised d) = 0
  starts env lost = 0

  abbrev pub cycles : Input → Daemon → ℕ
  cycles (round env) d = if d.running then starts env (handle_requests addresses env d) else 0
  cycles _ d = 0

  unfoldable pub probe_cycles : List Input → Daemon → ℕ
  probe_cycles [] d = 0
  probe_cycles (input ∷ inputs) d = cycles input d + (elim (deliver addresses input d) [
    | done d' ↦ probe_cycles inputs d'
    | raised d' ↦ 0
    | lost ↦ 0
  ])

  abbrev pub interval_of : Daemon → ℤ
  interval_of d = nanoseconds d.cfg.monitor.interval

  -- From one daemon to another the last cycle has moved by that many intervals, or more.
  pub record HasWaited (n : ℕ) (last : ℤ) (d d' : Daemon) : Type 0 where
    pub cfg : d'.cfg ≡ d.cfg
    pub no_reload : d'.reload_requested ≡ false
    pub moved :
        (latest : ℤ) × (d'.last_probe ≡ some latest) × (pos n *ℤ interval_of d ≤ℤ latest -ℤ last)

  abbrev pub EndsWaited : ℕ → ℤ → Daemon → Outcome → Type 0
  EndsWaited n last d (done d') = HasWaited n last d d'
  EndsWaited n last d (raised d') = ⊥
  EndsWaited n last d lost = Unit

  pub stays :
      (last : ℤ) (d : Daemon)
      → d.reload_requested ≡ false
      → d.last_probe ≡ some last
      → HasWaited 0 last d d
  stays last d quiet at = record {
    cfg = refl;
    no_reload = quiet;
    moved = (last, at, no_wait (interval_of d) last);
  }

  waited_when_due :
      (env : Env) (last : ℤ) (d : Daemon)
      → d.last_probe ≡ some last
      → is_due addresses env d ≡ true
      → interval_of d ≤ℤ env.mono -ℤ last
  unfolding is_due
  waited_when_due env last d at now =
      let late : leb_ℤ (interval_of d) (env.mono -ℤ last) ≡ true =
        ap (due addresses env d.cfg) (sym at) ∙ now in
      ground arith

  IsPaced-HasWaited :
      (env : Env) (last : ℤ) (d d' : Daemon)
      → d.reload_requested ≡ false
      → d.last_probe ≡ some last
      → IsPaced addresses env d d'
      → HasWaited (if is_due addresses env d then 1 else 0) last d d'
  IsPaced-HasWaited env last d d' quiet at p = elim (Bool-cases (is_due addresses env d)) [
    | inl now ↦ rw now (record {
      cfg = p.cfg;
      no_reload = p.no_reload ∙ quiet;
      moved = (
        env.mono,
        p.last_probe ∙ ap (λ b. if b then some env.mono else d.last_probe) now,
        one_wait (interval_of d) (env.mono -ℤ last) (waited_when_due env last d at now),
      );
    })
    | inr later ↦ rw later (record {
      cfg = p.cfg;
      no_reload = p.no_reload ∙ quiet;
      moved = (
        last,
        p.last_probe ∙ ap (λ b. if b then some env.mono else d.last_probe) later ∙ at,
        no_wait (interval_of d) last,
      );
    })
  ]

  EndsPaced-EndsWaited :
      (env : Env) (last : ℤ) (d : Daemon) (o : Outcome)
      → d.reload_requested ≡ false
      → d.last_probe ≡ some last
      → EndsPaced addresses env d o
      → EndsWaited (if is_due addresses env d then 1 else 0) last d o
  EndsPaced-EndsWaited env last d (done d') quiet at p = IsPaced-HasWaited env last d d' quiet at p
  EndsPaced-EndsWaited env last d (raised d') quiet at p = p
  EndsPaced-EndsWaited env last d lost quiet at p = tt

  EndsWaited-from :
      (n : ℕ) (last : ℤ) (d x : Daemon) (o : Outcome)
      → IsSteady d x
      → EndsWaited n last x o
      → EndsWaited n last d o
  EndsWaited-from n last d x (raised y) s w = w
  EndsWaited-from n last d x lost s w = tt
  EndsWaited-from n last d x (done y) s w =
      let (latest, at, waited) = w.moved in
      let waited' =
        subst (λ c. pos n *ℤ nanoseconds c.monitor.interval ≤ℤ latest -ℤ last) s.cfg waited in
      record { cfg = w.cfg ∙ s.cfg; no_reload = w.no_reload; moved = (latest, at, waited') }

  -- The cycle of a round, after its requests.
  requests-EndsWaited :
      (env : Env) (last : ℤ) (d : Daemon) (o : Outcome)
      → d.reload_requested ≡ false
      → d.last_probe ≡ some last
      → Calm d o
      → EndsWaited (starts env o) last d (o >>> cycle_if_due addresses env)
  requests-EndsWaited env last d (raised x) quiet at c = c
  requests-EndsWaited env last d lost quiet at c = tt
  requests-EndsWaited env last d (done x) quiet at c =
      EndsWaited-from _ last d x (cycle_if_due addresses env x) c (
        EndsPaced-EndsWaited env last x (cycle_if_due addresses env x) (c.reload_requested ∙ quiet)
          (c.last_probe ∙ at) (cycle_if_due-EndsPaced addresses env x))

  iterate-EndsWaited :
      (env : Env) (last : ℤ) (d : Daemon)
      → d.reload_requested ≡ false
      → d.last_probe ≡ some last
      → EndsWaited (starts env (handle_requests addresses env d)) last d (iterate addresses env d)
  unfolding iterate
  iterate-EndsWaited env last d quiet at =
      requests-EndsWaited env last d (handle_requests addresses env d) quiet at
        (handle_requests-Calm addresses env d quiet)

  pub deliver-EndsWaited :
      (input : Input) (last : ℤ) (d : Daemon)
      → HasNoReload (input ∷ [])
      → d.reload_requested ≡ false
      → d.last_probe ≡ some last
      → EndsWaited (cycles input d) last d (deliver addresses input d)
  unfolding deliver handle_term handle_usr1 handle_usr2
  deliver-EndsWaited hup last d none_asked quiet at = absurd none_asked
  deliver-EndsWaited term last d none_asked quiet at = record {
    cfg = refl;
    no_reload = quiet;
    moved = (stays last d quiet at).moved;
  }
  deliver-EndsWaited usr1 last d none_asked quiet at = record {
    cfg = refl;
    no_reload = quiet;
    moved = (stays last d quiet at).moved;
  }
  deliver-EndsWaited usr2 last d none_asked quiet at = record {
    cfg = refl;
    no_reload = quiet;
    moved = (stays last d quiet at).moved;
  }
  deliver-EndsWaited (round env) last d none_asked quiet at =
      let ends : Bool → Type 0 = λ b.
        EndsWaited (if b then starts env (handle_requests addresses env d) else 0) last d
          (if b then iterate addresses env d else done d) in
      elim (Bool-cases d.running) [
        | inl on ↦ subst ends (sym on) (iterate-EndsWaited env last d quiet at)
        | inr off ↦ subst ends (sym off) (stays last d quiet at)
      ]
