-- ===== src/Daemon/Lifetime.antt =====
-- The whole life of the daemon: whatever happens between its start and its end, it leaves nothing in
-- place.
use uplinkmgr.Prelude.{◌≡◌, refl, sym, ◌∙◌, subst, List, [], ◌∷◌, false, Option, some, text}
use uplinkmgr.Config.{Config}
use uplinkmgr.Config.Loaded.{IsValid}
use uplinkmgr.StateMachine.{initial}
use uplinkmgr.State.{read_ipv6ra_state, read_ipv6pd_state}
use uplinkmgr.Radvd.{Ipaddress, sighup}
use uplinkmgr.Uplink.Invariant.{if_keeps}
use uplinkmgr.Uplink.Ledger.{Place, held}
use uplinkmgr.Daemon.Booked.{IsNamed}
use uplinkmgr.Daemon.Stop.{IsBare, teardown_all-IsBare}
use uplinkmgr.Daemon.Start.{bring_up-IsBooked}
use uplinkmgr.Daemon.Quiet.{regenerate_all-held}
use uplinkmgr.Daemon.Safe.{
  IsSafe, IsSafe-of, IsQuiet-IsSafe, EndsSafe, IsSoundLoad, ReturnsSafe, others-IsQuiet,
  fire_plain-IsQuiet, outcome-EndsSafe, >>>-EndsSafe, when-EndsSafe, reload_from-EndsSafe,
  do_radvd_sighup-IsSafe, do_reconcile-IsSafe,
}
use uplinkmgr.Daemon.Cycle.{run_cycle-IsSafe}
use uplinkmgr.Daemon.Machine.{Daemon, fire_plain, shutdown_hooks}
use uplinkmgr.Daemon.Handlers.{
  Env, Outcome, done, raised, lost, do_reload, handle_requests, cycle_if_due, iterate, new_daemon,
  asks_dhcpcd, boot, cleanup, handle_term, handle_hup, handle_usr1, handle_usr2, Input, term, hup,
  usr1, usr2, round, deliver, run, finish_with, lifetime,
}

-- Loading is sound in every round.
abbrev pub AreSound : List Input → Type 0
AreSound [] = Unit
AreSound (round env ∷ inputs) = IsSoundLoad env.loaded × AreSound inputs
AreSound (_ ∷ inputs) = AreSound inputs

-- The call returns, and nothing is left in place.
abbrev pub LeavesNothing : Option Daemon → Type 0
LeavesNothing o = (d' : Daemon) × (o ≡ some d') × ((k : Place) → held k d'.trace ≡ 0)

module _ (addresses : Ipaddress) where
  -- A round of the loop, from a safe state and with sound loading, never fails in the middle of a
  -- loop over the uplinks or networks, and ends, normally or by an exception of the loading, in a
  -- safe state: at every place the commands so far leave exactly what is recorded.
  pub iterate-EndsSafe :
      (env : Env) (d : Daemon)
      → IsSoundLoad env.loaded
      → IsSafe d
      → EndsSafe (iterate addresses env d)
  unfolding iterate handle_requests cycle_if_due do_reload
  iterate-EndsSafe env d sound s =
      >>>-EndsSafe _ _
        (>>>-EndsSafe _ _
          (>>>-EndsSafe _ _
            (when-EndsSafe d.reload_requested _ d
              (λ x sx.
                let asked : Daemon = record x { reload_requested = false } in
                reload_from-EndsSafe addresses env env.loaded asked sound
                  (IsQuiet-IsSafe x asked (others-IsQuiet x asked) sx))
              s)
            (λ d1 s1.
              when-EndsSafe d1.radvd_sighup_requested _ d1
                (λ x sx. outcome-EndsSafe _ (do_radvd_sighup-IsSafe addresses env x sx)) s1))
          (λ d2 s2.
            when-EndsSafe d2.reconcile_requested _ d2
              (λ x sx. outcome-EndsSafe _ (do_reconcile-IsSafe addresses env x sx)) s2))
        (λ d3 s3.
          when-EndsSafe _ _ d3
            (λ x sx.
              let probed : Daemon = record x { last_probe = some env.mono } in
              outcome-EndsSafe _ (
                run_cycle-IsSafe addresses env probed
                  (IsQuiet-IsSafe x probed (others-IsQuiet x probed) sx)))
            s3)

  -- A signal changes none of what the account depends on.
  deliver-EndsSafe :
      (input : Input) (d : Daemon)
      → AreSound (input ∷ [])
      → IsSafe d
      → EndsSafe (deliver addresses input d)
  unfolding deliver handle_term handle_hup handle_usr1 handle_usr2
  deliver-EndsSafe term d sound s = IsQuiet-IsSafe d _ (others-IsQuiet d (handle_term d)) s
  deliver-EndsSafe hup d sound s = IsQuiet-IsSafe d _ (others-IsQuiet d (handle_hup d)) s
  deliver-EndsSafe usr1 d sound s = IsQuiet-IsSafe d _ (others-IsQuiet d (handle_usr1 d)) s
  deliver-EndsSafe usr2 d sound s = IsQuiet-IsSafe d _ (others-IsQuiet d (handle_usr2 d)) s
  deliver-EndsSafe (round env) d sound s =
      if_keeps EndsSafe d.running (iterate-EndsSafe env d sound.0 s) s

  first_sound :
      (input : Input) (inputs : List Input)
      → AreSound (input ∷ inputs)
      → AreSound (input ∷ []) × AreSound inputs
  first_sound term inputs sound = (tt, sound)
  first_sound hup inputs sound = (tt, sound)
  first_sound usr1 inputs sound = (tt, sound)
  first_sound usr2 inputs sound = (tt, sound)
  first_sound (round env) inputs sound = ((sound.0, tt), sound.1)

  -- Any sequence of signals and rounds ends in a safe state.
  pub run-EndsSafe :
      (inputs : List Input) (d : Daemon)
      → AreSound inputs
      → IsSafe d
      → EndsSafe (run addresses inputs d)
  unfolding run
  run-EndsSafe [] d sound s = s
  run-EndsSafe (input ∷ inputs) d sound s =
      let (here, later) = first_sound input inputs sound in
      >>>-EndsSafe (deliver addresses input d) (run addresses inputs)
        (deliver-EndsSafe input d here s) (λ d' s'. run-EndsSafe inputs d' later s')

  -- The daemon before it has done anything.
  asks_dhcpcd-IsBare :
      (env : Env) (cfg : Config) (d : Daemon)
      → IsBare cfg d
      → IsBare cfg (asks_dhcpcd addresses env d)
  asks_dhcpcd-IsBare env cfg d bare =
      if_keeps (IsBare cfg) env.dhcpcd_runs
        (record {
          config = bare.config;
          no_rules4 = bare.no_rules4;
          no_rule6 = bare.no_rule6;
          empty = bare.empty;
        })
        bare

  boot-IsSafe :
      (env : Env) (cfg : Config) → IsValid cfg → IsNamed cfg → ReturnsSafe (boot addresses env cfg)
  unfolding boot
  boot-IsSafe env cfg valid named =
      let fresh : IsBare cfg (new_daemon cfg) = record {
        config = refl;
        no_rules4 = refl;
        no_rule6 = refl;
        empty = λ k. refl;
      } in
      let (d, e, b) =
        bring_up-IsBooked cfg valid named env.files env.now cfg
          (asks_dhcpcd addresses env (new_daemon cfg))
          (asks_dhcpcd-IsBare env cfg (new_daemon cfg) fresh) in
      (
        fire_plain (text "daemon-start") d,
        rw e refl,
        IsQuiet-IsSafe d (fire_plain (text "daemon-start") d)
            (fire_plain-IsQuiet (text "daemon-start") d) (IsSafe-of cfg valid named d b),
      )

  cleanup-LeavesNothing :
      (env : Env) (d : Daemon) → IsSafe d → LeavesNothing (cleanup addresses env d)
  unfolding cleanup
  cleanup-LeavesNothing env d s =
      let (torn, e, bare) = teardown_all-IsBare d.cfg s.valid s.named d s.booked in
      let (t, e', h) =
        regenerate_all-held addresses torn.cfg initial env.now
          (subst IsNamed (sym bare.config) s.named) (read_ipv6ra_state env.files)
          (read_ipv6pd_state env.files) sighup torn.trace in
      (
        shutdown_hooks (fire_plain (text "daemon-stop") (record torn { trace = t })),
        rw (e, e') refl,
        λ k. h k ∙ bare.empty k,
      )

  finish-LeavesNothing :
      (env : Env) (o : Outcome) → EndsSafe o → LeavesNothing (finish_with addresses env o)
  unfolding finish_with
  finish-LeavesNothing env (done d) s = cleanup-LeavesNothing env d s
  finish-LeavesNothing env (raised d) s = cleanup-LeavesNothing env d s
  finish-LeavesNothing env lost s = absurd s

  -- From its start with a valid configuration, through any sequence of signals and rounds of the
  -- loop, whatever the state files, clocks, pings and loaded configurations are then, the daemon
  -- comes to its end, also after an exception of the loading, and leaves no rule and no route in
  -- place: at no priority and in no table. Configurations are taken to be valid, each network
  -- having a macvlan name of its own for every uplink.
  pub lifetime-LeavesNothing :
      (first : Env) (cfg : Config) (inputs : List Input) (last : Env)
      → IsValid cfg
      → IsNamed cfg
      → AreSound inputs
      → LeavesNothing (lifetime addresses first cfg inputs last)
  unfolding lifetime
  lifetime-LeavesNothing first cfg inputs last valid named sound =
      let (d, e, s) = boot-IsSafe first cfg valid named in
      rw e (finish-LeavesNothing last (run addresses inputs d) (run-EndsSafe inputs d sound s))
