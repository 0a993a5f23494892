-- ===== src/Daemon/Handlers.antt =====
-- The handlers of the daemon and its loop (src/uplinkmgr/daemon.py). The state files, the clock and
-- the answers of the network do not change while one round of the loop runs.
use uplinkmgr.Prelude.{
  List, [], ◌∷◌, Bool, true, false, ◌||◌, Option, none, some, Text, text, ℤ, pos, ◌-ℤ◌, ◌*ℤ◌, leb_ℤ,
  if◌then◌else◌,
}
use uplinkmgr.Config.{Config, UplinkConfig}
use uplinkmgr.Config.Yaml.{Result, ok, err, die, value_error, type_error, ill_typed}
use uplinkmgr.StateMachine.{UplinkState, Family, ipv4, ipv6, initial, link_of, update}
use uplinkmgr.State.{
  Files, Ipv6NaState, read_ipv6na_state, read_ipv6ra_state, read_ipv6pd_state, ◌>>=◌,
}
use uplinkmgr.Effect.{dhcpcd}
use uplinkmgr.Monitor.{Ping, probe_ipv4, probe_ipv6}
use uplinkmgr.Radvd.{Ipaddress, sighup, write, regenerate_all}
use uplinkmgr.Uplink.View.{fire_wan_event, map_option, nothing_installed}
use uplinkmgr.Daemon.{min_gw_remaining}
use uplinkmgr.Daemon.Machine.{
  Daemon, view_of, put_view, reconcile_one4, reconcile_one6, reconcile_all, teardown_all,
  update_primaries, fire_plain, shutdown_hooks, regenerate, bring_up,
}

-- What the outside holds during one round: the state files, `time.time()`, `time.monotonic()` in
-- nanoseconds, the answers to the pings of each uplink, what loading the configuration gives, and
-- whether dhcpcd runs.
pub record Env : Type 0 where
  pub files : Files
  pub now : ℤ
  pub mono : ℤ
  pub ping : Text → Ping
  pub loaded : Result Config
  pub dhcpcd_runs : Bool

-- How a handler ends. `raised` is an exception that leaves the state as it is written. After `lost`
-- the state is not followed: a ValueError of `macvlan_name` in the middle of a loop, or a
-- configuration with a host that is no text.
pub data Outcome : Type 0 where
  done raised : Daemon → Outcome
  lost : Outcome

infixl 5 ◌>>>◌
abbrev pub ◌>>>◌ : Outcome → (Daemon → Outcome) → Outcome
done d >>> f = f d
raised d >>> f = raised d
lost >>> f = lost

abbrev pub outcome : Option Daemon → Outcome
outcome none = lost
outcome (some d) = done d

-- if b: f()
abbrev pub when : Bool → (Daemon → Outcome) → Daemon → Outcome
when true f d = f d
when false f d = done d

abbrev pub nanoseconds : ℤ → ℤ
nanoseconds seconds = seconds *ℤ pos 1000000000

-- min_remaining is not None and min_remaining <= min_interval
abbrev is_urgent : Option ℤ → ℤ → Bool
is_urgent none min_interval = false
is_urgent (some remaining) min_interval = leb_ℤ remaining min_interval

abbrev has_ipv6 : UplinkConfig → Bool
has_ipv6 u = u.ipv6_pd || u.ia_na

-- The fields that `__init__` sets; `run` replaces its configuration, which is None, at once.
abbrev pub new_daemon : Config → Daemon
new_daemon cfg = record {
  cfg = cfg;
  states = initial;
  installed = λ name. nothing_installed;
  ipv4_rules_installed = false;
  ipv6_rule_installed = false;
  reload_requested = false;
  reconcile_requested = false;
  radvd_sighup_requested = false;
  last_radvd_sighup = pos 0;
  last_probe = none;
  running = true;
  primary_ipv4 = none;
  primary_ipv6 = none;
  hook_timeout = cfg.hook_timeout;
  trace = [];
}

module _ (addresses : Ipaddress) (env : Env) where
  -- From the old rules being gone.
  unfoldable pub reload_with : Config → Daemon → Option Daemon
  unfolding teardown_all bring_up
  reload_with cfg d = teardown_all d >>= λ torn. bring_up env.files env.now cfg torn >>= λ d'.
      some (fire_plain (text "reload") (record d' { last_probe = none }))

  -- Only SystemExit is caught.
  unfoldable pub reload_from : Result Config → Daemon → Outcome
  unfolding reload_with
  reload_from (ok cfg) d = outcome (reload_with cfg d)
  reload_from (err (die complaint)) d = done d
  reload_from (err ill_typed) d = lost
  reload_from (err value_error) d = raised d
  reload_from (err type_error) d = raised d

  unfoldable pub do_reload : Daemon → Outcome
  unfolding reload_from
  do_reload d = reload_from env.loaded (record d { reload_requested = false })

  unfoldable pub do_radvd_sighup : Daemon → Option Daemon
  unfolding regenerate
  do_radvd_sighup d =
      regenerate addresses env.files env.now sighup (record d { radvd_sighup_requested = false })
      >>= λ d'. some (record d' { last_radvd_sighup = env.mono })

  -- Whether `_do_reconcile` signals radvd.
  unfoldable pub signals_radvd : Daemon → Bool
  unfolding min_gw_remaining
  signals_radvd d =
      let min_interval = d.cfg.radvd_min_restart_interval in
      let min_remaining = min_gw_remaining d.cfg env.now (read_ipv6ra_state env.files) in
      leb_ℤ (nanoseconds min_interval) (env.mono -ℤ d.last_radvd_sighup)
      || is_urgent min_remaining min_interval

  unfoldable pub do_reconcile : Daemon → Option Daemon
  unfolding reconcile_all update_primaries signals_radvd regenerate
  do_reconcile d =
      reconcile_all env.files env.now (record d { reconcile_requested = false }) >>= λ reconciled.
      let d' = update_primaries reconciled in
      if signals_radvd d'
      then (regenerate addresses env.files env.now sighup d' >>= λ d''.
          some (record d'' { last_radvd_sighup = env.mono }))
      else regenerate addresses env.files env.now write d'

  abbrev address_of : Option Ipv6NaState → Option Text
  address_of st = map_option (λ s. s.address) st

  -- ipv4_ok, ipv6_ok and ipv6_probe_enabled
  unfoldable pub probe_uplink : Config → UplinkConfig → Bool × Bool × Bool
  unfolding probe_ipv4 probe_ipv6
  probe_uplink cfg u =
      let count = cfg.monitor.ping_count in
      let ipv4_ok = (probe_ipv4 (env.ping u.name) u.interface cfg.monitor.v4_hosts count).0 in
      let ipv6_addr = address_of (read_ipv6na_state env.files u.name) in
      let ipv6_ok =
        (probe_ipv6 (env.ping u.name) u.interface cfg.monitor.v6_hosts count ipv6_addr).0 in
      (ipv4_ok, (if has_ipv6 u then ipv6_ok else true), has_ipv6 u)

  -- The entry of `_states` after `sm_update`, ipv4_changed and ipv6_changed.
  unfoldable pub judge : Config → UplinkConfig → UplinkState → UplinkState × Bool × Bool
  unfolding probe_uplink update
  judge cfg u st =
      let (ipv4_ok, ipv6_ok, enabled) = probe_uplink cfg u in
      update cfg.monitor.failure_threshold cfg.monitor.recovery_threshold st ipv4_ok ipv6_ok enabled

  abbrev pub announce : Family → UplinkConfig → Daemon → Daemon
  announce family u d =
      let v = view_of d u in
      let st = d.states u.name in
      put_view u (fire_wan_event env.files u family (link_of family st).state v) d

  unfoldable pub after_change4 : Bool → UplinkConfig → Daemon → Daemon
  unfolding reconcile_one4 fire_wan_event link_of
  after_change4 changed u d = if changed then announce ipv4 u (reconcile_one4 env.files u d) else d

  unfoldable pub after_change6 : Bool → UplinkConfig → Daemon → Option Daemon
  unfolding reconcile_one6 fire_wan_event link_of
  after_change6 changed u d =
      if changed
      then (reconcile_one6 env.files env.now u d >>= λ d'. some (announce ipv6 u d'))
      else some d

  -- The body of the loop of `_run_cycle`, and whether IPv6 has changed so far.
  unfoldable pub cycle_one : UplinkConfig → Bool × Daemon → Option (Bool × Daemon)
  unfolding judge after_change4 after_change6
  cycle_one u (any_ipv6_change, d) =
      let (st, ipv4_changed, ipv6_changed) = judge d.cfg u (d.states u.name) in
      let judged = put_view u (record (view_of d u) { health = st }) d in
      after_change6 ipv6_changed u (after_change4 ipv4_changed u judged) >>= λ d'.
      some (any_ipv6_change || ipv6_changed, d')

  unfoldable pub cycle_each : List UplinkConfig → Bool × Daemon → Option (Bool × Daemon)
  unfolding cycle_one
  cycle_each [] s = some s
  cycle_each (u ∷ uplinks) s = cycle_one u s >>= λ s'. cycle_each uplinks s'

  unfoldable pub run_cycle : Daemon → Option Daemon
  unfolding cycle_each regenerate update_primaries
  run_cycle d = cycle_each d.cfg.uplinks (false, d) >>= λ (any_ipv6_change, d').
      (if any_ipv6_change then regenerate addresses env.files env.now sighup d' else some d')
      >>= λ d''. some (update_primaries d'')

  -- Whether a cycle is due.
  unfoldable pub is_due : Daemon → Bool
  is_due d = elim d.last_probe [
    | none ↦ true
    | some last ↦ leb_ℤ (nanoseconds d.cfg.monitor.interval) (env.mono -ℤ last)
  ]

  -- The requests of the signals, in the order of `_loop`.
  unfoldable pub handle_requests : Daemon → Outcome
  unfolding do_reload do_radvd_sighup do_reconcile
  handle_requests d =
      when d.reload_requested do_reload d
      >>> (λ d1. when d1.radvd_sighup_requested (λ x. outcome (do_radvd_sighup x)) d1)
      >>> (λ d2. when d2.reconcile_requested (λ x. outcome (do_reconcile x)) d2)

  unfoldable pub cycle_if_due : Daemon → Outcome
  unfolding is_due run_cycle
  cycle_if_due d =
      when (is_due d) (λ x. outcome (run_cycle (record x { last_probe = some env.mono }))) d

  -- One round of `_loop`, without the sleep.
  unfoldable pub iterate : Daemon → Outcome
  unfolding handle_requests cycle_if_due
  iterate d = handle_requests d >>> cycle_if_due

  abbrev pub asks_dhcpcd : Daemon → Daemon
  asks_dhcpcd d =
      if env.dhcpcd_runs
      then record d { trace = dhcpcd (text "dhcpcd" ∷ text "-g" ∷ []) ∷ d.trace }
      else d

  -- `run` up to `_loop`, for the configuration that was loaded.
  unfoldable pub boot : Config → Option Daemon
  unfolding bring_up
  boot cfg = bring_up env.files env.now cfg (asks_dhcpcd (new_daemon cfg)) >>= λ d.
      some (fire_plain (text "daemon-start") d)

  -- `_cleanup`, less the end of the pool of probes and the removal of the PID file. radvd is told that
  -- every uplink is up.
  unfoldable pub cleanup : Daemon → Option Daemon
  unfolding teardown_all
  cleanup d = teardown_all d >>= λ torn.
      regenerate_all addresses torn.cfg initial env.now (read_ipv6ra_state env.files)
        (read_ipv6pd_state env.files) sighup torn.trace
      >>= λ trace.
          some (shutdown_hooks (fire_plain (text "daemon-stop") (record torn { trace = trace })))

-- The signal handlers.
unfoldable pub handle_term : Daemon → Daemon
handle_term d = record d { running = false }

unfoldable pub handle_hup : Daemon → Daemon
handle_hup d = record d { reload_requested = true }

unfoldable pub handle_usr1 : Daemon → Daemon
handle_usr1 d = record d { reconcile_requested = true }

unfoldable pub handle_usr2 : Daemon → Daemon
handle_usr2 d = record d { radvd_sighup_requested = true }

-- What happens to the running daemon: a signal, or a round of `_loop`.
pub data Input : Type 0 where
  term hup usr1 usr2 : Input
  round : Env → Input

module _ (addresses : Ipaddress) where
  unfoldable pub deliver : Input → Daemon → Outcome
  unfolding handle_term handle_hup handle_usr1 handle_usr2 iterate
  deliver term d = done (handle_term d)
  deliver hup d = done (handle_hup d)
  deliver usr1 d = done (handle_usr1 d)
  deliver usr2 d = done (handle_usr2 d)
  deliver (round env) d = if d.running then iterate addresses env d else done d

  unfoldable pub run : List Input → Daemon → Outcome
  unfolding deliver
  run [] d = done d
  run (input ∷ inputs) d = deliver input d >>> run inputs

  -- `finally: self._cleanup()`
  unfoldable pub finish_with : Env → Outcome → Option Daemon
  unfolding cleanup
  finish_with env (done d) = cleanup addresses env d
  finish_with env (raised d) = cleanup addresses env d
  finish_with env lost = none

  -- The whole of `run`, with what the outside holds at its start and at its end.
  unfoldable pub lifetime : Env → Config → List Input → Env → Option Daemon
  unfolding boot run finish_with
  lifetime first cfg inputs last = boot addresses first cfg >>= λ d. finish_with last (run inputs d)
