-- ===== src/Daemon/Machine.antt =====
-- The daemon's state, and what it does to all uplinks (src/uplinkmgr/daemon.py). `none` is a
-- ValueError of `macvlan_name` in the middle of a loop.
use uplinkmgr.Prelude.{List, [], ◌∷◌, Bool, true, false, Option, some, Text, ◌==◌, ℤ, if◌then◌else◌}
use uplinkmgr.Config.{Config, UplinkConfig}
use uplinkmgr.StateMachine.{UplinkState, initial}
use uplinkmgr.State.{Files, read_ipv6ra_state, read_ipv6pd_state, ◌>>=◌}
use uplinkmgr.Naming.{ipv4_table_num}
use uplinkmgr.Priority.{
  ipv4_internal_traffic_priority, ipv4_fwd_to_wan_priority, ipv6_internal_traffic_priority,
}
use uplinkmgr.Routing.{
  Command, add_ipv4_policy_rules, del_ipv4_policy_rules, add_ipv6_policy_rule, del_ipv6_policy_rule,
}
use uplinkmgr.Effect.{Event, ip, stop_hooks, fire, Trace}
use uplinkmgr.Uplink.View.{View, UplinkRouting, nothing_installed}
use uplinkmgr.Uplink.Macvlan.{setup_macvlan_rules}
use uplinkmgr.Uplink.Reconcile.{reconcile_uplink_ipv4, reconcile_uplink_ipv6, teardown_uplink}
use uplinkmgr.Radvd.{Ipaddress, RegenerateAction, regenerate_all}
use uplinkmgr.Daemon.{update_primary_uplinks}

-- `_states` and `_installed` have an entry for every uplink of the configuration, and are functions
-- of its name here. `last_radvd_sighup` and `last_probe` are monotonic times in nanoseconds, the
-- latter `none` for -inf.
pub record Daemon : Type 0 where
  pub cfg : Config
  pub states : Text → UplinkState
  pub installed : Text → UplinkRouting
  pub ipv4_rules_installed : Bool
  pub ipv6_rule_installed : Bool
  pub reload_requested : Bool
  pub reconcile_requested : Bool
  pub radvd_sighup_requested : Bool
  pub last_radvd_sighup : ℤ
  pub last_probe : Option ℤ
  pub running : Bool
  pub primary_ipv4 : Option Text
  pub primary_ipv6 : Option Text
  pub hook_timeout : ℤ
  pub trace : Trace

-- The entries of one uplink, and the daemon with others in their place.
abbrev pub view_of : Daemon → UplinkConfig → View
view_of d u = record { health = d.states u.name; installed = d.installed u.name; trace = d.trace }

abbrev pub set_at {ℓ} : {A : Type ℓ} → Text → A → (Text → A) → Text → A
set_at name a f n = if n == name then a else f n

abbrev pub put_view : UplinkConfig → View → Daemon → Daemon
put_view u v d = record d {
  states = set_at u.name v.health d.states;
  installed = set_at u.name v.installed d.installed;
  trace = v.trace;
}

-- A method of one uplink on the daemon.
abbrev pub on_uplink : (UplinkConfig → View → Option View) → UplinkConfig → Daemon → Option Daemon
on_uplink op u d = op u (view_of d u) >>= λ v. some (put_view u v d)

-- `for uplink in self._cfg.uplinks`
unfoldable pub for_uplinks :
    (UplinkConfig → Daemon → Option Daemon) → List UplinkConfig → Daemon → Option Daemon
for_uplinks body [] d = some d
for_uplinks body (u ∷ uplinks) d = body u d >>= λ d'. for_uplinks body uplinks d'

-- The commands in the order in which they are run.
abbrev pub run_commands : List Command → Trace → Trace
run_commands [] trace = trace
run_commands (c ∷ cs) trace = run_commands cs (ip c ∷ trace)

unfoldable pub setup_ipv4_rules : Daemon → Daemon
unfolding add_ipv4_policy_rules
setup_ipv4_rules d = record d {
  ipv4_rules_installed = true;
  trace =
      run_commands
        (add_ipv4_policy_rules (ipv4_internal_traffic_priority d.cfg)
          (ipv4_fwd_to_wan_priority d.cfg) (ipv4_table_num d.cfg.routing_table_start))
        d.trace;
}

unfoldable pub setup_ipv6_rules : Daemon → Daemon
unfolding add_ipv6_policy_rule
setup_ipv6_rules d = record d {
  ipv6_rule_installed = true;
  trace = ip (add_ipv6_policy_rule (ipv6_internal_traffic_priority d.cfg)) ∷ d.trace;
}

unfoldable pub setup_ipv6_macvlan_rules : Daemon → Option Daemon
unfolding for_uplinks
setup_ipv6_macvlan_rules d = for_uplinks (on_uplink (setup_macvlan_rules d.cfg)) d.cfg.uplinks d

unfoldable pub reconcile_one4 : Files → UplinkConfig → Daemon → Daemon
reconcile_one4 files u d = put_view u (reconcile_uplink_ipv4 d.cfg files u (view_of d u)) d

unfoldable pub reconcile_one6 : Files → ℤ → UplinkConfig → Daemon → Option Daemon
reconcile_one6 files now u d = on_uplink (λ w. reconcile_uplink_ipv6 d.cfg files w now) u d

unfoldable pub reconcile_all : Files → ℤ → Daemon → Option Daemon
unfolding for_uplinks reconcile_one4 reconcile_one6
reconcile_all files now d =
    for_uplinks (λ u d'. reconcile_one6 files now u (reconcile_one4 files u d')) d.cfg.uplinks d

-- The end of `_teardown_all`.
unfoldable pub teardown_policy4 : Daemon → Daemon
unfolding del_ipv4_policy_rules
teardown_policy4 d =
    if d.ipv4_rules_installed
    then record d {
      ipv4_rules_installed = false;
      trace =
          run_commands
            (del_ipv4_policy_rules (ipv4_internal_traffic_priority d.cfg)
              (ipv4_fwd_to_wan_priority d.cfg))
            d.trace;
    }
    else d

unfoldable pub teardown_policy6 : Daemon → Daemon
unfolding del_ipv6_policy_rule
teardown_policy6 d =
    if d.ipv6_rule_installed
    then record d {
      ipv6_rule_installed = false;
      trace = ip (del_ipv6_policy_rule (ipv6_internal_traffic_priority d.cfg)) ∷ d.trace;
    }
    else d

unfoldable pub teardown_all : Daemon → Option Daemon
unfolding for_uplinks teardown_policy4 teardown_policy6
teardown_all d = for_uplinks (on_uplink (teardown_uplink d.cfg)) d.cfg.uplinks d >>= λ d'.
    some (teardown_policy6 (teardown_policy4 d'))

unfoldable pub init_states : Daemon → Daemon
init_states d = record d { states = initial; installed = λ name. nothing_installed }

-- `_update_primary_uplinks` on the daemon's fields.
unfoldable pub update_primaries : Daemon → Daemon
update_primaries d =
    let p =
      update_primary_uplinks d.cfg d.states (record {
        primary_ipv4 = d.primary_ipv4;
        primary_ipv6 = d.primary_ipv6;
        trace = d.trace;
      }) in
    record d { primary_ipv4 = p.primary_ipv4; primary_ipv6 = p.primary_ipv6; trace = p.trace }

abbrev pub plain_event : Text → Event
plain_event name = record { event = name; uplink = []; env_extra = [] }

-- self._hooks.fire(name)
abbrev pub fire_plain : Text → Daemon → Daemon
fire_plain name d = record d { trace = fire (plain_event name) ∷ d.trace }

-- self._hooks.shutdown(timeout=self._hooks.timeout)
abbrev pub shutdown_hooks : Daemon → Daemon
shutdown_hooks d = record d { trace = stop_hooks ∷ d.trace }

module _ (addresses : Ipaddress) (files : Files) (now : ℤ) where
  unfoldable pub regenerate : RegenerateAction → Daemon → Option Daemon
  regenerate action d =
      regenerate_all addresses d.cfg d.states now (read_ipv6ra_state files)
        (read_ipv6pd_state files) action d.trace
      >>= λ trace. some (record d { trace = trace })

-- A new configuration, from the rules of the previous one being gone: what `run` and `_do_reload`
-- do alike.
unfoldable pub bring_up : Files → ℤ → Config → Daemon → Option Daemon
unfolding setup_ipv4_rules setup_ipv6_rules setup_ipv6_macvlan_rules reconcile_all init_states
    update_primaries
bring_up files now cfg d =
    let fresh = init_states (record d { cfg = cfg; hook_timeout = cfg.hook_timeout }) in
    setup_ipv6_macvlan_rules (setup_ipv6_rules (setup_ipv4_rules fresh)) >>= λ d'.
    reconcile_all files now d' >>= λ d''. some (update_primaries d'')
