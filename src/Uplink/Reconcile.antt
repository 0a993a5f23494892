-- ===== src/Uplink/Reconcile.antt =====
-- The methods that reconcile, or tear down, all that concerns one uplink (daemon.py).
use uplinkmgr.Prelude.{◌&&◌, not, Option, none, some, is_some, ℤ, if◌then◌else◌}
use uplinkmgr.Config.{Config, UplinkConfig}
use uplinkmgr.StateMachine.{is_up, ipv4, ipv6}
use uplinkmgr.State.{
  Ipv6PdState, Files, read_ipv4_state, read_ipv6ra_state, read_ipv6na_state, read_ipv6pd_state,
}
use uplinkmgr.Uplink.View.{View}
use uplinkmgr.Uplink.View.{force_link_down}
use uplinkmgr.Uplink.Ipv4.{
  reconcile_route4, reconcile_rule4, wanted_gateway4, wanted_address4, teardown_ipv4,
}
use uplinkmgr.Uplink.Ipv6.{
  reconcile_route6, reconcile_lo6, reconcile_pd6, wanted_prefix6, wanted_pd_prefix6, teardown_ipv6,
}
use uplinkmgr.Uplink.Macvlan.{
  reconcile_macvlan_rules, teardown_macvlan_prohibit_rules, teardown_macvlan_rules,
}

module _ (cfg : Config) (files : Files) (uplink : UplinkConfig) where
  unfoldable pub reconcile_uplink_ipv4 : View → View
  unfolding reconcile_route4 reconcile_rule4 force_link_down
  reconcile_uplink_ipv4 v =
      let ipv4_st = read_ipv4_state files uplink.name in
      let v' =
        if not (is_some ipv4_st) && is_up v.health.ipv4
        then force_link_down files uplink ipv4 v
        else v in
      let routed = reconcile_route4 cfg uplink (wanted_gateway4 v'.health.ipv4 ipv4_st) v' in
      reconcile_rule4 cfg uplink (wanted_address4 v'.health.ipv4 ipv4_st) routed

  -- `_reconcile_uplink_ipv6`, up to the rules of the macvlans.
  unfoldable pub reconcile_sources6 : ℤ → View → View
  unfolding force_link_down reconcile_route6 reconcile_lo6 reconcile_pd6
  reconcile_sources6 now v =
      let ra_st = read_ipv6ra_state files uplink.name in
      let pd_st = read_ipv6pd_state files uplink.name in
      let na_st = read_ipv6na_state files uplink.name in
      let gone = not (is_some ra_st) && not (is_some pd_st) && not (is_some na_st) in
      let v' = if gone && is_up v.health.ipv6 then force_link_down files uplink ipv6 v else v in
      let health = v'.health.ipv6 in
      let routed = reconcile_route6 cfg uplink now ra_st v' in
      reconcile_pd6 cfg uplink (wanted_pd_prefix6 health pd_st)
        (reconcile_lo6 cfg uplink (wanted_prefix6 health ra_st na_st) routed)

  unfoldable pub reconcile_macvlans : Option Ipv6PdState → View → Option View
  unfolding reconcile_macvlan_rules teardown_macvlan_prohibit_rules
  reconcile_macvlans (some pd) v = reconcile_macvlan_rules cfg uplink pd v
  reconcile_macvlans none v = teardown_macvlan_prohibit_rules cfg uplink v

  unfoldable pub reconcile_uplink_ipv6 : ℤ → View → Option View
  unfolding reconcile_sources6 reconcile_macvlans
  reconcile_uplink_ipv6 now v =
      let all =
        reconcile_macvlans (read_ipv6pd_state files uplink.name) (reconcile_sources6 now v) in
      if not uplink.ipv6_pd && not uplink.ia_na then some v else all

module _ (cfg : Config) (uplink : UplinkConfig) where
  unfoldable pub teardown_uplink : View → Option View
  unfolding teardown_ipv4 teardown_ipv6 teardown_macvlan_rules
  teardown_uplink v =
      let v4 = teardown_ipv4 cfg uplink v in
      let all = teardown_macvlan_rules cfg uplink (teardown_ipv6 cfg uplink v4) in
      if not uplink.ipv6_pd && not uplink.ia_na then some v4 else all
