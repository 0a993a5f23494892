-- ===== src/Uplink/Ipv4.antt =====
-- The IPv4 routes and rule of one uplink (daemon.py).
use uplinkmgr.Prelude.{Option, none, some, Text, is_some, eqb_option, pos, if◌then◌else◌}
use uplinkmgr.Config.{Config, UplinkConfig}
use uplinkmgr.StateMachine.{LinkState, is_up}
use uplinkmgr.State.{Ipv4State, ◌>>=◌}
use uplinkmgr.Naming.{ipv4_table_num, ipv6_table_num}
use uplinkmgr.Priority.{ipv4_lo_to_uplink_priority}
use uplinkmgr.Routing.{
  replace_ipv4_route, del_ipv4_route, add_ipv4_lo_to_uplink_rule, del_ipv4_rule,
}
use uplinkmgr.Uplink.View.{View, emit, with_installed, map_option, nonempty}

-- The gateway and the address that the lease and the health call for.
abbrev pub wanted_gateway4 : LinkState → Option Ipv4State → Option Text
wanted_gateway4 health st = if is_up health then map_option (λ s. s.gateway) st else none

abbrev pub wanted_address4 : LinkState → Option Ipv4State → Option Text
wanted_address4 health st = if is_up health then st >>= (λ s. nonempty s.address) else none

module _ (cfg : Config) (uplink : UplinkConfig) where
  -- The default routes of `_reconcile_uplink_ipv4`, for the gateway to have.
  unfoldable pub reconcile_route4 : Option Text → View → View
  unfolding replace_ipv4_route del_ipv4_route
  reconcile_route4 uplink_gw v =
      let shared_tbl = ipv4_table_num cfg.routing_table_start in
      let per_uplink_tbl = ipv6_table_num cfg.routing_table_start uplink.index in
      let moved : View = elim uplink_gw [
        | some gw ↦
            emit (replace_ipv4_route gw uplink.interface (pos 0) per_uplink_tbl)
              (emit (replace_ipv4_route gw uplink.interface uplink.metric shared_tbl) v)
        | none ↦
            emit (del_ipv4_route uplink.interface per_uplink_tbl)
              (emit (del_ipv4_route uplink.interface shared_tbl) v)
      ] in
      if eqb_option uplink_gw v.installed.ipv4_installed
      then v
      else with_installed (record v.installed { ipv4_installed = uplink_gw }) moved

  -- Its lo_to_uplink rule, for the address to have.
  unfoldable pub reconcile_rule4 : Option Text → View → View
  unfolding add_ipv4_lo_to_uplink_rule del_ipv4_rule
  reconcile_rule4 uplink_addr v =
      let per_uplink_tbl = ipv6_table_num cfg.routing_table_start uplink.index in
      let prio = ipv4_lo_to_uplink_priority cfg uplink.index in
      let cleared : View = elim v.installed.ipv4_lo_to_uplink_addr [
        | some old ↦ emit (del_ipv4_rule prio) v
        | none ↦ v
      ] in
      let moved : View = elim uplink_addr [
        | some addr ↦ emit (add_ipv4_lo_to_uplink_rule addr per_uplink_tbl prio) cleared
        | none ↦ cleared
      ] in
      if eqb_option uplink_addr v.installed.ipv4_lo_to_uplink_addr
      then v
      else with_installed (record v.installed { ipv4_lo_to_uplink_addr = uplink_addr }) moved

  -- The body of the loop of `_teardown_all`: the IPv4 part, and the rest.
  unfoldable pub teardown_ipv4 : View → View
  unfolding del_ipv4_route del_ipv4_rule
  teardown_ipv4 v =
      let ipv4_tbl = ipv4_table_num cfg.routing_table_start in
      let per_uplink_tbl = ipv6_table_num cfg.routing_table_start uplink.index in
      let unrouted : View =
        if is_some v.installed.ipv4_installed
        then with_installed (record v.installed { ipv4_installed = none })
            (emit (del_ipv4_route uplink.interface per_uplink_tbl)
              (emit (del_ipv4_route uplink.interface ipv4_tbl) v))
        else v in
      if is_some unrouted.installed.ipv4_lo_to_uplink_addr
      then with_installed (record unrouted.installed { ipv4_lo_to_uplink_addr = none })
          (emit (del_ipv4_rule (ipv4_lo_to_uplink_priority cfg uplink.index)) unrouted)
      else unrouted
