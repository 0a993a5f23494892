-- ===== src/Uplink/Ipv6.antt =====
-- The IPv6 route and lo_to_uplink rules of one uplink (daemon.py).
use uplinkmgr.Prelude.{
  ◌++◌, true, false, Option, none, some, Text, text, is_some, is_nonempty, eqb_option, ℤ,
  if◌then◌else◌,
}
use uplinkmgr.Prelude.Decimal.{str_ℤ}
use uplinkmgr.Config.{Config, UplinkConfig}
use uplinkmgr.StateMachine.{LinkState, up, down, is_up}
use uplinkmgr.State.{Ipv6RaState, Ipv6NaState, Ipv6PdState, remaining_lifetime}
use uplinkmgr.Naming.{ipv6_table_num}
use uplinkmgr.Priority.{ipv6_lo_to_uplink_priority, ipv6_pd_lo_to_uplink_priority}
use uplinkmgr.Routing.{
  replace_ipv6_route, del_ipv6_route, add_ipv6_lo_to_uplink_rule, del_ipv6_rule,
}
use uplinkmgr.Uplink.View.{View, emit, with_installed, map_option}

-- f"{address}/{length}"
abbrev pub slash : Text → Text → Text
slash address len = address ++ text "/" ++ len

-- The source of locally generated packets, by how the uplink has its address.
abbrev pub wanted_prefix6 : LinkState → Option Ipv6RaState → Option Ipv6NaState → Option Text
wanted_prefix6 down ra_st na_st = none
wanted_prefix6 up ra_st (some na) = some (slash na.address (text "128"))
wanted_prefix6 up (some ra) none =
    if is_nonempty ra.prefix
    then some (slash ra.prefix (str_ℤ ra.plen))
    else if is_nonempty ra.address
    then some (slash ra.address (text "128"))
    else none
wanted_prefix6 up none none = none

-- f"{delegated_prefix}/{delegated_length}"
abbrev pub delegated_text : Ipv6PdState → Text
delegated_text pd = slash pd.delegated_prefix (str_ℤ pd.delegated_length)

abbrev pub wanted_pd_prefix6 : LinkState → Option Ipv6PdState → Option Text
wanted_pd_prefix6 health pd_st = if is_up health then map_option delegated_text pd_st else none

module _ (cfg : Config) (uplink : UplinkConfig) where
  -- The IPv6 default route: replaced on every call, to refresh its expiry.
  unfoldable pub reconcile_route6 : ℤ → Option Ipv6RaState → View → View
  unfolding replace_ipv6_route del_ipv6_route
  reconcile_route6 now ra_st v =
      let tbl = ipv6_table_num cfg.routing_table_start uplink.index in
      elim ra_st [
        | some ra ↦
            with_installed (record v.installed { ipv6_route_installed = true })
              (emit
                (replace_ipv6_route ra.gateway uplink.interface tbl ra.lifetime
                  (remaining_lifetime ra now))
                v)
        | none ↦
            if v.installed.ipv6_route_installed
            then with_installed (record v.installed { ipv6_route_installed = false })
                (emit (del_ipv6_route uplink.interface tbl) v)
            else v
      ]

  -- Takes the rule at the priority away if there is one, and adds the one that is wanted.
  unfoldable pub replace_lo_rule6 : ℤ → Option Text → Option Text → View → View
  unfolding add_ipv6_lo_to_uplink_rule del_ipv6_rule
  replace_lo_rule6 prio old new v =
      let tbl = ipv6_table_num cfg.routing_table_start uplink.index in
      let cleared : View = elim old [ some p ↦ emit (del_ipv6_rule prio) v | none ↦ v ] in
      elim new [ some p ↦ emit (add_ipv6_lo_to_uplink_rule p tbl prio) cleared | none ↦ cleared ]

  unfoldable pub reconcile_lo6 : Option Text → View → View
  unfolding replace_lo_rule6
  reconcile_lo6 uplink_prefix v =
      let old = v.installed.lo_to_uplink_prefix in
      let prio = ipv6_lo_to_uplink_priority cfg uplink.index in
      if eqb_option uplink_prefix old
      then v
      else with_installed (record v.installed { lo_to_uplink_prefix = uplink_prefix })
          (replace_lo_rule6 prio old uplink_prefix v)

  unfoldable pub reconcile_pd6 : Option Text → View → View
  unfolding replace_lo_rule6
  reconcile_pd6 pd_prefix v =
      let old = v.installed.pd_lo_to_uplink_prefix in
      let prio = ipv6_pd_lo_to_uplink_priority cfg uplink.index in
      if eqb_option pd_prefix old
      then v
      else with_installed (record v.installed { pd_lo_to_uplink_prefix = pd_prefix })
          (replace_lo_rule6 prio old pd_prefix v)

  unfoldable pub teardown_ipv6 : View → View
  unfolding del_ipv6_route del_ipv6_rule
  teardown_ipv6 v =
      let ipv6_tbl = ipv6_table_num cfg.routing_table_start uplink.index in
      let unrouted : View =
        if v.installed.ipv6_route_installed
        then with_installed (record v.installed { ipv6_route_installed = false })
            (emit (del_ipv6_route uplink.interface ipv6_tbl) v)
        else v in
      let unsourced : View =
        if is_some unrouted.installed.lo_to_uplink_prefix
        then with_installed (record unrouted.installed { lo_to_uplink_prefix = none })
            (emit (del_ipv6_rule (ipv6_lo_to_uplink_priority cfg uplink.index)) unrouted)
        else unrouted in
      if is_some unsourced.installed.pd_lo_to_uplink_prefix
      then with_installed (record unsourced.installed { pd_lo_to_uplink_prefix = none })
          (emit (del_ipv6_rule (ipv6_pd_lo_to_uplink_priority cfg uplink.index)) unsourced)
      else unsourced
