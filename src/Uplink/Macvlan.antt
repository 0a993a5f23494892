-- ===== src/Uplink/Macvlan.antt =====
-- The rules of the macvlan interfaces of one uplink (daemon.py).
use uplinkmgr.Prelude.{
  ℕ, suc, List, [], ◌∷◌, ◌&&◌, not, Option, none, some, Text, lookup, insert, delete, has_key,
  contains, add, discard, eqb_option, if◌then◌else◌,
}
use uplinkmgr.Config.{Config, NetworkConfig, UplinkConfig}
use uplinkmgr.State.{Ipv6PdState, ◌>>=◌}
use uplinkmgr.Naming.{ipv6_table_num, macvlan_name}
use uplinkmgr.Priority.{ipv6_fwd_to_uplink_priority, ipv6_reject_wrong_pd_src_priority}
use uplinkmgr.Routing.{
  add_ipv6_fwd_to_uplink_rule, add_ipv6_reject_wrong_pd_src_rule, del_ipv6_rule,
}
use uplinkmgr.Uplink.View.{UplinkRouting, View, emit, with_installed}
use uplinkmgr.Uplink.Ipv6.{delegated_text}

-- installed.macvlan_fwd.get(mv): a missing key and a stored None both give None.
abbrev pub fwd_of : Text → UplinkRouting → Option Text
fwd_of mv r = lookup mv r.macvlan_fwd >>= λ prefix. prefix

module _ (cfg : Config) (uplink : UplinkConfig) where
  -- The body of the loop of `_reconcile_macvlan_rules`, for the name of one macvlan.
  unfoldable pub reconcile_fwd : Option Text → ℕ → Text → View → View
  unfolding add_ipv6_fwd_to_uplink_rule del_ipv6_rule
  reconcile_fwd delegated net_idx mv v =
      let tbl = ipv6_table_num cfg.routing_table_start uplink.index in
      let fwd_prio = ipv6_fwd_to_uplink_priority cfg uplink.index net_idx in
      if eqb_option (fwd_of mv v.installed) delegated
      then v
      else with_installed
          (record v.installed { macvlan_fwd = insert mv delegated v.installed.macvlan_fwd })
          (emit (add_ipv6_fwd_to_uplink_rule mv tbl fwd_prio delegated)
            (emit (del_ipv6_rule fwd_prio) v))

  unfoldable pub reconcile_prohibit : ℕ → Text → View → View
  unfolding add_ipv6_reject_wrong_pd_src_rule
  reconcile_prohibit net_idx mv v =
      let prio = ipv6_reject_wrong_pd_src_priority cfg uplink.index net_idx in
      if cfg.reject_wrong_pd_src && not (contains mv v.installed.macvlan_prohibit)
      then with_installed
          (record v.installed { macvlan_prohibit = add mv v.installed.macvlan_prohibit })
          (emit (add_ipv6_reject_wrong_pd_src_rule mv prio) v)
      else v

  unfoldable pub reconcile_macvlan : Option Text → ℕ → Text → View → View
  unfolding reconcile_fwd reconcile_prohibit
  reconcile_macvlan delegated net_idx mv v =
      reconcile_prohibit net_idx mv (reconcile_fwd delegated net_idx mv v)

  unfoldable pub teardown_prohibit : ℕ → Text → View → View
  unfolding del_ipv6_rule
  teardown_prohibit net_idx mv v =
      if contains mv v.installed.macvlan_prohibit
      then with_installed
          (record v.installed { macvlan_prohibit = discard mv v.installed.macvlan_prohibit })
          (emit (del_ipv6_rule (ipv6_reject_wrong_pd_src_priority cfg uplink.index net_idx)) v)
      else v

  unfoldable pub teardown_fwd : ℕ → Text → View → View
  unfolding del_ipv6_rule
  teardown_fwd net_idx mv v =
      if has_key mv v.installed.macvlan_fwd
      then with_installed (record v.installed { macvlan_fwd = delete mv v.installed.macvlan_fwd })
          (emit (del_ipv6_rule (ipv6_fwd_to_uplink_priority cfg uplink.index net_idx)) v)
      else v

  unfoldable pub teardown_macvlan : ℕ → Text → View → View
  unfolding teardown_fwd teardown_prohibit
  teardown_macvlan net_idx mv v = teardown_prohibit net_idx mv (teardown_fwd net_idx mv v)

  unfoldable pub setup_macvlan : ℕ → Text → View → View
  unfolding add_ipv6_fwd_to_uplink_rule
  setup_macvlan net_idx mv v =
      let tbl = ipv6_table_num cfg.routing_table_start uplink.index in
      let fwd_prio = ipv6_fwd_to_uplink_priority cfg uplink.index net_idx in
      with_installed (record v.installed { macvlan_fwd = insert mv none v.installed.macvlan_fwd })
        (emit (add_ipv6_fwd_to_uplink_rule mv tbl fwd_prio none) v)

  -- `for net_idx, net in enumerate(cfg.networks)`, with the macvlan's name; `none` where
  -- `macvlan_name` raises.
  unfoldable pub for_macvlans :
      (ℕ → Text → View → View) → ℕ → List NetworkConfig → View → Option View
  for_macvlans body net_idx [] v = some v
  for_macvlans body net_idx (net ∷ nets) v = macvlan_name net.interface uplink.index >>= λ mv.
      for_macvlans body (suc net_idx) nets (body net_idx mv v)

  unfoldable pub reconcile_macvlan_rules : Ipv6PdState → View → Option View
  unfolding reconcile_macvlan for_macvlans
  reconcile_macvlan_rules pd v =
      let delegated = if cfg.reject_wrong_pd_src then some (delegated_text pd) else none in
      for_macvlans (reconcile_macvlan delegated) 0 cfg.networks v

  unfoldable pub teardown_macvlan_prohibit_rules : View → Option View
  unfolding teardown_prohibit for_macvlans
  teardown_macvlan_prohibit_rules v = for_macvlans teardown_prohibit 0 cfg.networks v

  unfoldable pub teardown_macvlan_rules : View → Option View
  unfolding teardown_macvlan for_macvlans
  teardown_macvlan_rules v = for_macvlans teardown_macvlan 0 cfg.networks v

  -- `_setup_ipv6_macvlan_rules`, for one uplink.
  unfoldable pub setup_macvlan_rules : View → Option View
  unfolding setup_macvlan for_macvlans
  setup_macvlan_rules v =
      if uplink.ipv6_pd then for_macvlans setup_macvlan 0 cfg.networks v else some v
