-- ===== src/Daemon/Frame.antt =====
-- What is done to one uplink leaves the places outside it alone.
use uplinkmgr.Prelude.{ℕ, ◌<◌, ◌≡◌, refl, false, Option, some, Text, get_elem?, length, ℤ, arith}
use uplinkmgr.Config.{Config, UplinkConfig}
use uplinkmgr.StateMachine.{Family}
use uplinkmgr.State.{Files, Ipv6RaState}
use uplinkmgr.Priority.Distinct.{lo4, lo6, fwd6, reject6, pd6}
use uplinkmgr.Uplink.View.{View, force_link_down}
use uplinkmgr.Uplink.Ipv4.{reconcile_route4, reconcile_rule4, teardown_ipv4}
use uplinkmgr.Uplink.Ipv6.{reconcile_route6, reconcile_lo6, reconcile_pd6, teardown_ipv6}
use uplinkmgr.Uplink.Macvlan.{
  reconcile_fwd, reconcile_prohibit, teardown_fwd, teardown_prohibit, setup_macvlan,
}
use uplinkmgr.Uplink.Ledger.{Place, same, held}
use uplinkmgr.Uplink.Places.{
  shared_route, own_route, ipv6_route, lo4_rule, lo6_rule, pd6_rule, fwd_rule, reject_rule,
  macvlan_at, macvlan_at-lt,
}
use uplinkmgr.Daemon.Slots.{IsOutside, rule4, rule6, route, shared4, own4, own6}

-- The place holds what it held.
abbrev pub IsFramed : Place → View → View → Type 0
IsFramed k before after = held k after.trace ≡ held k before.trace

module _ (cfg : Config) (u : UplinkConfig) (at : get_elem? cfg.uplinks u.index ≡ some u)
    (known : u.index < length cfg.uplinks) (k : Place) (out : IsOutside cfg u k) where
  not_shared : same k (shared_route cfg u) ≡ false
  not_shared = out (route shared4 u) at refl

  not_own : same k (own_route cfg u) ≡ false
  not_own = out (route own4 u) at refl

  not_route6 : same k (ipv6_route cfg u) ≡ false
  not_route6 = out (route own6 u) at refl

  not_lo4 : same k (lo4_rule cfg u) ≡ false
  not_lo4 = out (rule4 (lo4 u.index)) known refl

  not_lo6 : same k (lo6_rule cfg u) ≡ false
  not_lo6 = out (rule6 (lo6 u.index)) known refl

  not_pd6 : same k (pd6_rule cfg u) ≡ false
  not_pd6 = out (rule6 (pd6 u.index)) known refl

  pub force_link_down-IsFramed :
      (files : Files) (f : Family) (v : View) → IsFramed k v (force_link_down files u f v)
  unfolding force_link_down
  force_link_down-IsFramed files f v = refl

  pub reconcile_route4-IsFramed :
      (gw : Option Text) (v : View) → IsFramed k v (reconcile_route4 cfg u gw v)
  unfolding reconcile_route4
  reconcile_route4-IsFramed gw v = ground (arith, not_shared, not_own)

  pub reconcile_rule4-IsFramed :
      (addr : Option Text) (v : View) → IsFramed k v (reconcile_rule4 cfg u addr v)
  unfolding reconcile_rule4
  reconcile_rule4-IsFramed addr v = ground (arith, not_lo4)

  pub reconcile_route6-IsFramed :
      (now : ℤ) (ra_st : Option Ipv6RaState) (v : View)
      → IsFramed k v (reconcile_route6 cfg u now ra_st v)
  unfolding reconcile_route6
  reconcile_route6-IsFramed now ra_st v = ground (arith, not_route6)

  pub reconcile_lo6-IsFramed :
      (prefix : Option Text) (v : View) → IsFramed k v (reconcile_lo6 cfg u prefix v)
  unfolding reconcile_lo6
  reconcile_lo6-IsFramed prefix v = ground (arith, not_lo6)

  pub reconcile_pd6-IsFramed :
      (prefix : Option Text) (v : View) → IsFramed k v (reconcile_pd6 cfg u prefix v)
  unfolding reconcile_pd6
  reconcile_pd6-IsFramed prefix v = ground (arith, not_pd6)

  pub teardown_ipv4-IsFramed : (v : View) → IsFramed k v (teardown_ipv4 cfg u v)
  unfolding teardown_ipv4
  teardown_ipv4-IsFramed v = ground (arith, not_shared, not_own, not_lo4)

  pub teardown_ipv6-IsFramed : (v : View) → IsFramed k v (teardown_ipv6 cfg u v)
  unfolding teardown_ipv6
  teardown_ipv6-IsFramed v = ground (arith, not_route6, not_lo6, not_pd6)

  module _ (n : ℕ) (mv : Text) (named : macvlan_at cfg u n ≡ some mv) where
    not_fwd : same k (fwd_rule cfg u n) ≡ false
    not_fwd = out (rule6 (fwd6 u.index n)) (known, macvlan_at-lt cfg u n named) refl

    not_reject : same k (reject_rule cfg u n) ≡ false
    not_reject = out (rule6 (reject6 u.index n)) (known, macvlan_at-lt cfg u n named) refl

    pub reconcile_macvlan-IsFramed :
        (delegated : Option Text) (v : View)
        → IsFramed k v (reconcile_prohibit cfg u n mv (reconcile_fwd cfg u delegated n mv v))
    unfolding reconcile_fwd reconcile_prohibit
    reconcile_macvlan-IsFramed delegated v = ground (arith, not_fwd, not_reject)

    pub teardown_prohibit-IsFramed : (v : View) → IsFramed k v (teardown_prohibit cfg u n mv v)
    unfolding teardown_prohibit
    teardown_prohibit-IsFramed v = ground (arith, not_reject)

    pub teardown_macvlan-IsFramed :
        (v : View) → IsFramed k v (teardown_prohibit cfg u n mv (teardown_fwd cfg u n mv v))
    unfolding teardown_fwd teardown_prohibit
    teardown_macvlan-IsFramed v = ground (arith, not_fwd, not_reject)

    pub setup_macvlan-IsFramed : (v : View) → IsFramed k v (setup_macvlan cfg u n mv v)
    unfolding setup_macvlan
    setup_macvlan-IsFramed v = ground (arith, not_fwd)
