-- ===== src/Uplink/Accounts.antt =====
-- The routes and the lo_to_uplink rules: after each stage the trace leaves in place exactly what
-- `_UplinkRouting` records.
use uplinkmgr.Prelude.{◌<◌, Option, Text, eqb_option_iff, length, ℤ, arith}
use uplinkmgr.Config.{Config, UplinkConfig}
use uplinkmgr.StateMachine.{Family}
use uplinkmgr.State.{Files, Ipv6RaState}
use uplinkmgr.Uplink.View.{View, force_link_down}
use uplinkmgr.Uplink.Ipv4.{reconcile_route4, reconcile_rule4, teardown_ipv4}
use uplinkmgr.Uplink.Ipv6.{reconcile_route6, reconcile_lo6, reconcile_pd6, teardown_ipv6}
use uplinkmgr.Uplink.Ledger.{same_refl}
use uplinkmgr.Uplink.Apart.{
  lo6_not_pd6, pd6_not_lo6, fwd_not_lo6, fwd_not_pd6, reject_not_lo6, reject_not_pd6,
}
use uplinkmgr.Uplink.Places.{
  shared_route, own_route, ipv6_route, lo4_rule, lo6_rule, pd6_rule, IsAccounted,
}

module _ (cfg : Config) (uplink : UplinkConfig) (known : uplink.index < length cfg.uplinks) where
  pub force_link_down-IsAccounted :
      (files : Files) (f : Family) (v : View)
      → IsAccounted cfg uplink v
      → IsAccounted cfg uplink (force_link_down files uplink f v)
  unfolding force_link_down
  force_link_down-IsAccounted files f v a = record {
    shared = a.shared;
    own = a.own;
    lo4 = a.lo4;
    route6 = a.route6;
    lo6 = a.lo6;
    pd6 = a.pd6;
    fwd = a.fwd;
    reject = a.reject;
  }

  pub reconcile_route4-IsAccounted :
      (gw : Option Text) (v : View)
      → IsAccounted cfg uplink v
      → IsAccounted cfg uplink (reconcile_route4 cfg uplink gw v)
  unfolding reconcile_route4
  reconcile_route4-IsAccounted gw v a = record {
    shared = ground (
      arith,
      a.shared,
      same_refl (shared_route cfg uplink),
      eqb_option_iff gw v.installed.ipv4_installed,
    );
    own = ground (
      arith,
      a.own,
      same_refl (own_route cfg uplink),
      eqb_option_iff gw v.installed.ipv4_installed,
    );
    lo4 = ground (arith, a.lo4);
    route6 = ground (arith, a.route6);
    lo6 = ground (arith, a.lo6);
    pd6 = ground (arith, a.pd6);
    fwd = λ n mv at. ground (arith, a.fwd n mv at);
    reject = λ n mv at. ground (arith, a.reject n mv at);
  }

  pub reconcile_rule4-IsAccounted :
      (addr : Option Text) (v : View)
      → IsAccounted cfg uplink v
      → IsAccounted cfg uplink (reconcile_rule4 cfg uplink addr v)
  unfolding reconcile_rule4
  reconcile_rule4-IsAccounted addr v a = record {
    shared = ground (arith, a.shared);
    own = ground (arith, a.own);
    lo4 = ground (
      arith,
      a.lo4,
      same_refl (lo4_rule cfg uplink),
      eqb_option_iff addr v.installed.ipv4_lo_to_uplink_addr,
    );
    route6 = ground (arith, a.route6);
    lo6 = ground (arith, a.lo6);
    pd6 = ground (arith, a.pd6);
    fwd = λ n mv at. ground (arith, a.fwd n mv at);
    reject = λ n mv at. ground (arith, a.reject n mv at);
  }

  pub reconcile_route6-IsAccounted :
      (now : ℤ) (ra_st : Option Ipv6RaState) (v : View)
      → IsAccounted cfg uplink v
      → IsAccounted cfg uplink (reconcile_route6 cfg uplink now ra_st v)
  unfolding reconcile_route6
  reconcile_route6-IsAccounted now ra_st v a = record {
    shared = ground (arith, a.shared);
    own = ground (arith, a.own);
    lo4 = ground (arith, a.lo4);
    route6 = ground (arith, a.route6, same_refl (ipv6_route cfg uplink));
    lo6 = ground (arith, a.lo6);
    pd6 = ground (arith, a.pd6);
    fwd = λ n mv at. ground (arith, a.fwd n mv at);
    reject = λ n mv at. ground (arith, a.reject n mv at);
  }

  pub reconcile_lo6-IsAccounted :
      (prefix : Option Text) (v : View)
      → IsAccounted cfg uplink v
      → IsAccounted cfg uplink (reconcile_lo6 cfg uplink prefix v)
  unfolding reconcile_lo6
  reconcile_lo6-IsAccounted prefix v a = record {
    shared = ground (arith, a.shared);
    own = ground (arith, a.own);
    lo4 = ground (arith, a.lo4);
    route6 = ground (arith, a.route6);
    lo6 = ground (
      arith,
      a.lo6,
      same_refl (lo6_rule cfg uplink),
      eqb_option_iff prefix v.installed.lo_to_uplink_prefix,
    );
    pd6 = ground (arith, a.pd6, pd6_not_lo6 cfg uplink known);
    fwd = λ n mv at. ground (arith, a.fwd n mv at, fwd_not_lo6 cfg uplink known n at);
    reject = λ n mv at. ground (arith, a.reject n mv at, reject_not_lo6 cfg uplink known n at);
  }

  pub reconcile_pd6-IsAccounted :
      (prefix : Option Text) (v : View)
      → IsAccounted cfg uplink v
      → IsAccounted cfg uplink (reconcile_pd6 cfg uplink prefix v)
  unfolding reconcile_pd6
  reconcile_pd6-IsAccounted prefix v a = record {
    shared = ground (arith, a.shared);
    own = ground (arith, a.own);
    lo4 = ground (arith, a.lo4);
    route6 = ground (arith, a.route6);
    lo6 = ground (arith, a.lo6, lo6_not_pd6 cfg uplink known);
    pd6 = ground (
      arith,
      a.pd6,
      same_refl (pd6_rule cfg uplink),
      eqb_option_iff prefix v.installed.pd_lo_to_uplink_prefix,
    );
    fwd = λ n mv at. ground (arith, a.fwd n mv at, fwd_not_pd6 cfg uplink known n at);
    reject = λ n mv at. ground (arith, a.reject n mv at, reject_not_pd6 cfg uplink known n at);
  }

  pub teardown_ipv4-IsAccounted :
      (v : View) → IsAccounted cfg uplink v → IsAccounted cfg uplink (teardown_ipv4 cfg uplink v)
  unfolding teardown_ipv4
  teardown_ipv4-IsAccounted v a = record {
    shared = ground (arith, a.shared, same_refl (shared_route cfg uplink));
    own = ground (arith, a.own, same_refl (own_route cfg uplink));
    lo4 = ground (arith, a.lo4, same_refl (lo4_rule cfg uplink));
    route6 = ground (arith, a.route6);
    lo6 = ground (arith, a.lo6);
    pd6 = ground (arith, a.pd6);
    fwd = λ n mv at. ground (arith, a.fwd n mv at);
    reject = λ n mv at. ground (arith, a.reject n mv at);
  }

  pub teardown_ipv6-IsAccounted :
      (v : View) → IsAccounted cfg uplink v → IsAccounted cfg uplink (teardown_ipv6 cfg uplink v)
  unfolding teardown_ipv6
  teardown_ipv6-IsAccounted v a = record {
    shared = ground (arith, a.shared);
    own = ground (arith, a.own);
    lo4 = ground (arith, a.lo4);
    route6 = ground (arith, a.route6, same_refl (ipv6_route cfg uplink));
    lo6 = ground (arith, a.lo6, same_refl (lo6_rule cfg uplink), lo6_not_pd6 cfg uplink known);
    pd6 = ground (arith, a.pd6, same_refl (pd6_rule cfg uplink), pd6_not_lo6 cfg uplink known);
    fwd = λ n mv at. ground (
      arith,
      a.fwd n mv at,
      fwd_not_lo6 cfg uplink known n at,
      fwd_not_pd6 cfg uplink known n at,
    );
    reject = λ n mv at. ground (
      arith,
      a.reject n mv at,
      reject_not_lo6 cfg uplink known n at,
      reject_not_pd6 cfg uplink known n at,
    );
  }
