-- ===== src/Daemon/Frames.antt =====
-- The methods of one uplink leave the places outside it alone, and keep an uplink without IPv6 idle.
use uplinkmgr.Prelude.{
  ℕ, ◌<◌, ◌≡◌, refl, sym, ◌∙◌, subst, false, ◌&&◌, not, Bool-cases, inl, inr, Option, none, some,
  is_some, Text, get_elem?, length, ℤ, arith, if◌then◌else◌,
}
use uplinkmgr.Config.{Config, UplinkConfig}
use uplinkmgr.StateMachine.{is_up, ipv4, ipv6}
use uplinkmgr.State.{Files, Ipv6PdState, read_ipv6ra_state, read_ipv6pd_state, read_ipv6na_state}
use uplinkmgr.Uplink.View.{UplinkRouting, View, force_link_down}
use uplinkmgr.Uplink.Ipv4.{reconcile_route4, reconcile_rule4, teardown_ipv4}
use uplinkmgr.Uplink.Macvlan.{for_macvlans, setup_macvlan_rules}
use uplinkmgr.Uplink.Reconcile.{
  reconcile_uplink_ipv4, reconcile_uplink_ipv6, reconcile_sources6, reconcile_macvlans,
  teardown_uplink,
}
use uplinkmgr.Uplink.Ledger.{Place}
use uplinkmgr.Uplink.Places.{macvlan_at}
use uplinkmgr.Uplink.Loops.{HasMacvlans, for_macvlans_all}
use uplinkmgr.Uplink.Teardown.{IsIdle6}
use uplinkmgr.Uplink.Invariant.{if_keeps}
use uplinkmgr.Daemon.Slots.{IsOutside}
use uplinkmgr.Daemon.Frame.{
  IsFramed, reconcile_route4-IsFramed, reconcile_rule4-IsFramed, reconcile_route6-IsFramed,
  reconcile_lo6-IsFramed, reconcile_pd6-IsFramed, teardown_ipv4-IsFramed, teardown_ipv6-IsFramed,
  reconcile_macvlan-IsFramed, teardown_prohibit-IsFramed, teardown_macvlan-IsFramed,
  setup_macvlan-IsFramed,
}

-- The IPv6 entries are the same.
record HasSame6 (r r' : UplinkRouting) : Type 0 where
  route6 : r'.ipv6_route_installed ≡ r.ipv6_route_installed
  lo6 : r'.lo_to_uplink_prefix ≡ r.lo_to_uplink_prefix
  pd6 : r'.pd_lo_to_uplink_prefix ≡ r.pd_lo_to_uplink_prefix
  fwd : r'.macvlan_fwd ≡ r.macvlan_fwd
  prohibit : r'.macvlan_prohibit ≡ r.macvlan_prohibit

HasSame6-IsIdle6 :
    (u : UplinkConfig) (v v' : View)
    → HasSame6 v.installed v'.installed
    → IsIdle6 u v
    → IsIdle6 u v'
HasSame6-IsIdle6 u v v' s idle off =
    let (none6, macvlans) = idle off in
    (
      (s.route6 ∙ none6.0, s.lo6 ∙ none6.1, s.pd6 ∙ none6.2),
      λ mv. (rw s.fwd (macvlans mv).0, rw s.prohibit (macvlans mv).1),
    )

HasSame6-trans : {a b c : UplinkRouting} → HasSame6 a b → HasSame6 b c → HasSame6 a c
HasSame6-trans s t = record {
  route6 = t.route6 ∙ s.route6;
  lo6 = t.lo6 ∙ s.lo6;
  pd6 = t.pd6 ∙ s.pd6;
  fwd = t.fwd ∙ s.fwd;
  prohibit = t.prohibit ∙ s.prohibit;
}

HasSame6-refl : (r : UplinkRouting) → HasSame6 r r
HasSame6-refl r = record { route6 = refl; lo6 = refl; pd6 = refl; fwd = refl; prohibit = refl }

from_some : {a b : View} → some a ≡ some b → a ≡ b
from_some e = cc

module _ (cfg : Config) (u : UplinkConfig) where
  reconcile_route4-HasSame6 :
      (gw : Option Text) (v : View) → HasSame6 v.installed (reconcile_route4 cfg u gw v).installed
  unfolding reconcile_route4
  reconcile_route4-HasSame6 gw v = record {
    route6 = ground arith;
    lo6 = ground arith;
    pd6 = ground arith;
    fwd = ground arith;
    prohibit = ground arith;
  }

  reconcile_rule4-HasSame6 :
      (addr : Option Text) (v : View)
      → HasSame6 v.installed (reconcile_rule4 cfg u addr v).installed
  unfolding reconcile_rule4
  reconcile_rule4-HasSame6 addr v = record {
    route6 = ground arith;
    lo6 = ground arith;
    pd6 = ground arith;
    fwd = ground arith;
    prohibit = ground arith;
  }

  reconcile_uplink_ipv4-HasSame6 :
      (files : Files) (v : View)
      → HasSame6 v.installed (reconcile_uplink_ipv4 cfg files u v).installed
  unfolding reconcile_uplink_ipv4 force_link_down
  reconcile_uplink_ipv4-HasSame6 files v =
      HasSame6-trans
        (HasSame6-trans
          (if_keeps (λ w. HasSame6 v.installed w.installed) _ {x = force_link_down files u ipv4 v}
            {y = v} (HasSame6-refl v.installed) (HasSame6-refl v.installed))
          (reconcile_route4-HasSame6 _ _))
        (reconcile_rule4-HasSame6 _ _)

  pub reconcile_uplink_ipv4-IsIdle6 :
      (files : Files) (v : View) → IsIdle6 u v → IsIdle6 u (reconcile_uplink_ipv4 cfg files u v)
  reconcile_uplink_ipv4-IsIdle6 files v =
      HasSame6-IsIdle6 u v (reconcile_uplink_ipv4 cfg files u v)
        (reconcile_uplink_ipv4-HasSame6 files v)

  pub reconcile_uplink_ipv6-IsIdle6 :
      (files : Files) (now : ℤ) (v v' : View)
      → reconcile_uplink_ipv6 cfg files u now v ≡ some v'
      → IsIdle6 u v
      → IsIdle6 u v'
  unfolding reconcile_uplink_ipv6
  reconcile_uplink_ipv6-IsIdle6 files now v v' h idle off =
      let same : v ≡ v' = from_some (simp off at h) in rw (← same) (idle off)

  teardown_ipv4-HasSame6 : (v : View) → HasSame6 v.installed (teardown_ipv4 cfg u v).installed
  unfolding teardown_ipv4
  teardown_ipv4-HasSame6 v = record {
    route6 = ground arith;
    lo6 = ground arith;
    pd6 = ground arith;
    fwd = ground arith;
    prohibit = ground arith;
  }

  pub teardown_uplink-IsIdle6 :
      (v v' : View) → teardown_uplink cfg u v ≡ some v' → IsIdle6 u v → IsIdle6 u v'
  unfolding teardown_uplink
  teardown_uplink-IsIdle6 v v' h idle off =
      let same : teardown_ipv4 cfg u v ≡ v' = from_some (simp off at h) in
      HasSame6-IsIdle6 u v v'
        (subst (λ w. HasSame6 v.installed w.installed) same (teardown_ipv4-HasSame6 v)) idle off

  pub setup_macvlan_rules-IsIdle6 :
      (v v' : View) → setup_macvlan_rules cfg u v ≡ some v' → IsIdle6 u v → IsIdle6 u v'
  unfolding setup_macvlan_rules
  setup_macvlan_rules-IsIdle6 v v' h idle off =
      let none_delegated : u.ipv6_pd ≡ false = ground (arith, off) in
      let same : v ≡ v' = from_some (simp none_delegated at h) in rw (← same) (idle off)

module _ (cfg : Config) (u : UplinkConfig) (at : get_elem? cfg.uplinks u.index ≡ some u)
    (known : u.index < length cfg.uplinks) (named : HasMacvlans cfg u) (k : Place)
    (out : IsOutside cfg u k) where
  pub reconcile_uplink_ipv4-IsFramed :
      (files : Files) (v : View) → IsFramed k v (reconcile_uplink_ipv4 cfg files u v)
  unfolding reconcile_uplink_ipv4 force_link_down
  reconcile_uplink_ipv4-IsFramed files v =
      reconcile_rule4-IsFramed cfg u at known k out _ _
      ∙ reconcile_route4-IsFramed cfg u at known k out _ _
      ∙ if_keeps (IsFramed k v) _ {x = force_link_down files u ipv4 v} {y = v} refl refl

  reconcile_sources6-IsFramed :
      (files : Files) (now : ℤ) (v : View) → IsFramed k v (reconcile_sources6 cfg files u now v)
  unfolding reconcile_sources6 force_link_down
  reconcile_sources6-IsFramed files now v =
      let ra_st = read_ipv6ra_state files u.name in
      let gone =
        not (is_some ra_st)
        && not (is_some (read_ipv6pd_state files u.name))
        && not (is_some (read_ipv6na_state files u.name)) in
      let forced : View =
        if gone && is_up v.health.ipv6 then force_link_down files u ipv6 v else v in
      reconcile_pd6-IsFramed cfg u at known k out _ _
      ∙ (reconcile_lo6-IsFramed cfg u at known k out _ _
          ∙ (reconcile_route6-IsFramed cfg u at known k out now ra_st forced
              ∙ if_keeps (IsFramed k v) (gone && is_up v.health.ipv6)
                  {x = force_link_down files u ipv6 v} {y = v} refl refl))

  -- A loop over the macvlans, if its body leaves the place alone.
  IsFramed-loop :
      (body : ℕ → Text → View → View)
      → ((n : ℕ) (mv : Text)
          → macvlan_at cfg u n ≡ some mv
          → (w : View) → IsFramed k w (body n mv w))
      → (v v' : View) → for_macvlans cfg u body 0 cfg.networks v ≡ some v'
      → IsFramed k v v'
  IsFramed-loop body step v v' h =
      let (w, e, f) =
        for_macvlans_all cfg u named (λ n w. IsFramed k v w) body
          (λ n mv w mv_at before. step n mv mv_at w ∙ before) v refl in
      let same : w ≡ v' = from_some (sym e ∙ h) in rw (← same) f

  reconcile_macvlans-IsFramed :
      (files : Files) (pd_st : Option Ipv6PdState) (v v' : View)
      → reconcile_macvlans cfg files u pd_st v ≡ some v'
      → IsFramed k v v'
  unfolding reconcile_macvlans
  reconcile_macvlans-IsFramed files none v v' h =
      IsFramed-loop _ (λ n mv mv_at w. teardown_prohibit-IsFramed cfg u at known k out n mv mv_at w)
        v v' h
  reconcile_macvlans-IsFramed files (some pd) v v' h =
      IsFramed-loop _
        (λ n mv mv_at w. reconcile_macvlan-IsFramed cfg u at known k out n mv mv_at _ w) v v' h

  pub reconcile_uplink_ipv6-IsFramed :
      (files : Files) (now : ℤ) (v v' : View)
      → reconcile_uplink_ipv6 cfg files u now v ≡ some v'
      → IsFramed k v v'
  unfolding reconcile_uplink_ipv6
  reconcile_uplink_ipv6-IsFramed files now v v' h =
      elim (Bool-cases (not u.ipv6_pd && not u.ia_na)) [
        | inl off ↦ let same : v ≡ v' = from_some (simp off at h) in rw (← same) refl
        | inr on ↦
            reconcile_macvlans-IsFramed files _ _ v' (simp on at h)
            ∙ reconcile_sources6-IsFramed files now v
      ]

  pub teardown_uplink-IsFramed : (v v' : View) → teardown_uplink cfg u v ≡ some v' → IsFramed k v v'
  unfolding teardown_uplink
  teardown_uplink-IsFramed v v' h = elim (Bool-cases (not u.ipv6_pd && not u.ia_na)) [
    | inl off ↦
        let same : teardown_ipv4 cfg u v ≡ v' = from_some (simp off at h) in
        rw (← same) (teardown_ipv4-IsFramed cfg u at known k out v)
    | inr on ↦
        IsFramed-loop _
          (λ n mv mv_at w. teardown_macvlan-IsFramed cfg u at known k out n mv mv_at w) _ v'
          (simp on at h)
        ∙ teardown_ipv6-IsFramed cfg u at known k out (teardown_ipv4 cfg u v)
        ∙ teardown_ipv4-IsFramed cfg u at known k out v
  ]

  pub setup_macvlan_rules-IsFramed :
      (v v' : View) → setup_macvlan_rules cfg u v ≡ some v' → IsFramed k v v'
  unfolding setup_macvlan_rules
  setup_macvlan_rules-IsFramed v v' h = elim (Bool-cases u.ipv6_pd) [
    | inl on ↦
        IsFramed-loop _ (λ n mv mv_at w. setup_macvlan-IsFramed cfg u at known k out n mv mv_at w) v
          v' (simp on at h)
    | inr off ↦ let same : v ≡ v' = from_some (simp off at h) in rw (← same) refl
  ]
