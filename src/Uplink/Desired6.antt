-- ===== src/Uplink/Desired6.antt =====
-- What reconciling the IPv6 routing of an uplink brings about.
use uplinkmgr.Prelude.{
  ℕ, suc, ◌<◌, ◌≡◌, ◌&&◌, ◌||◌, not, Option, none, some, Text, ◌==◌, ==_refl, ==_iff, is_some,
  eqb_option_iff, contains, contains-add, contains-discard, lookup-insert, ltb, length, ℤ,
  if◌then◌else◌, arith,
}
use uplinkmgr.Config.{Config, UplinkConfig}
use uplinkmgr.StateMachine.{LinkState, down}
use uplinkmgr.State.{
  Files, Ipv6RaState, Ipv6NaState, Ipv6PdState, read_ipv6ra_state, read_ipv6na_state,
  read_ipv6pd_state,
}
use uplinkmgr.Uplink.View.{View}
use uplinkmgr.Uplink.Ipv6.{reconcile_route6, reconcile_lo6, reconcile_pd6}
use uplinkmgr.Uplink.Macvlan.{
  fwd_of, reconcile_fwd, reconcile_prohibit, reconcile_macvlan, teardown_prohibit,
}
use uplinkmgr.Uplink.Places.{macvlan_at, HasDistinctMacvlans}
use uplinkmgr.Uplink.MacvlanAccounts.{for_each}

-- The health, the route and the sources are the same.
pub record IsBeside (b w : View) : Type 0 where
  pub health : w.health ≡ b.health
  pub route : w.installed.ipv6_route_installed ≡ b.installed.ipv6_route_installed
  pub lo : w.installed.lo_to_uplink_prefix ≡ b.installed.lo_to_uplink_prefix
  pub pd : w.installed.pd_lo_to_uplink_prefix ≡ b.installed.pd_lo_to_uplink_prefix

module _ (cfg : Config) (uplink : UplinkConfig) (known : uplink.index < length cfg.uplinks)
    (distinct : HasDistinctMacvlans cfg uplink) (b : View) where
  -- The macvlans before position `k` are as the delegation wants them, and the others as they were.
  abbrev pub Reconciled : Option Text → ℕ → View → Type 0
  Reconciled delegated k w =
      IsBeside b w
      × ((m : ℕ) (mv : Text)
          → macvlan_at cfg uplink m ≡ some mv
          → (fwd_of mv w.installed ≡ (if ltb m k then delegated else fwd_of mv b.installed))
            × (contains mv w.installed.macvlan_prohibit ≡ (
                (ltb m k && cfg.reject_wrong_pd_src) || contains mv b.installed.macvlan_prohibit)))

  fwd_of-reconcile :
      (delegated : Option Text) (n : ℕ) (mv other : Text) (w : View)
      → fwd_of other (reconcile_macvlan cfg uplink delegated n mv w).installed
        ≡ (if other == mv then delegated else fwd_of other w.installed)
  unfolding reconcile_macvlan reconcile_fwd reconcile_prohibit
  fwd_of-reconcile delegated n mv other w = ground (
    arith,
    eqb_option_iff (fwd_of mv w.installed) delegated,
    ==_iff other mv,
    lookup-insert mv other delegated w.installed.macvlan_fwd,
  )

  contains-reconcile :
      (delegated : Option Text) (n : ℕ) (mv other : Text) (w : View)
      → contains other (reconcile_macvlan cfg uplink delegated n mv w).installed.macvlan_prohibit
        ≡ (contains other w.installed.macvlan_prohibit || (cfg.reject_wrong_pd_src && other == mv))
  unfolding reconcile_macvlan reconcile_fwd reconcile_prohibit
  contains-reconcile delegated n mv other w =
      ground (arith, ==_iff other mv, contains-add mv other w.installed.macvlan_prohibit)

  pub reconcile_macvlan-step :
      (delegated : Option Text) (n : ℕ) (mv : Text) (w : View)
      → macvlan_at cfg uplink n ≡ some mv
      → Reconciled delegated n w
      → Reconciled delegated (suc n) (reconcile_macvlan cfg uplink delegated n mv w)
  unfolding reconcile_macvlan reconcile_fwd reconcile_prohibit
  reconcile_macvlan-step delegated n mv w at (beside, each) = (
    record {
      health = ground (arith, beside.health);
      route = ground (arith, beside.route);
      lo = ground (arith, beside.lo);
      pd = ground (arith, beside.pd);
    },
    for_each cfg uplink known distinct n mv at _
        (let (f, c) = each n mv at in
          (
            ground (arith, fwd_of-reconcile delegated n mv mv w, ==_refl mv),
            ground (arith, c, contains-reconcile delegated n mv mv w, ==_refl mv),
          ))
        (λ m other at' ne apart.
          let (f, c) = each m other at' in
          (
            ground (arith, f, ne, apart, fwd_of-reconcile delegated n mv other w),
            ground (arith, c, ne, apart, contains-reconcile delegated n mv other w),
          )),
  )

  abbrev pub Withdrawn : ℕ → View → Type 0
  Withdrawn k w =
      IsBeside b w
      × ((m : ℕ) (mv : Text)
          → macvlan_at cfg uplink m ≡ some mv
          → (fwd_of mv w.installed ≡ fwd_of mv b.installed)
            × (contains mv w.installed.macvlan_prohibit
                ≡ (not (ltb m k) && contains mv b.installed.macvlan_prohibit)))

  pub teardown_prohibit-step :
      (n : ℕ) (mv : Text) (w : View)
      → macvlan_at cfg uplink n ≡ some mv
      → Withdrawn n w
      → Withdrawn (suc n) (teardown_prohibit cfg uplink n mv w)
  unfolding teardown_prohibit
  teardown_prohibit-step n mv w at (beside, each) = (
    record {
      health = ground (arith, beside.health);
      route = ground (arith, beside.route);
      lo = ground (arith, beside.lo);
      pd = ground (arith, beside.pd);
    },
    for_each cfg uplink known distinct n mv at _
        (let (f, c) = each n mv at in
          (
            ground (arith, f),
            ground (arith, c, contains-discard mv mv w.installed.macvlan_prohibit, ==_refl mv),
          ))
        (λ m other at' ne apart.
          let (f, c) = each m other at' in
          (
            ground (arith, f),
            ground (arith, c, ne, contains-discard mv other w.installed.macvlan_prohibit),
          )),
  )

-- The rules of the macvlans are recorded as before.
abbrev pub KeepsMacvlans : View → View → Type 0
KeepsMacvlans v w =
    (w.installed.macvlan_fwd ≡ v.installed.macvlan_fwd)
    × (w.installed.macvlan_prohibit ≡ v.installed.macvlan_prohibit)

-- What the state files and the health of an uplink call for, from the view before and after.
module _ (cfg : Config) (files : Files) (uplink : UplinkConfig) where
  abbrev pub advert : Option Ipv6RaState
  advert = read_ipv6ra_state files uplink.name

  abbrev pub lease6 : Option Ipv6NaState
  lease6 = read_ipv6na_state files uplink.name

  abbrev pub delegation : Option Ipv6PdState
  delegation = read_ipv6pd_state files uplink.name

  -- A link without any state of IPv6 is taken for down.
  abbrev pub health_after6 : View → LinkState
  health_after6 v =
      if is_some advert || is_some delegation || is_some lease6 then v.health.ipv6 else down

  pub reconcile_route6-installed :
      (now : ℤ) (ra : Option Ipv6RaState) (v : View)
      → let w = reconcile_route6 cfg uplink now ra v in
        (w.installed.ipv6_route_installed ≡ is_some ra)
        × (w.health ≡ v.health)
        × (w.installed.lo_to_uplink_prefix ≡ v.installed.lo_to_uplink_prefix)
        × KeepsMacvlans v w
  unfolding reconcile_route6
  reconcile_route6-installed now none v = ground arith
  reconcile_route6-installed now (some ra) v = ground arith

  pub reconcile_lo6-installed :
      (p : Option Text) (v : View)
      → let w = reconcile_lo6 cfg uplink p v in
        (w.installed.lo_to_uplink_prefix ≡ p)
        × (w.health ≡ v.health)
        × (w.installed.ipv6_route_installed ≡ v.installed.ipv6_route_installed)
        × KeepsMacvlans v w
  unfolding reconcile_lo6
  reconcile_lo6-installed p v = ground (arith, eqb_option_iff p v.installed.lo_to_uplink_prefix)

  pub reconcile_pd6-installed :
      (p : Option Text) (v : View)
      → let w = reconcile_pd6 cfg uplink p v in
        (w.installed.pd_lo_to_uplink_prefix ≡ p)
        × (w.health ≡ v.health)
        × (w.installed.ipv6_route_installed ≡ v.installed.ipv6_route_installed)
        × (w.installed.lo_to_uplink_prefix ≡ v.installed.lo_to_uplink_prefix)
        × KeepsMacvlans v w
  unfolding reconcile_pd6
  reconcile_pd6-installed p v = ground (arith, eqb_option_iff p v.installed.pd_lo_to_uplink_prefix)
