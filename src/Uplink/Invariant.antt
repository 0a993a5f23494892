-- ===== src/Uplink/Invariant.antt =====
-- The methods that reconcile and tear down one uplink keep the account of its places.
use uplinkmgr.Prelude.{
  ℕ, ◌<◌, ◌≡◌, refl, Bool, true, false, Option, none, some, Text, length, ℤ, if◌then◌else◌,
}
use uplinkmgr.Config.{Config, UplinkConfig}
use uplinkmgr.StateMachine.{ipv4, ipv6}
use uplinkmgr.State.{Files, Ipv6PdState}
use uplinkmgr.Uplink.View.{View}
use uplinkmgr.Uplink.Macvlan.{teardown_prohibit, for_macvlans}
use uplinkmgr.Uplink.Reconcile.{
  reconcile_uplink_ipv4, reconcile_uplink_ipv6, reconcile_sources6, reconcile_macvlans,
}
use uplinkmgr.Uplink.Places.{macvlan_at, IsAccounted, HasDistinctMacvlans}
use uplinkmgr.Uplink.Accounts.{
  force_link_down-IsAccounted, reconcile_route4-IsAccounted, reconcile_rule4-IsAccounted,
  reconcile_route6-IsAccounted, reconcile_lo6-IsAccounted, reconcile_pd6-IsAccounted,
}
use uplinkmgr.Uplink.MacvlanAccounts.{
  reconcile_fwd-IsAccounted, reconcile_prohibit-IsAccounted, teardown_prohibit-IsAccounted,
}
use uplinkmgr.Uplink.Loops.{HasMacvlans, for_macvlans_all}

abbrev pub if_keeps {ℓ κ} :
    {A : Type ℓ} (P : A → Type κ) (b : Bool) {x y : A} → P x → P y → P (if b then x else y)
if_keeps P true px py = px
if_keeps P false px py = py

-- An operation that may raise returns, and its view is accounted for.
abbrev pub ReturnsAccounted : Config → UplinkConfig → Option View → Type 0
ReturnsAccounted cfg uplink o = (v' : View) × (o ≡ some v') × IsAccounted cfg uplink v'

module _ (cfg : Config) (uplink : UplinkConfig) (known : uplink.index < length cfg.uplinks) where
  -- Reconciling the IPv4 routing of an uplink, whatever the state files hold, keeps the account:
  -- at each of its places the commands so far leave exactly what is recorded as installed.
  pub reconcile_uplink_ipv4-IsAccounted :
      (files : Files) (v : View)
      → IsAccounted cfg uplink v
      → IsAccounted cfg uplink (reconcile_uplink_ipv4 cfg files uplink v)
  unfolding reconcile_uplink_ipv4
  reconcile_uplink_ipv4-IsAccounted files v a = reconcile_rule4-IsAccounted cfg uplink known _ _ (
      reconcile_route4-IsAccounted cfg uplink known _ _ (
        if_keeps (IsAccounted cfg uplink) _
          (force_link_down-IsAccounted cfg uplink known files ipv4 v a) a))

  pub reconcile_sources6-IsAccounted :
      (files : Files) (now : ℤ) (v : View)
      → IsAccounted cfg uplink v
      → IsAccounted cfg uplink (reconcile_sources6 cfg files uplink now v)
  unfolding reconcile_sources6
  reconcile_sources6-IsAccounted files now v a = reconcile_pd6-IsAccounted cfg uplink known _ _ (
      reconcile_lo6-IsAccounted cfg uplink known _ _ (
        reconcile_route6-IsAccounted cfg uplink known _ _ _ (
          if_keeps (IsAccounted cfg uplink) _
            (force_link_down-IsAccounted cfg uplink known files ipv6 v a) a)))

  module _ (named : HasMacvlans cfg uplink) (distinct : HasDistinctMacvlans cfg uplink) where
    -- A loop over the macvlans keeps the account, if its body does.
    accounted_loop :
        (body : ℕ → Text → View → View)
        → ((n : ℕ) (mv : Text) (v : View)
            → macvlan_at cfg uplink n ≡ some mv
            → IsAccounted cfg uplink v
            → IsAccounted cfg uplink (body n mv v))
        → (v : View) → IsAccounted cfg uplink v
        → ReturnsAccounted cfg uplink (for_macvlans cfg uplink body 0 cfg.networks v)
    accounted_loop body step v a =
        let (v', e, a') =
          for_macvlans_all cfg uplink named (λ _ w. IsAccounted cfg uplink w) body step v a in
        (v', e, a')

    reconcile_macvlans-IsAccounted :
        (files : Files) (pd_st : Option Ipv6PdState) (v : View)
        → IsAccounted cfg uplink v
        → ReturnsAccounted cfg uplink (reconcile_macvlans cfg files uplink pd_st v)
    unfolding reconcile_macvlans
    reconcile_macvlans-IsAccounted files none v a =
        accounted_loop (teardown_prohibit cfg uplink)
          (λ n mv w at aw. teardown_prohibit-IsAccounted cfg uplink known distinct n mv at w aw) v a
    reconcile_macvlans-IsAccounted files (some pd) v a =
        accounted_loop _
          (λ n mv w at aw.
            reconcile_prohibit-IsAccounted cfg uplink known distinct n mv at _
              (reconcile_fwd-IsAccounted cfg uplink known distinct n mv at _ w aw))
          v a

    -- Reconciling the IPv6 routing of an uplink, whatever the state files hold, returns and keeps
    -- the account, if each network has a macvlan name for the uplink and no two share one.
    pub reconcile_uplink_ipv6-IsAccounted :
        (files : Files) (now : ℤ) (v : View)
        → IsAccounted cfg uplink v
        → ReturnsAccounted cfg uplink (reconcile_uplink_ipv6 cfg files uplink now v)
    unfolding reconcile_uplink_ipv6
    reconcile_uplink_ipv6-IsAccounted files now v a =
        if_keeps (ReturnsAccounted cfg uplink) _ (v, refl, a)
          (reconcile_macvlans-IsAccounted files _ _ (reconcile_sources6-IsAccounted files now v a))
