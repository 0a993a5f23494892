-- ===== src/Uplink/Held6.antt =====
-- What reconciling the IPv6 routing of an uplink leaves in place.
use uplinkmgr.Prelude.{
  ℕ, ◌≡◌, Bool, true, false, is_nonempty, ◌&&◌, ◌||◌, not, Option, none, some, Text, is_some,
  contains, if◌then◌else◌,
}
use uplinkmgr.Config.{Config, UplinkConfig}
use uplinkmgr.StateMachine.{is_up, ipv6}
use uplinkmgr.State.{Files, Ipv6RaState, Ipv6NaState, Ipv6PdState}
use uplinkmgr.Uplink.View.{View, force_link_down}
use uplinkmgr.Uplink.Ipv6.{delegated_text, wanted_prefix6, wanted_pd_prefix6}
use uplinkmgr.Uplink.Macvlan.{fwd_of}
use uplinkmgr.Uplink.Ledger.{held, one_if}
use uplinkmgr.Uplink.Places.{macvlan_at, ipv6_route, lo6_rule, pd6_rule, reject_rule}
use uplinkmgr.Uplink.Desired6.{advert, lease6, delegation, health_after6}

-- Whether the state files name an address or prefix of the uplink's own: an IA_NA address, or else a
-- router advertisement with a prefix or an address.
abbrev pub has_source6 : Option Ipv6RaState → Option Ipv6NaState → Bool
has_source6 ra (some na) = true
has_source6 (some ra) none = is_nonempty ra.prefix || is_nonempty ra.address
has_source6 none none = false

module _ (cfg : Config) (files : Files) (uplink : UplinkConfig) where
  -- The source that the fwd_to_uplink rules are confined to while there is a delegation.
  abbrev pub confined_to : Option Ipv6PdState → Option Text → Option Text
  confined_to none old = old
  confined_to (some pd) old = if cfg.reject_wrong_pd_src then some (delegated_text pd) else none

  -- The view after the reconciling, against the one before.
  record IsWanted6 (before after : View) : Type 0 where
    health : after.health.ipv6 ≡ health_after6 cfg files uplink before
    route : after.installed.ipv6_route_installed ≡ is_some (advert cfg files uplink)
    lo :
        after.installed.lo_to_uplink_prefix
        ≡ wanted_prefix6
            (health_after6 cfg files uplink before)
            (advert cfg files uplink)
            (lease6 cfg files uplink)
    pd :
        after.installed.pd_lo_to_uplink_prefix
        ≡ wanted_pd_prefix6 (health_after6 cfg files uplink before) (delegation cfg files uplink)

  abbrev checked : View → View
  checked v =
      let gone =
        not (is_some (advert cfg files uplink))
        && not (is_some (delegation cfg files uplink))
        && not (is_some (lease6 cfg files uplink)) in
      if gone && is_up v.health.ipv6 then force_link_down files uplink ipv6 v else v

  -- The rules of one macvlan after the loop over them, from those before it.
  record IsConfined (pd_st : Option Ipv6PdState) (before after : View) (mv : Text) : Type 0 where
    fwd : fwd_of mv after.installed ≡ confined_to pd_st (fwd_of mv before.installed)
    prohibit : contains mv after.installed.macvlan_prohibit ≡ (
        is_some pd_st && (cfg.reject_wrong_pd_src || contains mv before.installed.macvlan_prohibit))

  -- What is in place after the reconciling, by the state files and the view before.
  pub record IsHeld6 (before after : View) : Type 0 where
    pub health : after.health.ipv6 ≡ health_after6 cfg files uplink before
    pub route :
        held (ipv6_route cfg uplink) after.trace ≡ one_if (is_some (advert cfg files uplink))
    pub lo :
        held (lo6_rule cfg uplink) after.trace
        ≡ one_if (
            is_up (health_after6 cfg files uplink before)
            && has_source6 (advert cfg files uplink) (lease6 cfg files uplink))
    pub pd :
        held (pd6_rule cfg uplink) after.trace
        ≡ one_if
            (is_up (health_after6 cfg files uplink before) && is_some (delegation cfg files uplink))
    pub reject :
        (n : ℕ) (mv : Text)
        → macvlan_at cfg uplink n ≡ some mv
        → held (reject_rule cfg uplink n) after.trace
          ≡ one_if (
              is_some (delegation cfg files uplink)
              && (cfg.reject_wrong_pd_src || contains mv before.installed.macvlan_prohibit))
    pub fwd :
        (n : ℕ) (mv : Text)
        → macvlan_at cfg uplink n ≡ some mv
        → fwd_of mv after.installed
          ≡ confined_to (delegation cfg files uplink) (fwd_of mv before.installed)
