-- ===== src/Uplink/View.antt =====
-- `_UplinkRouting` of src/uplinkmgr/daemon.py, the part of the daemon that concerns one uplink, and
-- the events about it.
use uplinkmgr.Prelude.{
  List, [], ◌∷◌, Bool, false, Option, none, some, Text, text, Dict, is_nonempty, eqb_ℤ, ℤ, pos,
  if◌then◌else◌,
}
use uplinkmgr.Prelude.Decimal.{str_ℕ, str_ℤ}
use uplinkmgr.Config.{UplinkConfig}
use uplinkmgr.StateMachine.{LinkState, down, is_up, Family, ipv4, ipv6, UplinkState, with_link}
use uplinkmgr.State.{Files, read_ipv4_state, read_ipv6ra_state, read_ipv6na_state, ◌>>=◌}
use uplinkmgr.Routing.{Command}
use uplinkmgr.Effect.{Event, ip, fire, Trace}

pub record UplinkRouting : Type 0 where
  pub ipv4_installed : Option Text
  pub ipv4_lo_to_uplink_addr : Option Text
  pub ipv6_route_installed : Bool
  pub lo_to_uplink_prefix : Option Text
  pub pd_lo_to_uplink_prefix : Option Text
  pub macvlan_fwd : Dict (Option Text)
  pub macvlan_prohibit : List Text

-- _UplinkRouting()
abbrev pub nothing_installed : UplinkRouting
nothing_installed = record {
  ipv4_installed = none;
  ipv4_lo_to_uplink_addr = none;
  ipv6_route_installed = false;
  lo_to_uplink_prefix = none;
  pd_lo_to_uplink_prefix = none;
  macvlan_fwd = [];
  macvlan_prohibit = [];
}

pub record View : Type 0 where
  pub health : UplinkState
  pub installed : UplinkRouting
  pub trace : Trace

abbrev pub emit : Command → View → View
emit c v = record v { trace = ip c ∷ v.trace }

abbrev pub with_installed : UplinkRouting → View → View
with_installed r v = record v { installed = r }

-- `x or None` of a number
abbrev pub nonzero : ℤ → Option ℤ
nonzero n = if eqb_ℤ n (pos 0) then none else some n

abbrev pub nonempty : Text → Option Text
nonempty s = if is_nonempty s then some s else none

abbrev pub map_option {ℓ κ} : {A : Type ℓ} {B : Type κ} → (A → B) → Option A → Option B
map_option f none = none
map_option f (some a) = some (f a)

module _ (files : Files) (uplink : UplinkConfig) where
  -- The gateway, address, prefix and prefix length of an event.
  abbrev wan_details : Family → List (Text × Option Text)
  wan_details ipv4 =
      let st = read_ipv4_state files uplink.name in
      (text "gateway", map_option (λ s. s.gateway) st)
      ∷ (text "address", map_option (λ s. s.address) st)
      ∷ (text "prefix", none)
      ∷ (text "prefix_length", none)
      ∷ []
  wan_details ipv6 =
      let ra_st = read_ipv6ra_state files uplink.name in
      let na_st = read_ipv6na_state files uplink.name in
      (text "gateway", map_option (λ s. s.gateway) ra_st)
      ∷ (text "address", map_option (λ s. s.address) na_st)
      ∷ (text "prefix", ra_st >>= λ s. nonempty s.prefix)
      ∷ (text "prefix_length", ra_st >>= λ s. map_option str_ℤ (nonzero s.plen))
      ∷ []

  abbrev family_name : Family → Text
  family_name ipv4 = text "ipv4"
  family_name ipv6 = text "ipv6"

  unfoldable pub wan_event : Family → LinkState → Event
  wan_event family new_state = record {
    event = if is_up new_state then text "wan-up" else text "wan-down";
    uplink = uplink.name;
    env_extra =
        (text "interface", some uplink.interface)
        ∷ (text "family", some (family_name family))
        ∷ (text "uplink_index", some (str_ℕ uplink.index))
        ∷ (text "metric", some (str_ℤ uplink.metric))
        ∷ wan_details family;
  }

  unfoldable pub fire_wan_event : Family → LinkState → View → View
  fire_wan_event family new_state v = record v {
    trace = fire (wan_event family new_state) ∷ v.trace;
  }

  unfoldable pub force_link_down : Family → View → View
  unfolding fire_wan_event
  force_link_down family v =
      let forced =
        with_link family (record { state = down; failures = 0; successes = 0 }) v.health in
      fire_wan_event family down (record v { health = forced })
