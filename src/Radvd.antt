-- ===== src/Radvd.antt =====
-- The configuration of radvd for every uplink (src/uplinkmgr/radvd.py).
pub mod Preference
pub mod Subnets
pub mod Lifetimes
pub mod Files
pub mod Shown
pub mod Exclusive
use uplinkmgr.Prelude.{
  ℕ, suc, ◌*◌, ◌^◌, List, [], ◌∷◌, ◌++◌, Bool, true, false, ◌&&◌, not, Option, none, some, Text,
  text, ◌==◌, ℤ, pos, pos_part, ◌-ℤ◌, ltb_ℤ, ltb, length, Dict, insert, if◌then◌else◌,
}
use uplinkmgr.Prelude.Decimal.{str_ℤ}
use uplinkmgr.Config.{Config, NetworkConfig, UplinkConfig}
use uplinkmgr.StateMachine.{LinkState, UplinkState, is_up, is_down}
use uplinkmgr.State.{
  Ipv6RaState, Ipv6PdState, remaining_lifetime, remaining_vltime, remaining_pltime, ◌>>=◌,
}
use uplinkmgr.Naming.{macvlan_name, radvd_conf_path, radvd_unit_name}
use uplinkmgr.Effect.{Effect, write_file, systemctl, Trace}
use uplinkmgr.Uplink.Ipv6.{delegated_text}
use uplinkmgr.Generator.Advert.{
  radvd_conf_from_state, initial_valid_lifetime, initial_preferred_lifetime,
  initial_default_lifetime,
}

-- What `_derive_prefixes` uses of Python's `ipaddress`: the first address of a network in text form
-- (`ip_network(s, strict=False).network_address`), addition to an address, and the text of the /64
-- network at an address; each may raise ValueError.
pub record Ipaddress : Type 1 where
  pub Address : Type 0
  pub network_address : Text → Option Address
  pub add : Address → ℕ → Option Address
  pub network64 : Address → Option Text

pub data RegenerateAction : Type 0 where
  restart sighup write : RegenerateAction

-- [u for u in uplinks if u.ipv6_pd]
unfoldable pub with_ipv6_pd : List UplinkConfig → List UplinkConfig
with_ipv6_pd [] = []
with_ipv6_pd (u ∷ uplinks) = let rest = with_ipv6_pd uplinks in if u.ipv6_pd then u ∷ rest else rest

-- `states` has an entry for each uplink, which `_init_states` makes.
unfoldable pub first_up : (Text → UplinkState) → List UplinkConfig → Option UplinkConfig
first_up states [] = none
first_up states (u ∷ uplinks) =
    let rest = first_up states uplinks in if is_up (states u.name).ipv6 then some u else rest

unfoldable pub primary_ipv6_uplink : Config → (Text → UplinkState) → Option UplinkConfig
unfolding with_ipv6_pd first_up
primary_ipv6_uplink cfg states = first_up states (with_ipv6_pd cfg.uplinks)

-- primary is not None and primary.name == uplink.name
abbrev pub is_primary : Option UplinkConfig → UplinkConfig → Bool
is_primary none uplink = false
is_primary (some primary) uplink = primary.name == uplink.name

-- What the configuration of one uplink is made from.
pub record Advert : Type 0 where
  pub preference : Text
  pub default_lifetime : ℤ
  pub valid_lifetime : ℤ
  pub preferred_lifetime : ℤ
  pub is_down : Bool

module _ (cfg : Config) (states : Text → UplinkState) where
  unfoldable pub preference_for : UplinkConfig → Text
  unfolding primary_ipv6_uplink
  preference_for uplink =
      if is_down (states uplink.name).ipv6
      then text "low"
      else if is_primary (primary_ipv6_uplink cfg states) uplink
      then text "high"
      else text "medium"

  abbrev pub is_secondary : UplinkConfig → Bool
  is_secondary uplink =
      cfg.exclusive_preferred_pd
      && (not (is_down (states uplink.name).ipv6)
          && not (is_primary (primary_ipv6_uplink cfg states) uplink))

  abbrev pub left_of {ℓ} : {A : Type ℓ} → (A → ℤ) → ℤ → Option A → ℤ
  left_of remaining fallback none = fallback
  left_of remaining fallback (some st) = remaining st

  -- The arguments of `radvd_conf_from_state` in `regenerate_all`.
  unfoldable pub advert_of : ℤ → Option Ipv6RaState → Option Ipv6PdState → UplinkConfig → Advert
  unfolding preference_for
  advert_of now ra_state pd_state uplink =
      let default_lifetime =
        left_of (λ st. remaining_lifetime st now) initial_default_lifetime ra_state in
      let valid = left_of (λ st. remaining_vltime st now) initial_valid_lifetime pd_state in
      let preferred = left_of (λ st. remaining_pltime st now) initial_preferred_lifetime pd_state in
      record {
        preference = preference_for uplink;
        default_lifetime = if is_secondary uplink then pos 0 else default_lifetime;
        valid_lifetime = valid;
        preferred_lifetime = if is_secondary uplink then pos 0 else preferred;
        is_down = is_down (states uplink.name).ipv6;
      }

module _ (ip : Ipaddress) where
  -- The loop of `_derive_prefixes`; `none` where it raises.
  unfoldable pub subnets :
      (uplink_idx : ℕ) → ip.Address → ℕ → List NetworkConfig → Dict Text → Option (Dict Text)
  subnets uplink_idx base sla_id [] result = some result
  subnets uplink_idx base sla_id (net ∷ nets) result =
      macvlan_name net.interface uplink_idx >>= λ mv.
      ip.add base (sla_id * 2 ^ 64) >>= λ subnet_addr. ip.network64 subnet_addr >>= λ prefix.
      subnets uplink_idx base (suc sla_id) nets (insert mv prefix result)

  abbrev or_empty : Option (Dict Text) → Dict Text
  or_empty none = []
  or_empty (some d) = d

  -- For a negative `sla_bits` both tests of the source give {}.
  unfoldable pub derive_prefixes : Config → UplinkConfig → Option Ipv6PdState → Dict Text
  unfolding subnets
  derive_prefixes cfg uplink none = []
  derive_prefixes cfg uplink (some pd_state) =
      let sla_bits = pos 64 -ℤ pd_state.delegated_length in
      let derived = ip.network_address (delegated_text pd_state) >>= λ base.
      subnets uplink.index base 0 cfg.networks [] in
      if ltb_ℤ sla_bits (pos 0)
      then []
      else if ltb (2 ^ pos_part sla_bits) (length cfg.networks)
      then []
      else or_empty derived

  abbrev pub signal : RegenerateAction → Text → Trace → Trace
  signal restart unit trace = systemctl (text "systemctl" ∷ text "restart" ∷ unit ∷ []) ∷ trace
  signal sighup unit trace =
      systemctl (text "systemctl" ∷ text "kill" ∷ text "--signal=SIGHUP" ∷ unit ∷ []) ∷ trace
  signal write unit trace = trace

  module _ (cfg : Config) (states : Text → UplinkState) (now : ℤ) where
    -- The body of the loop of `regenerate_all`, with the state files of the uplink.
    unfoldable pub regenerate_one :
        Option Ipv6RaState
        → Option Ipv6PdState
        → RegenerateAction
        → UplinkConfig
        → Trace
        → Option Trace
    unfolding advert_of derive_prefixes
    regenerate_one ra_state pd_state action uplink trace =
        let advert = advert_of cfg states now ra_state pd_state uplink in
        radvd_conf_from_state cfg uplink advert.preference advert.default_lifetime
          (derive_prefixes cfg uplink pd_state) advert.valid_lifetime advert.preferred_lifetime
          advert.is_down
        >>= λ conf_text. some (
            signal action (radvd_unit_name uplink.name)
              (write_file (radvd_conf_path uplink.name) conf_text ∷ trace))

    unfoldable pub regenerate_each :
        (Text → Option Ipv6RaState)
        → (Text → Option Ipv6PdState)
        → RegenerateAction
        → List UplinkConfig
        → Trace
        → Option Trace
    unfolding regenerate_one
    regenerate_each ra_of pd_of action [] trace = some trace
    regenerate_each ra_of pd_of action (uplink ∷ uplinks) trace =
        regenerate_one (ra_of uplink.name) (pd_of uplink.name) action uplink trace >>= λ after.
        regenerate_each ra_of pd_of action uplinks after

    unfoldable pub regenerate_all :
        (Text → Option Ipv6RaState)
        → (Text → Option Ipv6PdState)
        → RegenerateAction
        → Trace
        → Option Trace
    unfolding regenerate_each with_ipv6_pd
    regenerate_all ra_of pd_of action trace =
        regenerate_each ra_of pd_of action (with_ipv6_pd cfg.uplinks) trace
