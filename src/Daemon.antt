-- ===== src/Daemon.antt =====
-- The part of daemon.py that looks at all uplinks: which uplink is the primary one in each family,
-- and the lifetime that is left to the routers (src/uplinkmgr/daemon.py).
pub mod Primary
pub mod Remaining
pub mod Machine
pub mod Handlers
pub mod Calls
pub mod Steady
pub mod Pace
pub mod Waits
pub mod Waited
pub mod Paced
pub mod Sleep
pub mod Process
pub mod Slots
pub mod Keys
pub mod Frame
pub mod Frames
pub mod Booked
pub mod Rounds
pub mod PolicyGone
pub mod Stop
pub mod Quiet
pub mod Start
pub mod Safe
pub mod Cycle
pub mod Lifetime
pub mod Announced
pub mod Reload
use uplinkmgr.Prelude.{
  ◌||◌, not, List, [], ◌∷◌, Bool, true, false, ◌&&◌, Option, none, some, Text, text, ◌==◌,
  eqb_option, ℤ, pos, ltb_ℤ, eqb_ℤ, if◌then◌else◌,
}
use uplinkmgr.Config.{Config, UplinkConfig}
use uplinkmgr.StateMachine.{UplinkState, is_up}
use uplinkmgr.State.{Ipv6RaState, remaining_lifetime}
use uplinkmgr.Effect.{Event, Effect, fire, Trace}
use uplinkmgr.Uplink.View.{map_option}
use uplinkmgr.Radvd.{primary_ipv6_uplink}

-- `self._primary_ipv4` and `self._primary_ipv6`, and the events fired so far.
pub record Primaries : Type 0 where
  pub primary_ipv4 : Option Text
  pub primary_ipv6 : Option Text
  pub trace : Trace

-- min(best, *uplinks, key=lambda u: u.metric), the first one of those that are least
unfoldable pub least_metric : UplinkConfig → List UplinkConfig → UplinkConfig
least_metric best [] = best
least_metric best (u ∷ uplinks) =
    least_metric (if ltb_ℤ u.metric best.metric then u else best) uplinks

unfoldable pub up_ipv4 : (Text → UplinkState) → List UplinkConfig → List UplinkConfig
up_ipv4 states [] = []
up_ipv4 states (u ∷ uplinks) =
    let rest = up_ipv4 states uplinks in if is_up (states u.name).ipv4 then u ∷ rest else rest

abbrev pub least_of : List UplinkConfig → Option UplinkConfig
least_of [] = none
least_of (u ∷ uplinks) = some (least_metric u uplinks)

-- `new_ipv4`; `states` has an entry for each uplink, which `_init_states` makes.
unfoldable pub primary_ipv4_uplink : Config → (Text → UplinkState) → Option UplinkConfig
unfolding least_metric up_ipv4
primary_ipv4_uplink cfg states = least_of (up_ipv4 states cfg.uplinks)

abbrev pub name_of : Option UplinkConfig → Option Text
name_of u = map_option (λ x. x.name) u

-- next((u.interface for u in uplinks if u.name == primary), None)
unfoldable pub interface_of : List UplinkConfig → Option Text → Option Text
interface_of [] primary = none
interface_of (u ∷ uplinks) primary =
    let rest = interface_of uplinks primary in
    if eqb_option (some u.name) primary then some u.interface else rest

abbrev text_or_empty : Option Text → Text
text_or_empty none = []
text_or_empty (some s) = s

unfoldable pub primary_change :
    (family : Text) → (old new old_interface new_interface : Option Text) → Event
primary_change family old new old_interface new_interface = record {
  event = text "primary-change";
  uplink = text_or_empty new;
  env_extra =
      (text "family", some family)
      ∷ (text "old_primary", old)
      ∷ (text "new_primary", new)
      ∷ (text "interface", new_interface)
      ∷ (text "old_primary_iface", old_interface)
      ∷ (text "new_primary_iface", new_interface)
      ∷ [];
}

-- The event for one family, where its primary uplink changes.
unfoldable pub note_primary :
    Config → (family : Text) → (old : Option Text) → Option UplinkConfig → Trace → Trace
unfolding primary_change interface_of
note_primary cfg family old new trace =
    if eqb_option (name_of new) old
    then trace
    else fire (
        primary_change family old (name_of new) (interface_of cfg.uplinks old)
          (map_option (λ u. u.interface) new))
      ∷ trace

unfoldable pub update_primary_uplinks : Config → (Text → UplinkState) → Primaries → Primaries
unfolding note_primary primary_ipv4_uplink
update_primary_uplinks cfg states p =
    let new_ipv4 = primary_ipv4_uplink cfg states in
    let new_ipv6 = primary_ipv6_uplink cfg states in
    record {
      primary_ipv4 = name_of new_ipv4;
      primary_ipv6 = name_of new_ipv6;
      trace =
          note_primary cfg (text "ipv6") p.primary_ipv6 new_ipv6
            (note_primary cfg (text "ipv4") p.primary_ipv4 new_ipv4 p.trace);
    }

-- What one uplink counts for in `_min_gw_remaining`: nothing without IPv6, without the state of a
-- router, or with a lifetime of 0.
abbrev pub gw_left : ℤ → Option Ipv6RaState → Option ℤ
gw_left now none = none
gw_left now (some ra_st) =
    if eqb_ℤ ra_st.lifetime (pos 0) then none else some (remaining_lifetime ra_st now)

abbrev pub gw_remaining : ℤ → (Text → Option Ipv6RaState) → UplinkConfig → Option ℤ
gw_remaining now ra_of uplink =
    if not uplink.ipv6_pd && not uplink.ia_na then none else gw_left now (ra_of uplink.name)

abbrev pub lesser : Option ℤ → Option ℤ → Option ℤ
lesser min_val none = min_val
lesser none (some remaining) = some remaining
lesser (some m) (some remaining) = if ltb_ℤ remaining m then some remaining else some m

unfoldable pub min_gw :
    ℤ → (Text → Option Ipv6RaState) → (min_val : Option ℤ) → List UplinkConfig → Option ℤ
min_gw now ra_of min_val [] = min_val
min_gw now ra_of min_val (uplink ∷ uplinks) =
    min_gw now ra_of (lesser min_val (gw_remaining now ra_of uplink)) uplinks

unfoldable pub min_gw_remaining : Config → ℤ → (Text → Option Ipv6RaState) → Option ℤ
unfolding min_gw
min_gw_remaining cfg now ra_of = min_gw now ra_of none cfg.uplinks
