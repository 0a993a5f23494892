-- ===== src/Tests/Primaries.antt =====
-- The primary uplinks and the least router lifetime of a concrete configuration.
use uplinkmgr.Prelude.{
  ℕ, ◌≡◌, ℤ, ◌≤ℤ◌, ◌⊎◌, refl, [], Option, none, some, Text, text, ◌==◌, true, false, pos, get_elem?,
  if◌then◌else◌,
}
use uplinkmgr.Config.{UplinkConfig}
use uplinkmgr.StateMachine.{UplinkState, initial, down}
use uplinkmgr.State.{Ipv6RaState}
use uplinkmgr.Radvd.{primary_ipv6_uplink}
use uplinkmgr.Daemon.{
  Primaries, primary_ipv4_uplink, update_primary_uplinks, min_gw_remaining, up_ipv4, least_metric,
  name_of,
}
use uplinkmgr.Daemon.Primary.{
  IsIn, runs_ipv4, Beats, primary_ipv4_uplink-Beats, update_primary_uplinks_idem,
}
use uplinkmgr.Daemon.Remaining.{HasLeft, min_gw_remaining-IsLeft}
use uplinkmgr.Tests.Samples.{satellite, home}

-- The cable is down in IPv4.
abbrev cable_down : Text → UplinkState
cable_down name =
    if name == text "comcast" then record (initial name) { ipv4 = down } else initial name

primary_is_satellite : primary_ipv4_uplink home cable_down ≡ some satellite
unfolding primary_ipv4_uplink up_ipv4 least_metric text ◌==◌ initial
primary_is_satellite = refl

primary_ipv4_uplink-Beats_example :
    ((primary_ipv4_uplink home cable_down ≡ none)
      × ((i : ℕ) (w : UplinkConfig)
          → get_elem? home.uplinks i ≡ some w
          → runs_ipv4 cable_down w ≡ false))
    ⊎ ((u : UplinkConfig) × (primary_ipv4_uplink home cable_down ≡ some u)
        × IsIn u home.uplinks
        × (runs_ipv4 cable_down u ≡ true)
        × Beats cable_down u.metric home.uplinks)
primary_ipv4_uplink-Beats_example = primary_ipv4_uplink-Beats cable_down home

abbrev unknown : Primaries
unknown = record { primary_ipv4 = none; primary_ipv6 = none; trace = [] }

abbrev updated : Primaries
updated = update_primary_uplinks home cable_down unknown

update_primary_uplinks_idem_example :
    (updated.primary_ipv4 ≡ name_of (primary_ipv4_uplink home cable_down))
    × (updated.primary_ipv6 ≡ name_of (primary_ipv6_uplink home cable_down))
    × (update_primary_uplinks home cable_down updated ≡ updated)
update_primary_uplinks_idem_example = update_primary_uplinks_idem home cable_down unknown

-- The router of the cable announced half an hour.
abbrev announced : Text → Option Ipv6RaState
announced name =
    if name == text "comcast"
    then some (record {
      gateway = text "fe80::1";
      lifetime = pos 1800;
      timestamp = pos 1000;
      address = [];
      prefix = [];
      plen = pos 0;
    })
    else none

min_gw_remaining-IsLeft_example :
    ((i : ℕ) (u : UplinkConfig) (n : ℤ)
      → get_elem? home.uplinks i ≡ some u
      → HasLeft (pos 1500) announced u n
      → (m : ℤ) × (min_gw_remaining home (pos 1500) announced ≡ some m) × (m ≤ℤ n))
    × ((m : ℤ)
        → min_gw_remaining home (pos 1500) announced ≡ some m
        → (i : ℕ) × (u : UplinkConfig) × (get_elem? home.uplinks i ≡ some u)
          × HasLeft (pos 1500) announced u m)
min_gw_remaining-IsLeft_example = min_gw_remaining-IsLeft (pos 1500) announced home
