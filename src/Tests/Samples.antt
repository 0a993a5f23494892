-- ===== src/Tests/Samples.antt =====
-- A configuration with two networks and two uplinks, and the state files of the first uplink.
use uplinkmgr.Prelude.{
  zero, suc, ◌≡◌, refl, subst, [], ◌∷◌, true, false, none, some, text, ◌==◌, if◌then◌else◌, pos,
  lookup, contains, arith,
}
use uplinkmgr.Prelude.Decimal.{str_ℕ}
use uplinkmgr.Config.{Config, MonitorConfig, UplinkConfig}
use uplinkmgr.StateMachine.{initial}
use uplinkmgr.State.{Files}
use uplinkmgr.Naming.{macvlan_name, split_digits, chomp, slice_to, uplink_suffix}
use uplinkmgr.Uplink.View.{View, nothing_installed}
use uplinkmgr.Uplink.Places.{IsAccounted, HasDistinctMacvlans, macvlan_at}
use uplinkmgr.Uplink.Loops.{HasMacvlans}
use uplinkmgr.Daemon.Booked.{IsNamed}

abbrev pub cable : UplinkConfig
cable = record {
  name = text "comcast";
  interface = text "eth0";
  ipv6_pd = true;
  ipv6_pd_hint = pos 56;
  ia_na = false;
  metric = pos 100;
  index = 0;
}

abbrev pub satellite : UplinkConfig
satellite = record {
  name = text "starlink";
  interface = text "eth1";
  ipv6_pd = false;
  ipv6_pd_hint = pos 56;
  ia_na = false;
  metric = pos 200;
  index = 1;
}

abbrev pub monitoring : MonitorConfig
monitoring = record {
  interval = pos 10;
  failure_threshold = pos 3;
  recovery_threshold = pos 2;
  v4_hosts = text "8.8.8.8" ∷ [];
  v6_hosts = text "2001:4860:4860::8888" ∷ [];
  ping_count = pos 1;
}

abbrev pub home : Config
home = record {
  routing_table_start = pos 160;
  rule_priority_start = pos 29000;
  reject_wrong_pd_src = true;
  exclusive_preferred_pd = false;
  radvd_min_restart_interval = pos 60;
  hook_timeout = pos 10;
  monitor = monitoring;
  networks =
      record { name = text "lan"; interface = text "vlan10" }
      ∷ record { name = text "guest"; interface = text "br.guest" }
      ∷ [];
  uplinks = cable ∷ satellite ∷ [];
}

-- The files that the hook writes for a lease and a delegated prefix.
unfoldable pub leased : Files
leased name =
    if name == text "comcast.ipv4.state"
    then some (text "gateway=203.0.113.1\naddress=203.0.113.7\n")
    else if name == text "comcast.ipv6pd.state"
    then some (
        text
          "delegated_prefix=2001:db8::\ndelegated_length=56\nvltime=7200\npltime=1800\ntimestamp=1000\n")
    else none

unfoldable pub no_files : Files
no_files name = none

abbrev pub fresh_view : View
fresh_view = record { health = initial (text "comcast"); installed = nothing_installed; trace = [] }

pub fresh_view-IsAccounted : IsAccounted home cable fresh_view
unfolding lookup contains
fresh_view-IsAccounted = record {
  shared = refl;
  own = refl;
  lo4 = refl;
  route6 = refl;
  lo6 = refl;
  pd6 = refl;
  fwd = λ n mv at. refl;
  reject = λ n mv at. refl;
}

-- The names are vlan10-u0 and br_guest-u0.
pub home-HasMacvlans : HasMacvlans home cable
unfolding macvlan_at macvlan_name split_digits chomp slice_to uplink_suffix str_ℕ text
home-HasMacvlans zero lt = (text "vlan10-u0", refl)
home-HasMacvlans (suc zero) lt = (text "br_guest-u0", refl)
home-HasMacvlans (suc (suc n)) lt = absurd (omega arith)

pub home-HasDistinctMacvlans : HasDistinctMacvlans home cable
unfolding macvlan_at macvlan_name split_digits chomp slice_to uplink_suffix str_ℕ text
home-HasDistinctMacvlans zero zero mv h k = refl
home-HasDistinctMacvlans zero (suc zero) mv h k = cc
home-HasDistinctMacvlans (suc zero) zero mv h k = cc
home-HasDistinctMacvlans (suc zero) (suc zero) mv h k = refl
home-HasDistinctMacvlans (suc (suc n)) m mv h k = cc
home-HasDistinctMacvlans n (suc (suc m)) mv h k = cc

satellite-HasMacvlans : HasMacvlans home satellite
unfolding macvlan_at macvlan_name split_digits chomp slice_to uplink_suffix str_ℕ text
satellite-HasMacvlans zero lt = (text "vlan10-u1", refl)
satellite-HasMacvlans (suc zero) lt = (text "br_guest-u1", refl)
satellite-HasMacvlans (suc (suc n)) lt = absurd (omega arith)

satellite-HasDistinctMacvlans : HasDistinctMacvlans home satellite
unfolding macvlan_at macvlan_name split_digits chomp slice_to uplink_suffix str_ℕ text
satellite-HasDistinctMacvlans zero zero mv h k = refl
satellite-HasDistinctMacvlans zero (suc zero) mv h k = cc
satellite-HasDistinctMacvlans (suc zero) zero mv h k = cc
satellite-HasDistinctMacvlans (suc zero) (suc zero) mv h k = refl
satellite-HasDistinctMacvlans (suc (suc n)) m mv h k = cc
satellite-HasDistinctMacvlans n (suc (suc m)) mv h k = cc

same_uplink : {a b : UplinkConfig} → some a ≡ some b → a ≡ b
same_uplink e = cc

pub home-IsNamed : IsNamed home
home-IsNamed zero u at =
    subst (λ x. HasMacvlans home x × HasDistinctMacvlans home x) (same_uplink at)
      (home-HasMacvlans, home-HasDistinctMacvlans)
home-IsNamed (suc zero) u at =
    subst (λ x. HasMacvlans home x × HasDistinctMacvlans home x) (same_uplink at)
      (satellite-HasMacvlans, satellite-HasDistinctMacvlans)
home-IsNamed (suc (suc n)) u at = cc
