-- ===== src/Tests/Adverts.antt =====
-- The radvd configuration of a concrete configuration, and the prefixes of a delegation.
use uplinkmgr.Prelude.{
  Option, if◌then◌else◌, ℕ, ◌≡◌, ◌⊎◌, refl, ◌==◌, none, some, Text, text, true, false, pos,
}
use uplinkmgr.Prelude.{
  ◌+◌, ◌*◌, ◌^◌, ◌≤◌, ◌-ℤ◌, lookup, arith, List, [], ◌∷◌, ◌++◌, ◌&&◌, contains, is_nonempty,
}
use uplinkmgr.Generator.Stale.{remove_stale_files, contains-remove_stale_files}
use uplinkmgr.Config.{Config}
use uplinkmgr.StateMachine.{UplinkState, initial, up, down}
use uplinkmgr.Generator.Advert.{clamp_default_lifetime}
use uplinkmgr.Radvd.{regenerate_all, sighup, Ipaddress, derive_prefixes}
use uplinkmgr.Radvd.Preference.{HasPrimaryName}
use uplinkmgr.Radvd.Exclusive.{ShowsAll, ShowsNone, regenerate_all_exclusive}
use uplinkmgr.Tests.Samples.{cable, home, home-HasMacvlans, home-IsNamed, home-HasDistinctMacvlans}
use uplinkmgr.State.{Ipv6PdState, Ipv6RaState}
use uplinkmgr.Naming.{radvd_conf_path, macvlan_name, split_digits, chomp, slice_to, uplink_suffix}
use uplinkmgr.Uplink.Places.{macvlan_at}
use uplinkmgr.Prelude.Decimal.{str_ℕ}
use uplinkmgr.Radvd.Lifetimes.{ShowsTaken, regenerate_all-AreTaken}
use uplinkmgr.Radvd.Files.{content_of, AreWritten, regenerate_all-AreWritten}
use uplinkmgr.Effect.{Trace}
use uplinkmgr.Tests.Configs.{home-IsValid}
use uplinkmgr.Config.Loaded.{IsValid}
use uplinkmgr.Daemon.Booked.{IsNamed}
use uplinkmgr.Radvd.Subnets.{network_at, lookup-derive_prefixes}

-- A configuration that shows the clients one router only.
abbrev exclusive : Config
exclusive = record home { exclusive_preferred_pd = true }

abbrev all_up : Text → UplinkState
all_up name = record (initial name) { ipv6 = up }

abbrev all_down : Text → UplinkState
all_down name = record (initial name) { ipv6 = down }

clamped : clamp_default_lifetime (pos 17) ≡ pos 300
unfolding clamp_default_lifetime
clamped = refl

-- The file of an uplink that is gone, beside that of one that is there.
abbrev conf_files : List Text
conf_files =
    text "radvd-uplinkmgr-comcast.conf" ∷ text "radvd-uplinkmgr-old.conf" ∷ text "README" ∷ []

some_suffix : is_nonempty (text ".conf") ≡ true
unfolding text
some_suffix = refl

contains-remove_stale_files_example :
    contains (text "radvd-uplinkmgr-" ++ (text "old" ++ text ".conf")) (
      remove_stale_files
        (text "radvd-uplinkmgr-")
        (text "comcast" ∷ [])
        (text ".conf")
        false
        conf_files)
    ≡ (contains (text "radvd-uplinkmgr-" ++ (text "old" ++ text ".conf")) conf_files
        && contains (text "old") (text "comcast" ∷ []))
contains-remove_stale_files_example =
    contains-remove_stale_files (text "radvd-uplinkmgr-") (text ".conf") some_suffix
      (text "comcast" ∷ []) conf_files (text "old")

-- Addresses are numbers, and a network is written by its first one.
abbrev by_number : Ipaddress
by_number = record {
  Address = ℕ;
  network_address = λ s. some (2 ^ 80);
  add = λ base n. some (base + n);
  network64 = λ address. some (str_ℕ address);
}

abbrev delegation : Ipv6PdState
delegation = record {
  delegated_prefix = text "2001:db8::";
  delegated_length = pos 56;
  vltime = pos 7200;
  pltime = pos 1800;
  timestamp = pos 1000;
}

lookup-derive_prefixes_example :
    (lookup (text "br_guest-u0") (derive_prefixes by_number home cable (some delegation))
      ≡ network_at by_number (2 ^ 80) 1)
    × (2 * 2 ^ 64 ≤ 2 ^ 72)
unfolding macvlan_at macvlan_name split_digits chomp slice_to uplink_suffix str_ℕ text ◌-ℤ◌
lookup-derive_prefixes_example =
    lookup-derive_prefixes by_number home cable delegation (2 ^ 80) home-HasMacvlans
      home-HasDistinctMacvlans (omega arith) (omega arith) refl
      (λ n lt. (str_ℕ (2 ^ 80 + n * 2 ^ 64), refl)) 1 (text "br_guest-u0") (omega arith) refl

-- The first uplink has a delegation.
abbrev delegations : Text → Option Ipv6PdState
delegations name = if name == text "comcast" then some delegation else none

abbrev no_routers : Text → Option Ipv6RaState
no_routers name = none

regenerate_all-AreWritten_example :
    (after : Trace) × (regenerate_all by_number home all_up
        (pos 1500)
        no_routers
        delegations
        sighup
        []
      ≡ some after)
    × AreWritten by_number home all_up (pos 1500) no_routers delegations home.uplinks [] after
regenerate_all-AreWritten_example =
    regenerate_all-AreWritten by_number home all_up (pos 1500) no_routers delegations home-IsValid
      home-IsNamed sighup []

exclusive-IsValid : IsValid exclusive
exclusive-IsValid = record {
  table_start = home-IsValid.table_start;
  table_end = home-IsValid.table_end;
  timeout = home-IsValid.timeout;
  some_network = home-IsValid.some_network;
  some_uplink = home-IsValid.some_uplink;
  network = home-IsValid.network;
  uplink = home-IsValid.uplink;
  apart = home-IsValid.apart;
}

exclusive-IsNamed : IsNamed exclusive
unfolding macvlan_at
exclusive-IsNamed = home-IsNamed

regenerate_all-AreTaken_example :
    (after : Trace) × (regenerate_all by_number home all_up
        (pos 1500)
        no_routers
        delegations
        sighup
        []
      ≡ some after)
    × ShowsTaken by_number home all_up (pos 1500) no_routers delegations cable after
unfolding text ◌==◌
regenerate_all-AreTaken_example =
    regenerate_all-AreTaken by_number home all_up (pos 1500) no_routers delegations home-IsValid
      home-IsNamed sighup [] 0 cable refl refl (omega arith)

regenerate_all_exclusive_example :
    (after : Trace) × (regenerate_all by_number exclusive all_up
        (pos 1500)
        no_routers
        delegations
        sighup
        []
      ≡ some after)
    × ((HasPrimaryName exclusive all_up cable
          × ShowsAll by_number exclusive all_up
              (pos 1500)
              no_routers
              delegations
              cable
              (content_of (radvd_conf_path cable.name) after))
        ⊎ ((¬ HasPrimaryName exclusive all_up cable)
            × ShowsNone by_number exclusive all_up
                (pos 1500)
                no_routers
                delegations
                cable
                (content_of (radvd_conf_path cable.name) after)))
regenerate_all_exclusive_example =
    regenerate_all_exclusive by_number exclusive all_up (pos 1500) no_routers delegations refl
      exclusive-IsValid exclusive-IsNamed sighup [] 0 cable refl refl
