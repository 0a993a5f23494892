-- ===== src/Tests/Names.antt =====
-- Interface names and rule priorities at concrete uplinks and networks.
use uplinkmgr.Prelude.{
  ◌≤◌, ◌≡◌, ◌≢◌, refl, ◌==◌, contains, some, none, text, length, pos, [], ◌∷◌, arith,
}
use uplinkmgr.Prelude.Decimal.{str_ℕ, str_ℤ, hex}
use uplinkmgr.Naming.{
  macvlan_name, split_digits, chomp, slice_to, uplink_suffix, mac_address, validate_macvlan_names,
  valid,
}
use uplinkmgr.Naming.Macvlan.{macvlan_name-distinct_uplinks, length-macvlan_name}
use uplinkmgr.Priority.Distinct.{fwd6, reject6, priority6_distinct, priority6}
use uplinkmgr.Routing.{argv, add_ipv6_fwd_to_uplink_rule}
use uplinkmgr.Uplink.Loops.{HasMacvlans}
use uplinkmgr.Uplink.Places.{HasDistinctMacvlans}
use uplinkmgr.Uplink.Validated.{validate_macvlan_names-HasDistinctMacvlans}
use uplinkmgr.Tests.Samples.{cable, home}

vlan_name : macvlan_name (text "sfp0.20") 3 ≡ some (text "sfp0_20-u3")
unfolding macvlan_name split_digits chomp slice_to uplink_suffix str_ℕ text
vlan_name = refl

truncated_name : macvlan_name (text "averylongname20") 11 ≡ some (text "averylong20-u11")
unfolding macvlan_name split_digits chomp slice_to uplink_suffix str_ℕ text
truncated_name = refl

too_long_name : macvlan_name (text "123456789012345") 0 ≡ none
unfolding macvlan_name split_digits chomp slice_to uplink_suffix str_ℕ text
too_long_name = refl

mac_example : mac_address 10 1 ≡ text "52:0a:01:00:00:00"
unfolding mac_address hex text
mac_example = refl

home_is_valid : validate_macvlan_names home ≡ valid
unfolding validate_macvlan_names macvlan_name split_digits chomp slice_to uplink_suffix str_ℕ text
    contains ◌==◌
home_is_valid = refl

fwd_words :
    argv (add_ipv6_fwd_to_uplink_rule (text "vlan10-u0") (pos 161) (pos 29001) none)
    ≡ text "ip"
      ∷ text "-6"
      ∷ text "rule"
      ∷ text "add"
      ∷ text "iif"
      ∷ text "vlan10-u0"
      ∷ text "lookup"
      ∷ text "161"
      ∷ text "priority"
      ∷ text "29001"
      ∷ []
unfolding argv add_ipv6_fwd_to_uplink_rule str_ℤ text
fwd_words = refl

macvlan_name-distinct_uplinks_example : macvlan_name (text "sfp0.20") 4 ≢ some (text "sfp0_20-u3")
macvlan_name-distinct_uplinks_example =
    macvlan_name-distinct_uplinks (text "sfp0.20") (text "sfp0.20") 3 4 (omega arith) vlan_name

length-macvlan_name_example : length (text "averylong20-u11") ≤ 15
length-macvlan_name_example =
    length-macvlan_name (text "averylongname20") 11 (omega arith) truncated_name

priority6_distinct_example : priority6 home (fwd6 1 1) ≢ priority6 home (reject6 0 0)
priority6_distinct_example =
    priority6_distinct home (fwd6 1 1) (reject6 0 0) (omega arith) (omega arith) (λ e. cc)

validate_macvlan_names-HasDistinctMacvlans_example :
    HasMacvlans home cable × HasDistinctMacvlans home cable
validate_macvlan_names-HasDistinctMacvlans_example =
    validate_macvlan_names-HasDistinctMacvlans home 0 cable home_is_valid refl refl
