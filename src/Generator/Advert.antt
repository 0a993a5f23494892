-- ===== src/Generator/Advert.antt =====
-- The radvd configuration of one uplink (src/uplinkmgr/generator.py).
use uplinkmgr.Prelude.{
  ℕ, List, [], ◌∷◌, ◌++◌, Bool, Option, none, some, Text, text, ℤ, pos, leb_ℤ, ltb_ℤ, Dict, lookup,
  if◌then◌else◌,
}
use uplinkmgr.Prelude.Decimal.{str_ℤ}
use uplinkmgr.Config.{Config, NetworkConfig, UplinkConfig}
use uplinkmgr.State.{◌>>=◌}
use uplinkmgr.Generator.{newline, join, macvlan_lines}

abbrev pub initial_valid_lifetime : ℤ
initial_valid_lifetime = pos 7200

abbrev pub initial_preferred_lifetime : ℤ
initial_preferred_lifetime = pos 1800

abbrev pub initial_default_lifetime : ℤ
initial_default_lifetime = pos 1800

abbrev pub max_rtr_adv_interval : ℤ
max_rtr_adv_interval = pos 300

abbrev pub adv_default_lifetime_max : ℤ
adv_default_lifetime_max = pos 9000

unfoldable pub clamp_default_lifetime : ℤ → ℤ
clamp_default_lifetime seconds =
    if leb_ℤ seconds (pos 0)
    then pos 0
    else if ltb_ℤ seconds max_rtr_adv_interval
    then max_rtr_adv_interval
    else if ltb_ℤ adv_default_lifetime_max seconds
    then adv_default_lifetime_max
    else seconds

unfoldable pub radvd_interface_block :
    (iface preference : Text)
    → ℤ
    → (prefix : Text) → (valid_lifetime preferred_lifetime : ℤ) → List Text
unfolding clamp_default_lifetime
radvd_interface_block iface preference default_lifetime prefix valid_lifetime preferred_lifetime =
    (text "interface " ++ iface)
    ∷ text "{"
    ∷ text "    AdvSendAdvert on;"
    ∷ (text "    MaxRtrAdvInterval " ++ str_ℤ max_rtr_adv_interval ++ text ";")
    ∷ (text "    AdvDefaultPreference " ++ preference ++ text ";")
    ∷ (text "    AdvDefaultLifetime "
        ++ str_ℤ (clamp_default_lifetime default_lifetime)
        ++ text ";")
    ∷ []
    ∷ (text "    prefix " ++ prefix)
    ∷ text "    {"
    ∷ text "        AdvOnLink on;"
    ∷ text "        AdvAutonomous on;"
    ∷ text "        AdvRouterAddr on;"
    ∷ (text "        AdvValidLifetime " ++ str_ℤ valid_lifetime ++ text ";")
    ∷ (text "        AdvPreferredLifetime " ++ str_ℤ preferred_lifetime ++ text ";")
    ∷ text "        DecrementLifetimes off;"
    ∷ text "    };"
    ∷ []
    ∷ text "};"
    ∷ []
    ∷ []

unfoldable pub radvd_conf : Config → UplinkConfig → Option Text
unfolding radvd_interface_block macvlan_lines
radvd_conf cfg uplink =
    let block_of = λ (net_idx : ℕ) (net : NetworkConfig) (mv : Text).
      radvd_interface_block mv (text "high") initial_default_lifetime (text "::/64")
        initial_valid_lifetime initial_preferred_lifetime in
    macvlan_lines uplink.index block_of 0 cfg.networks >>= λ blocks. some (
      join newline (
        (text "# Generated by uplinkmgr-setup for uplink: " ++ uplink.name)
        ∷ text "# Do not edit by hand. The daemon regenerates this file with live lifetimes."
        ∷ []
        ∷ blocks)
      ++ newline)

-- per_iface_prefixes.get(mv, "::/64")
abbrev pub prefix_of : Dict Text → Text → Text
prefix_of per_iface_prefixes mv = elim (lookup mv per_iface_prefixes) [
  | some prefix ↦ prefix
  | none ↦ text "::/64"
]

unfoldable pub radvd_conf_from_state :
    Config
    → UplinkConfig
    → (preference : Text) → (default_lifetime : ℤ) → Dict Text
    → (valid_lifetime preferred_lifetime : ℤ) → (is_down : Bool) → Option Text
unfolding radvd_interface_block macvlan_lines
radvd_conf_from_state cfg uplink preference default_lifetime per_iface_prefixes valid_lifetime
      preferred_lifetime is_down =
    let eff_default = if is_down then pos 0 else default_lifetime in
    let eff_preferred = if is_down then pos 0 else preferred_lifetime in
    let eff_valid = if is_down then pos 0 else valid_lifetime in
    let block_of = λ (net_idx : ℕ) (net : NetworkConfig) (mv : Text).
      radvd_interface_block mv preference eff_default (prefix_of per_iface_prefixes mv) eff_valid
        eff_preferred in
    macvlan_lines uplink.index block_of 0 cfg.networks >>= λ blocks. some (
      join newline (
        (text "# Generated by uplinkmgr daemon for uplink: " ++ uplink.name)
        ∷ text "# Do not edit by hand."
        ∷ []
        ∷ blocks)
      ++ newline)
