-- ===== src/Generator.antt =====
-- The texts of the configuration files (src/uplinkmgr/generator.py). `none` is the ValueError of
-- `macvlan_name`, which no function here catches.
pub mod Disk
pub mod Stale
pub mod Advert
pub mod Lifetimes
use uplinkmgr.Prelude.{
  ℕ, suc, ◌+◌, List, [], ◌∷◌, ◌++◌, map, Bool, Option, none, some, Text, text, ◌==◌, ℤ, pos, leb_ℤ,
  ltb_ℤ, Dict, lookup, is_nonempty, if◌then◌else◌,
}
use uplinkmgr.Prelude.Decimal.{str_ℕ, str_ℤ}
use uplinkmgr.Config.{Config, NetworkConfig, UplinkConfig}
use uplinkmgr.State.{◌>>=◌}
use uplinkmgr.Hooks.{ends_with}
use uplinkmgr.Naming.{
  macvlan_name, mac_address, macvlan_iaid, link_local, ipv4_table_num, ipv4_table_name,
  ipv6_table_num, ipv6_table_name,
}

abbrev pub newline : Text
newline = 10 ∷ []

abbrev tab : Text
tab = 9 ∷ []

abbrev generated : Text
generated =
    text "# Generated by uplinkmgr-setup. Do not edit by hand."
    ++ newline
    ++ text "# Regenerate with: uplinkmgr-setup"
    ++ newline

-- sep.join(lines)
unfoldable pub join : Text → List Text → Text
join sep [] = []
join sep (line ∷ []) = line
join sep (line ∷ next ∷ lines) = line ++ sep ++ join sep (next ∷ lines)

-- What a loop over `enumerate(cfg.networks)` makes of the macvlans of an uplink, in their order.
unfoldable pub macvlan_lines :
    ℕ → (ℕ → NetworkConfig → Text → List Text) → ℕ → List NetworkConfig → Option (List Text)
macvlan_lines uplink_idx lines_of net_idx [] = some []
macvlan_lines uplink_idx lines_of net_idx (net ∷ nets) =
    macvlan_name net.interface uplink_idx >>= λ mv.
    macvlan_lines uplink_idx lines_of (suc net_idx) nets >>= λ rest.
    some (lines_of net_idx net mv ++ rest)

-- What a loop over the uplinks makes of them.
unfoldable pub uplink_lines :
    (UplinkConfig → Option (List Text)) → List UplinkConfig → Option (List Text)
uplink_lines lines_of [] = some []
uplink_lines lines_of (uplink ∷ uplinks) =
    lines_of uplink >>= λ own. uplink_lines lines_of uplinks >>= λ rest. some (own ++ rest)

unfoldable pub interface_lines : UplinkConfig → ℕ → NetworkConfig → Text → List Text
interface_lines uplink net_idx net mv =
    let ll = link_local uplink.index in
    (text "auto " ++ mv)
    ∷ (text "iface " ++ mv ++ text " inet manual")
    ∷ (text "    pre-up ip link add link "
        ++ net.interface
        ++ text " name "
        ++ mv
        ++ text " type macvlan mode private")
    ∷ (text "    pre-up ip link set " ++ mv ++ text " address " ++ mac_address uplink.index net_idx)
    ∷ (text "    pre-up sysctl -q net.ipv6.conf." ++ mv ++ text ".addr_gen_mode=1")
    ∷ (text "    up ip link set " ++ mv ++ text " up")
    ∷ (text "    up ip -6 addr add " ++ ll ++ text "/64 dev " ++ mv ++ text " scope link")
    ∷ (text "    down ip -6 addr del "
        ++ ll
        ++ text "/64 dev "
        ++ mv
        ++ text " scope link 2>/dev/null || true")
    ∷ (text "    down ip link del " ++ mv ++ text " 2>/dev/null || true")
    ∷ []
    ∷ []

unfoldable pub interfaces_file : Config → Option Text
unfolding interface_lines macvlan_lines uplink_lines
interfaces_file cfg =
    uplink_lines
      (λ uplink.
        if uplink.ipv6_pd
        then macvlan_lines uplink.index (interface_lines uplink) 0 cfg.networks
        else some [])
      cfg.uplinks
    >>= λ lines. some (join newline (generated ∷ lines))

-- The interfaces that dhcpcd may use.
unfoldable pub allowed_interfaces : Config → Option (List Text)
unfolding macvlan_lines uplink_lines
allowed_interfaces cfg =
    uplink_lines
      (λ uplink.
        if uplink.ipv6_pd
        then (macvlan_lines uplink.index (λ net_idx net mv. mv ∷ []) 0 cfg.networks >>= λ names.
            some (uplink.interface ∷ names))
        else some (uplink.interface ∷ []))
      cfg.uplinks

-- The lines for the addresses and the prefixes that an uplink asks for.
unfoldable pub request_lines : Config → UplinkConfig → Option (List Text)
unfolding macvlan_lines
request_lines cfg uplink =
    let iaid = if uplink.ia_na then 2 else 1 in
    let na = if uplink.ia_na then (text "    ia_na " ++ str_ℕ 1) ∷ [] else [] in
    let delegations =
      macvlan_lines uplink.index
        (λ net_idx net mv. (mv ++ text "/" ++ str_ℕ net_idx ++ text "/64") ∷ []) 0 cfg.networks in
    let pd : Option (List Text) = delegations >>= λ pd_delegations. some (
      (text "    ia_pd "
        ++ str_ℕ iaid
        ++ text "/::/"
        ++ str_ℤ uplink.ipv6_pd_hint
        ++ text " "
        ++ join (text " ") pd_delegations)
      ∷ []) in
    if uplink.ipv6_pd
    then (pd >>= λ lines. some (text "    ipv6rs" ∷ na ++ lines ++ text "    duid" ∷ []))
    else if uplink.ia_na
    then some (text "    ipv6rs" ∷ na ++ text "    duid" ∷ [])
    else some []

unfoldable pub macvlan_stanza : UplinkConfig → ℕ → NetworkConfig → Text → List Text
macvlan_stanza uplink net_idx net mv =
    (text "interface " ++ mv)
    ∷ (text "    iaid " ++ str_ℕ (macvlan_iaid uplink.index net_idx))
    ∷ text "    ipv6only"
    ∷ []
    ∷ []

unfoldable pub uplink_stanza : Config → UplinkConfig → Option (List Text)
unfolding request_lines macvlan_stanza macvlan_lines
uplink_stanza cfg uplink =
    let macvlans : Option (List Text) =
      if uplink.ipv6_pd
      then macvlan_lines uplink.index (macvlan_stanza uplink) 0 cfg.networks
      else some [] in
    request_lines cfg uplink >>= λ requests. macvlans >>= λ stanzas. some (
      (text "interface " ++ uplink.interface)
        ∷ (text "    metric " ++ str_ℤ uplink.metric)
        ∷ requests
      ++ ([] ∷ stanzas))

-- A head or a tail, with a newline at its end.
abbrev terminated : Text → Text
terminated s = if ends_with s newline then s else s ++ newline

unfoldable pub dhcpcd_conf : Config → (head tail : Text) → Option Text
unfolding allowed_interfaces uplink_stanza uplink_lines
dhcpcd_conf cfg head tail = allowed_interfaces cfg >>= λ all_ifaces.
    uplink_lines (uplink_stanza cfg) cfg.uplinks >>= λ lines.
    let allow = text "allowinterfaces " ++ join (text " ") all_ifaces in
    let body = join newline (allow ∷ [] ∷ lines) ++ newline in
    let headed = if is_nonempty head then terminated head ++ newline ++ body else body in
    let tailed = if is_nonempty tail then headed ++ newline ++ terminated tail else headed in
    some (generated ++ tailed)

unfoldable pub rt_tables : Config → Text
rt_tables cfg =
    let line_of = λ (num : ℤ) (name : Text). str_ℤ num ++ tab ++ name in
    let start = cfg.routing_table_start in
    let uplinks =
      map (λ uplink. line_of (ipv6_table_num start uplink.index) (ipv6_table_name uplink.name))
        cfg.uplinks in
    join newline (generated ∷ [] ∷ line_of (ipv4_table_num start) ipv4_table_name ∷ uplinks)
    ++ newline

abbrev true_or_false : Bool → Text
true_or_false b = if b then text "true" else text "false"

unfoldable pub env_file : UplinkConfig → Text
env_file uplink =
    text "# Generated by uplinkmgr-setup for uplink: "
    ++ uplink.name
    ++ newline
    ++ text "# Do not edit by hand."
    ++ newline
    ++ text "UPLINKMGR_UPLINK_NAME="
    ++ uplink.name
    ++ newline
    ++ text "UPLINKMGR_WAN_IFACE="
    ++ uplink.interface
    ++ newline
    ++ text "UPLINKMGR_IPV6_PD="
    ++ true_or_false uplink.ipv6_pd
    ++ newline
    ++ text "UPLINKMGR_IPV6_IA_NA="
    ++ true_or_false uplink.ia_na
    ++ newline
