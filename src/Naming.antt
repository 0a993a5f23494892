-- ===== src/Naming.antt =====
-- Names of interfaces, tables and files (src/uplinkmgr/naming.py). A `ValueError` is `none`.
pub mod Macvlan
pub mod Paths
use uplinkmgr.Prelude.{
  ℕ, zero, suc, ◌+◌, ◌-◌, ◌*◌, List, [], ◌∷◌, ◌++◌, map, Bool, true, false, ◌&&◌, Option, none,
  some, Text, text, ℤ, pos, negsuc, ◌+ℤ◌, length, take, leb, eqb, ltb, if◌then◌else◌, contains,
  is_nonempty,
}
use uplinkmgr.Prelude.Decimal.{str_ℕ, hex, is_digit}
use uplinkmgr.Config.{Config, NetworkConfig, UplinkConfig}

-- net_iface.replace('.', '_')
abbrev pub undot : ℕ → ℕ
undot c = if eqb c b'.' then b'_' else c

-- The text before the digits that end it, and these digits.
unfoldable pub split_digits : Text → Text × Text
split_digits [] = ([], [])
split_digits (c ∷ s) =
    let (front, digits) = split_digits s in
    if is_nonempty front
    then (c ∷ front, digits)
    else if is_digit c
    then ([], c ∷ digits)
    else (c ∷ [], digits)

-- `$` stands at the end, or before a newline that ends the text.
unfoldable pub chomp : Text → Text
chomp [] = []
chomp (c ∷ []) = if eqb c 10 then [] else c ∷ []
chomp (c ∷ d ∷ s) = c ∷ chomp (d ∷ s)

-- s[:n] for n = a - b
unfoldable pub slice_to : ℕ → ℕ → Text → Text
slice_to a b s = if leb b a then take (a - b) s else take (length s - (b - a)) s

-- f"-u{uplink_idx}"
unfoldable pub uplink_suffix : ℕ → Text
uplink_suffix uplink_idx = text "-u" ++ str_ℕ uplink_idx

unfoldable pub macvlan_name : Text → ℕ → Option Text
macvlan_name net_iface uplink_idx =
    let iface = map undot net_iface in
    let suffix = uplink_suffix uplink_idx in
    let (alpha_prefix, numeric_suffix) = split_digits (chomp iface) in
    let taken = length numeric_suffix + length suffix in
    if is_nonempty numeric_suffix
    then if ltb 15 taken
      then none
      else some (take (15 - taken) alpha_prefix ++ numeric_suffix ++ suffix)
    else some (slice_to 15 (length suffix) iface ++ suffix)

-- f"{n:02x}"
abbrev hex2 : ℕ → Text
hex2 n = if ltb n 16 then text "0" ++ hex n else hex n

unfoldable pub mac_address : ℕ → ℕ → Text
mac_address uplink_idx net_idx =
    text "52:" ++ hex2 uplink_idx ++ text ":" ++ hex2 net_idx ++ text ":00:00:00"

unfoldable pub macvlan_iaid : ℕ → ℕ → ℕ
macvlan_iaid uplink_idx net_idx = 0x1000 + uplink_idx * 256 + net_idx

unfoldable pub link_local : ℕ → Text
link_local uplink_idx = text "fe80::1:" ++ str_ℕ (uplink_idx + 1)

unfoldable pub ipv4_table_num : ℤ → ℤ
ipv4_table_num routing_table_start = routing_table_start

unfoldable pub ipv4_table_name : Text
ipv4_table_name = text "uplinkmgr"

unfoldable pub ipv6_table_num : ℤ → ℕ → ℤ
ipv6_table_num routing_table_start uplink_idx = routing_table_start +ℤ pos 1 +ℤ pos uplink_idx

unfoldable pub ipv6_table_name : Text → Text
ipv6_table_name uplink_name = text "uplinkmgr_" ++ uplink_name

unfoldable pub dhcpcd_conf_path : Text
dhcpcd_conf_path = text "/etc/uplinkmgr/dhcpcd/dhcpcd.conf"

unfoldable pub dhcpcd_conf_head_path : Text
dhcpcd_conf_head_path = text "/etc/uplinkmgr/dhcpcd/dhcpcd.conf.head"

unfoldable pub dhcpcd_conf_tail_path : Text
dhcpcd_conf_tail_path = text "/etc/uplinkmgr/dhcpcd/dhcpcd.conf.tail"

unfoldable pub hook_debug_env_path : Text → Text
hook_debug_env_path state_dir = state_dir ++ text "/debug.env"

unfoldable pub hook_log_path : Text → Text
hook_log_path state_dir = state_dir ++ text "/hook.log"

unfoldable pub radvd_conf_path : Text → Text
radvd_conf_path uplink_name =
    text "/etc/uplinkmgr/radvd/radvd-uplinkmgr-" ++ uplink_name ++ text ".conf"

unfoldable pub radvd_unit_name : Text → Text
radvd_unit_name uplink_name = text "radvd-uplinkmgr@" ++ uplink_name ++ text ".service"

unfoldable pub env_file_path : Text → Text
env_file_path uplink_name = text "/etc/uplinkmgr/uplinks/" ++ uplink_name ++ text ".env"

unfoldable pub env_symlink_path : Text → Text
env_symlink_path iface = text "/etc/uplinkmgr/uplinks/" ++ iface ++ text ".env"

-- How `validate_macvlan_names` ends: it returns, or it raises for a name that cannot be made or
-- for a name that is made twice.
pub data Validation : Type 0 where
  valid too_long : Validation
  collision : Text → Validation

-- The inner loop over the networks of one uplink: the names seen so far, or the end.
unfoldable pub validate_networks :
    ℕ → List Text → List NetworkConfig → (List Text → Validation) → Validation
validate_networks uplink_idx seen [] after = after seen
validate_networks uplink_idx seen (net ∷ nets) after =
    let rest = λ (mv : Text). validate_networks uplink_idx (mv ∷ seen) nets after in
    elim (macvlan_name net.interface uplink_idx) [
      | none ↦ too_long
      | some mv ↦ if contains mv seen then collision mv else rest mv
    ]

unfoldable pub validate_uplinks : List NetworkConfig → List Text → List UplinkConfig → Validation
unfolding validate_networks
validate_uplinks nets seen [] = valid
validate_uplinks nets seen (uplink ∷ uplinks) =
    let rest = λ (seen' : List Text). validate_uplinks nets seen' uplinks in
    if uplink.ipv6_pd then validate_networks uplink.index seen nets rest else rest seen

unfoldable pub validate_macvlan_names : Config → Validation
unfolding validate_uplinks
validate_macvlan_names cfg = validate_uplinks cfg.networks [] cfg.uplinks
