-- ===== src/Priority.antt =====
-- The allocation of `ip rule` priorities (src/uplinkmgr/priority.py).
pub mod Distinct
use uplinkmgr.Prelude.{ℕ, ◌+◌, ◌*◌, ℤ, pos, ◌+ℤ◌, length}
use uplinkmgr.Config.{Config}

unfoldable pub ipv4_internal_traffic_priority : Config → ℤ
ipv4_internal_traffic_priority cfg = cfg.rule_priority_start

unfoldable pub ipv4_lo_to_uplink_priority : Config → ℕ → ℤ
ipv4_lo_to_uplink_priority cfg uplink_idx = cfg.rule_priority_start +ℤ pos 1 +ℤ pos uplink_idx

unfoldable pub ipv4_fwd_to_wan_priority : Config → ℤ
ipv4_fwd_to_wan_priority cfg = cfg.rule_priority_start +ℤ pos 1 +ℤ pos (length cfg.uplinks)

unfoldable pub ipv6_internal_traffic_priority : Config → ℤ
ipv6_internal_traffic_priority cfg = cfg.rule_priority_start

unfoldable pub ipv6_fwd_to_uplink_priority : Config → ℕ → ℕ → ℤ
ipv6_fwd_to_uplink_priority cfg uplink_idx net_idx =
    cfg.rule_priority_start +ℤ pos 1 +ℤ pos (uplink_idx * length cfg.networks) +ℤ pos net_idx

unfoldable pub ipv6_lo_to_uplink_priority : Config → ℕ → ℤ
ipv6_lo_to_uplink_priority cfg uplink_idx =
    let n = length cfg.uplinks * length cfg.networks in
    cfg.rule_priority_start +ℤ pos 1 +ℤ pos n +ℤ pos uplink_idx

unfoldable pub ipv6_reject_wrong_pd_src_priority : Config → ℕ → ℕ → ℤ
ipv6_reject_wrong_pd_src_priority cfg uplink_idx net_idx =
    let n = length cfg.uplinks * length cfg.networks in
    cfg.rule_priority_start
    +ℤ pos 1
    +ℤ pos n
    +ℤ pos (length cfg.uplinks)
    +ℤ pos (uplink_idx * length cfg.networks)
    +ℤ pos net_idx

unfoldable pub ipv6_pd_lo_to_uplink_priority : Config → ℕ → ℤ
ipv6_pd_lo_to_uplink_priority cfg uplink_idx =
    let n = length cfg.uplinks * length cfg.networks in
    cfg.rule_priority_start +ℤ pos 1 +ℤ pos n +ℤ pos (length cfg.uplinks) +ℤ pos n +ℤ pos uplink_idx
