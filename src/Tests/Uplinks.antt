-- ===== src/Tests/Uplinks.antt =====
-- The uplink of the sample configuration, from startup to teardown.
use uplinkmgr.Prelude.{
  ◌≡◌, refl, ◌&&◌, some, is_some, text, ◌==◌, pos, lookup, insert, if◌then◌else◌, arith,
}
use uplinkmgr.StateMachine.{down, is_up, initial}
use uplinkmgr.State.{read_ipv4_state, read_kv, split_lines, strip, partition}
use uplinkmgr.Uplink.View.{View}
use uplinkmgr.Uplink.Reconcile.{reconcile_uplink_ipv4, reconcile_uplink_ipv6}
use uplinkmgr.Uplink.Ledger.{held, one_if}
use uplinkmgr.Uplink.Places.{shared_route, own_route, lo4_rule, IsAccounted}
use uplinkmgr.Uplink.Invariant.{
  ReturnsAccounted, reconcile_uplink_ipv4-IsAccounted, reconcile_uplink_ipv6-IsAccounted,
}
use uplinkmgr.Uplink.Desired.{has_address, reconcile_uplink_ipv4-held, reconcile_uplink_ipv4_idem}
use uplinkmgr.Tests.Samples.{
  cable, home, leased, no_files, fresh_view, fresh_view-IsAccounted, home-HasMacvlans,
  home-HasDistinctMacvlans,
}

lease_read :
    read_ipv4_state leased (text "comcast")
    ≡ some (record { gateway = text "203.0.113.1"; address = text "203.0.113.7" })
unfolding read_ipv4_state leased read_kv split_lines strip partition lookup insert text ◌==◌
lease_read = refl

reconcile_uplink_ipv6-IsAccounted_example :
    ReturnsAccounted home cable (reconcile_uplink_ipv6 home leased cable (pos 2000) fresh_view)
reconcile_uplink_ipv6-IsAccounted_example =
    reconcile_uplink_ipv6-IsAccounted home cable (omega arith) home-HasMacvlans
      home-HasDistinctMacvlans leased (pos 2000) fresh_view fresh_view-IsAccounted

abbrev leased_view : View
leased_view = reconcile_uplink_ipv4 home leased cable fresh_view

leased_view-IsAccounted : IsAccounted home cable leased_view
leased_view-IsAccounted =
    reconcile_uplink_ipv4-IsAccounted home cable (omega arith) leased fresh_view
      fresh_view-IsAccounted

reconcile_uplink_ipv4-held_example :
    let after = reconcile_uplink_ipv4 home leased cable fresh_view in
    let routed =
      is_up (initial (text "comcast")).ipv4 && is_some (read_ipv4_state leased (text "comcast")) in
    (held (shared_route home cable) after.trace ≡ one_if routed)
    × (held (own_route home cable) after.trace ≡ one_if routed)
    × (held (lo4_rule home cable) after.trace
        ≡ one_if (routed && has_address (read_ipv4_state leased (text "comcast"))))
    × (after.health.ipv4 ≡ (
        if is_some (read_ipv4_state leased (text "comcast"))
        then (initial (text "comcast")).ipv4
        else down))
reconcile_uplink_ipv4-held_example =
    reconcile_uplink_ipv4-held home leased cable fresh_view (omega arith) fresh_view-IsAccounted

reconcile_uplink_ipv4_idem_example :
    reconcile_uplink_ipv4 home no_files cable (reconcile_uplink_ipv4 home no_files cable fresh_view)
    ≡ reconcile_uplink_ipv4 home no_files cable fresh_view
reconcile_uplink_ipv4_idem_example = reconcile_uplink_ipv4_idem home no_files cable fresh_view
