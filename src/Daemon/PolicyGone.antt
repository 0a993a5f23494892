-- ===== src/Daemon/PolicyGone.antt =====
-- The rules of the policy are gone after the end of `_teardown_all`.
use uplinkmgr.Prelude.{ℕ, ◌≡◌, false, arith}
use uplinkmgr.Config.{Config}
use uplinkmgr.Routing.{del_ipv4_policy_rules, del_ipv6_policy_rule}
use uplinkmgr.Priority.Distinct.{internal4, wan4, internal6}
use uplinkmgr.Uplink.Ledger.{Place, held, same_refl, one_if}
use uplinkmgr.Daemon.Slots.{Slot, rule4, rule6, place}
use uplinkmgr.Daemon.Machine.{Daemon, teardown_policy4, teardown_policy6}

pub teardown_policy-zero :
    (d : Daemon) (k : Place)
    → held k d.trace ≡ 0
    → held k (teardown_policy6 (teardown_policy4 d)).trace ≡ 0
unfolding teardown_policy4 teardown_policy6 del_ipv4_policy_rules del_ipv6_policy_rule
teardown_policy-zero d k h = ground arith

-- The policy rules themselves.
pub teardown_policy-internal4 :
    (d : Daemon)
    → held (place d.cfg (rule4 internal4)) d.trace ≡ one_if d.ipv4_rules_installed
    → held (place d.cfg (rule4 internal4)) (teardown_policy6 (teardown_policy4 d)).trace ≡ 0
unfolding teardown_policy4 teardown_policy6 del_ipv4_policy_rules del_ipv6_policy_rule
teardown_policy-internal4 d h = ground (arith, same_refl (place d.cfg (rule4 internal4)))

pub teardown_policy-wan4 :
    (d : Daemon)
    → held (place d.cfg (rule4 wan4)) d.trace ≡ one_if d.ipv4_rules_installed
    → held (place d.cfg (rule4 wan4)) (teardown_policy6 (teardown_policy4 d)).trace ≡ 0
unfolding teardown_policy4 teardown_policy6 del_ipv4_policy_rules del_ipv6_policy_rule
teardown_policy-wan4 d h = ground (arith, same_refl (place d.cfg (rule4 wan4)))

pub teardown_policy-internal6 :
    (d : Daemon)
    → held (place d.cfg (rule6 internal6)) d.trace ≡ one_if d.ipv6_rule_installed
    → held (place d.cfg (rule6 internal6)) (teardown_policy6 (teardown_policy4 d)).trace ≡ 0
unfolding teardown_policy4 teardown_policy6 del_ipv4_policy_rules del_ipv6_policy_rule
teardown_policy-internal6 d h = ground (arith, same_refl (place d.cfg (rule6 internal6)))

pub teardown_policy-flags :
    (d : Daemon)
    → ((teardown_policy6 (teardown_policy4 d)).cfg ≡ d.cfg)
      × ((teardown_policy6 (teardown_policy4 d)).ipv4_rules_installed ≡ false)
      × ((teardown_policy6 (teardown_policy4 d)).ipv6_rule_installed ≡ false)
unfolding teardown_policy4 teardown_policy6
teardown_policy-flags d = ground arith

-- A slot that holds what is recorded of the policy rules is empty after they are gone.
abbrev pub IsGone : Config → Daemon → Slot → ℕ → Type 0
IsGone cfg d s recorded =
    held (place cfg s) d.trace ≡ recorded
    → held (place cfg s) (teardown_policy6 (teardown_policy4 d)).trace ≡ 0
