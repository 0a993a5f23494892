-- ===== src/Routing.antt =====
-- The `ip` commands of src/uplinkmgr/routing.py. A `Command` is one call of `_run` or `_run_del`;
-- `argv` is the list of words that the call passes. What the commands do is the kernel's business;
-- a failing command is only logged, so that it has no further effect on the program.
use uplinkmgr.Prelude.{
  List, [], ◌∷◌, ◌++◌, Option, none, some, Text, text, ℤ, pos, eqb_ℤ, if◌then◌else◌,
}
use uplinkmgr.Prelude.Decimal.{str_ℤ}
use uplinkmgr.StateMachine.{Family, ipv4, ipv6}

-- What a rule does with the packets that it selects.
pub data Action : Type 0 where
  lookup_main : Action  -- lookup main suppress_prefixlength 0
  lookup_table : ℤ → Action
  prohibit : Action

pub record Rule : Type 0 where
  pub from : Option Text
  pub iif : Option Text
  pub action : Action
  pub priority : ℤ

pub data Command : Type 0 where
  rule_add : Family → Rule → Command
  rule_del : Family → ℤ → Command
  route4_replace : (gateway iface : Text) (metric table : ℤ) → Command
  route6_replace : (gateway iface : Text) (table : ℤ) (expires : Option ℤ) → Command
  route_del : Family → (iface : Text) (table : ℤ) → Command

abbrev family_words : Family → List Text
family_words ipv4 = text "ip" ∷ []
family_words ipv6 = text "ip" ∷ text "-6" ∷ []

abbrev option_words : Text → Option Text → List Text
option_words key none = []
option_words key (some value) = key ∷ value ∷ []

abbrev action_words : Action → List Text
action_words lookup_main =
    text "lookup" ∷ text "main" ∷ text "suppress_prefixlength" ∷ text "0" ∷ []
action_words (lookup_table t) = text "lookup" ∷ str_ℤ t ∷ []
action_words prohibit = text "prohibit" ∷ []

abbrev expires_words : Option ℤ → List Text
expires_words none = []
expires_words (some n) = text "expires" ∷ str_ℤ n ∷ []

-- The words that `_run` or `_run_del` is called with.
unfoldable pub argv : Command → List Text
argv (rule_add f r) =
    family_words f
    ++ text "rule" ∷ text "add" ∷ option_words (text "from") r.from
    ++ option_words (text "iif") r.iif
    ++ action_words r.action
    ++ text "priority" ∷ str_ℤ r.priority ∷ []
argv (rule_del f p) = family_words f ++ text "rule" ∷ text "del" ∷ text "priority" ∷ str_ℤ p ∷ []
argv (route4_replace gateway iface metric table) =
    text "ip"
    ∷ text "route"
    ∷ text "replace"
    ∷ text "default"
    ∷ text "via"
    ∷ gateway
    ∷ text "dev"
    ∷ iface
    ∷ text "onlink"
    ∷ text "metric"
    ∷ str_ℤ metric
    ∷ text "table"
    ∷ str_ℤ table
    ∷ []
argv (route6_replace gateway iface table expires) =
    text "ip"
    ∷ text "-6"
    ∷ text "route"
    ∷ text "replace"
    ∷ text "default"
    ∷ text "via"
    ∷ gateway
    ∷ text "dev"
    ∷ iface
    ∷ text "table"
    ∷ str_ℤ table
    ∷ expires_words expires
argv (route_del f iface table) =
    family_words f
    ++ text "route"
      ∷ text "del"
      ∷ text "default"
      ∷ text "dev"
      ∷ iface
      ∷ text "table"
      ∷ str_ℤ table
      ∷ []

-- Each function of routing.py, as the commands that it runs, in their order.
unfoldable pub add_ipv4_policy_rules : ℤ → ℤ → ℤ → List Command
add_ipv4_policy_rules internal_traffic_priority fwd_to_wan_priority ipv4_table =
    rule_add ipv4 (record {
      from = none;
      iif = none;
      action = lookup_main;
      priority = internal_traffic_priority;
    })
    ∷ rule_add ipv4 (record {
      from = none;
      iif = none;
      action = lookup_table ipv4_table;
      priority = fwd_to_wan_priority;
    })
    ∷ []

unfoldable pub del_ipv4_policy_rules : ℤ → ℤ → List Command
del_ipv4_policy_rules internal_traffic_priority fwd_to_wan_priority =
    rule_del ipv4 internal_traffic_priority ∷ rule_del ipv4 fwd_to_wan_priority ∷ []

unfoldable pub add_ipv6_policy_rule : ℤ → Command
add_ipv6_policy_rule internal_traffic_priority =
    rule_add ipv6 (record {
      from = none;
      iif = none;
      action = lookup_main;
      priority = internal_traffic_priority;
    })

unfoldable pub del_ipv6_policy_rule : ℤ → Command
del_ipv6_policy_rule internal_traffic_priority = rule_del ipv6 internal_traffic_priority

unfoldable pub replace_ipv4_route : Text → Text → ℤ → ℤ → Command
replace_ipv4_route gateway iface metric table = route4_replace gateway iface metric table

unfoldable pub del_ipv4_route : Text → ℤ → Command
del_ipv4_route iface table = route_del ipv4 iface table

unfoldable pub replace_ipv6_route : Text → Text → ℤ → ℤ → ℤ → Command
replace_ipv6_route gateway iface table lifetime remaining =
    route6_replace gateway iface table (if eqb_ℤ lifetime (pos 0) then none else some remaining)

unfoldable pub del_ipv6_route : Text → ℤ → Command
del_ipv6_route iface table = route_del ipv6 iface table

unfoldable pub add_ipv6_lo_to_uplink_rule : Text → ℤ → ℤ → Command
add_ipv6_lo_to_uplink_rule prefix table priority = rule_add ipv6 (record {
  from = some prefix;
  iif = some (text "lo");
  action = lookup_table table;
  priority = priority;
})

unfoldable pub add_ipv6_fwd_to_uplink_rule : Text → ℤ → ℤ → Option Text → Command
add_ipv6_fwd_to_uplink_rule mv table priority prefix =
    rule_add ipv6
      (record { from = prefix; iif = some mv; action = lookup_table table; priority = priority })

unfoldable pub add_ipv6_reject_wrong_pd_src_rule : Text → ℤ → Command
add_ipv6_reject_wrong_pd_src_rule mv priority =
    rule_add ipv6 (record { from = none; iif = some mv; action = prohibit; priority = priority })

unfoldable pub add_ipv4_lo_to_uplink_rule : Text → ℤ → ℤ → Command
add_ipv4_lo_to_uplink_rule addr table priority = rule_add ipv4 (record {
  from = some addr;
  iif = some (text "lo");
  action = lookup_table table;
  priority = priority;
})

unfoldable pub del_ipv4_rule : ℤ → Command
del_ipv4_rule priority = rule_del ipv4 priority

unfoldable pub del_ipv6_rule : ℤ → Command
del_ipv6_rule priority = rule_del ipv6 priority
