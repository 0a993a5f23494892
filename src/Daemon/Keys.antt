-- ===== src/Daemon/Keys.antt =====
-- What the kernel knows the rules and routes of a configuration by: `ip rule` by family and
-- priority, `ip route replace` (src/uplinkmgr/routing.py) by family, table and metric.
use uplinkmgr.Prelude.{
  eqb_option, ◌≡◌, ◌≢◌, refl, sym, ap, ◌∙◌, ℕ, ◌+ℤ◌, Bool-cases, inl, inr, eqb, +ℤ_parts, pos_part,
  neg_part, Text, ◌∷◌, Option, none, some, ℤ, pos, get_elem?, arith,
}
use uplinkmgr.Config.{Config, UplinkConfig}
use uplinkmgr.Config.Loaded.{IsValid}
use uplinkmgr.StateMachine.{Family, ipv4, ipv6}
use uplinkmgr.Naming.{ipv4_table_num, ipv6_table_num}
use uplinkmgr.Priority.Distinct.{
  priority4, priority6, priority4-injective, priority6-injective, same_offset,
}
use uplinkmgr.Routing.{
  Command, rule_add, rule_del, route4_replace, route6_replace, route_del, replace_ipv4_route,
  replace_ipv6_route,
}
use uplinkmgr.State.{Ipv6RaState}
use uplinkmgr.Effect.{ip}
use uplinkmgr.Uplink.View.{View}
use uplinkmgr.Uplink.Ipv4.{reconcile_route4}
use uplinkmgr.Uplink.Ipv6.{reconcile_route6}
use uplinkmgr.Daemon.Slots.{
  Via, via_family, shared4, own4, own6, Slot, rule4, rule6, route, IsSlot, interface-IsApart,
}

-- A default route without a metric has `none`.
pub data Key : Type 0 where
  rule_key : Family → ℤ → Key
  route_key : Family → (table : ℤ) → (metric : Option ℤ) → Key

shared_offset : (start : ℤ) (i : ℕ) → start ≢ start +ℤ pos 1 +ℤ pos i
shared_offset start i e =
    omega (
      arith,
      +ℤ_parts start (pos 1),
      +ℤ_parts (start +ℤ pos 1) (pos i),
      ap pos_part e,
      ap neg_part e,
    )

-- The key of the element that a command puts in place, by its words.
abbrev pub key_of : Command → Option Key
key_of (rule_add f r) = some (rule_key f r.priority)
key_of (route4_replace gateway iface metric table) = some (route_key ipv4 table (some metric))
key_of (route6_replace gateway iface table expires) = some (route_key ipv6 table none)
key_of (rule_del f p) = none
key_of (route_del f iface table) = none

module _ (cfg : Config) where
  -- The default routes as `_reconcile_uplink_ipv4` and `_reconcile_uplink_ipv6` replace them.
  abbrev pub table_of : Via → UplinkConfig → ℤ
  table_of shared4 u = ipv4_table_num cfg.routing_table_start
  table_of _ u = ipv6_table_num cfg.routing_table_start u.index

  abbrev pub metric_of : Via → UplinkConfig → Option ℤ
  metric_of shared4 u = some u.metric
  metric_of own4 u = some (pos 0)
  metric_of own6 u = none

  abbrev pub key : Slot → Key
  key (rule4 r) = rule_key ipv4 (priority4 cfg r)
  key (rule6 r) = rule_key ipv6 (priority6 cfg r)
  key (route via u) = route_key (via_family via) (table_of via u) (metric_of via u)

  uplink_at :
      (u w : UplinkConfig)
      → get_elem? cfg.uplinks u.index ≡ some u
      → get_elem? cfg.uplinks w.index ≡ some w
      → u.index ≡ w.index
      → u ≡ w
  uplink_at u w hu hw e = let there = sym hu ∙ ap (get_elem? cfg.uplinks) e ∙ hw in cc

  own_table :
      (u w : UplinkConfig)
      → ipv6_table_num cfg.routing_table_start u.index
        ≡ ipv6_table_num cfg.routing_table_start w.index
      → u.index ≡ w.index
  unfolding ipv6_table_num
  own_table u w e = same_offset (cfg.routing_table_start +ℤ pos 1) e

  shared_table :
      (u : UplinkConfig)
      → ipv4_table_num cfg.routing_table_start ≢ ipv6_table_num cfg.routing_table_start u.index
  unfolding ipv4_table_num ipv6_table_num
  shared_table u e = shared_offset cfg.routing_table_start u.index e

  shared_metric :
      IsValid cfg
      → (u w : UplinkConfig) → get_elem? cfg.uplinks u.index ≡ some u
      → get_elem? cfg.uplinks w.index ≡ some w
      → u.metric ≡ w.metric
      → u ≡ w
  shared_metric v u w hu hw e = elim (Bool-cases (eqb u.index w.index)) [
    | inl same ↦ uplink_at u w hu hw (ground (arith, same))
    | inr ne ↦ absurd ((interface-IsApart cfg v u w hu hw (λ k. ground arith)).metric e)
  ]

  key-injective : IsValid cfg → (s t : Slot) → IsSlot cfg s → IsSlot cfg t → key s ≡ key t → s ≡ t
  key-injective v (rule4 r) (rule4 s) hr hs e =
      ap rule4 (priority4-injective cfg r s hr hs (let x = e in cc))
  key-injective v (rule6 r) (rule6 s) hr hs e =
      ap rule6 (priority6-injective cfg r s hr hs (let x = e in cc))
  key-injective v (route shared4 u) (route shared4 w) hu hw e =
      ap (route shared4) (shared_metric v u w hu hw (let x = e in cc))
  key-injective v (route own4 u) (route own4 w) hu hw e =
      ap (route own4) (uplink_at u w hu hw (own_table u w (let x = e in cc)))
  key-injective v (route own6 u) (route own6 w) hu hw e =
      ap (route own6) (uplink_at u w hu hw (own_table u w (let x = e in cc)))
  key-injective v (route shared4 u) (route own4 w) hu hw e =
      absurd (shared_table w (let x = e in cc))
  key-injective v (route own4 u) (route shared4 w) hu hw e =
      absurd (shared_table u (let x = e in cc))
  key-injective v (route own6 u) (route shared4 w) hu hw e = cc
  key-injective v (route own6 u) (route own4 w) hu hw e = cc
  key-injective v (route shared4 u) (route own6 w) hu hw e = cc
  key-injective v (route own4 u) (route own6 w) hu hw e = cc
  key-injective v (rule4 r) (rule6 s) hr hs e = cc
  key-injective v (rule6 r) (rule4 s) hr hs e = cc
  key-injective v (rule4 r) (route via w) hr hs e = cc
  key-injective v (rule6 r) (route via w) hr hs e = cc
  key-injective v (route via u) (rule4 s) hr hs e = cc
  key-injective v (route via u) (rule6 s) hr hs e = cc

  -- In a valid configuration, different rules and default routes, of one uplink or of two, of the
  -- policy or not, are different ones to the kernel, which knows a rule by its family and priority
  -- and a default route by its family, table and metric.
  pub key_distinct :
      IsValid cfg → (s t : Slot) → IsSlot cfg s → IsSlot cfg t → s ≢ t → key s ≢ key t
  key_distinct v s t hs ht ne e = ne (key-injective v s t hs ht e)

module _ (cfg : Config) (u : UplinkConfig) where
  -- A new gateway of IPv4 is put in place by the commands with the keys of the two slots.
  pub reconcile_route4-key :
      (gw : Text) (v : View)
      → v.installed.ipv4_installed ≡ none
      → (shared own : Command) × ((reconcile_route4 cfg u (some gw) v).trace
          ≡ ip own ∷ ip shared ∷ v.trace)
        × (key_of shared ≡ some (key cfg (route shared4 u)))
        × (key_of own ≡ some (key cfg (route own4 u)))
  unfolding reconcile_route4 replace_ipv4_route eqb_option
  reconcile_route4-key gw v fresh = (
    replace_ipv4_route gw u.interface u.metric (ipv4_table_num cfg.routing_table_start),
    replace_ipv4_route gw u.interface (pos 0) (ipv6_table_num cfg.routing_table_start u.index),
    rw fresh refl,
    refl,
    refl,
  )

  -- A router of IPv6 is put in place by the command with the key of its slot.
  pub reconcile_route6-key :
      (now : ℤ) (ra : Ipv6RaState) (v : View)
      → (own : Command) × ((reconcile_route6 cfg u now (some ra) v).trace ≡ ip own ∷ v.trace)
        × (key_of own ≡ some (key cfg (route own6 u)))
  unfolding reconcile_route6 replace_ipv6_route
  reconcile_route6-key now ra v = (_, refl, refl)
