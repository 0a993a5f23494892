-- ===== src/Daemon/Slots.antt =====
-- All places of the routing of a configuration: those of the policy rules, and those of each uplink.
-- Different owners never share one.
use uplinkmgr.Prelude.{
  ==_of_ne, ℕ, ◌≡◌, ◌≢◌, refl, ap, ◌∙◌, Bool, false, ◌&&◌, Bool-cases, inl, inr, Option, none, some,
  ℤ, eqb_ℤ, eqb_ℤ_iff, get_elem?, arith,
}
use uplinkmgr.Config.{Config, UplinkConfig}
use uplinkmgr.Config.Valid.{IsApart}
use uplinkmgr.Config.Loaded.{IsValid}
use uplinkmgr.StateMachine.{Family, ipv4, ipv6}
use uplinkmgr.Naming.{ipv4_table_num, ipv6_table_num}
use uplinkmgr.Priority.Distinct.{
  Rule4, lo4, Rule6, internal6, fwd6, lo6, reject6, pd6, priority4, priority6, InRange4, InRange6,
  priority4_distinct,
}
use uplinkmgr.Uplink.Ledger.{Place, rules_at, route_in, same}
use uplinkmgr.Uplink.Places.{priority6_apart}

-- The three default routes of an uplink.
pub data Via : Type 0 where
  shared4 own4 own6 : Via

pub data Slot : Type 0 where
  rule4 : Rule4 → Slot
  rule6 : Rule6 → Slot
  route : Via → UplinkConfig → Slot

abbrev pub via_family : Via → Family
via_family own6 = ipv6
via_family _ = ipv4

abbrev owner4 : Rule4 → Option ℕ
owner4 (lo4 u) = some u
owner4 _ = none

abbrev owner6 : Rule6 → Option ℕ
owner6 internal6 = none
owner6 (fwd6 u n) = some u
owner6 (lo6 u) = some u
owner6 (reject6 u n) = some u
owner6 (pd6 u) = some u

-- The index of the uplink that a place belongs to.
abbrev pub owner : Slot → Option ℕ
owner (rule4 r) = owner4 r
owner (rule6 r) = owner6 r
owner (route via u) = some u.index

module _ (cfg : Config) where
  abbrev via_table : Via → UplinkConfig → ℤ
  via_table shared4 u = ipv4_table_num cfg.routing_table_start
  via_table _ u = ipv6_table_num cfg.routing_table_start u.index

  abbrev pub place : Slot → Place
  place (rule4 r) = rules_at ipv4 (priority4 cfg r)
  place (rule6 r) = rules_at ipv6 (priority6 cfg r)
  place (route via u) = route_in (via_family via) u.interface (via_table via u)

  -- The slot belongs to the configuration.
  abbrev pub IsSlot : Slot → Type 0
  IsSlot (rule4 r) = InRange4 cfg r
  IsSlot (rule6 r) = InRange6 cfg r
  IsSlot (route via u) = get_elem? cfg.uplinks u.index ≡ some u

  -- No place of the uplink.
  abbrev pub IsOutside : UplinkConfig → Place → Type 0
  IsOutside u k = (s : Slot) → IsSlot s → owner s ≡ some u.index → same k (place s) ≡ false

  -- No place of the configuration.
  abbrev pub IsElsewhere : Place → Type 0
  IsElsewhere k = (s : Slot) → IsSlot s → same k (place s) ≡ false

pub priority4_apart :
    (cfg : Config) (r s : Rule4)
    → InRange4 cfg r
    → InRange4 cfg s
    → r ≢ s
    → eqb_ℤ (priority4 cfg r) (priority4 cfg s) ≡ false
priority4_apart cfg r s hr hs ne = elim (Bool-cases (eqb_ℤ (priority4 cfg r) (priority4 cfg s))) [
  | inl same ↦
      absurd (
        priority4_distinct cfg r s hr hs ne
          ((eqb_ℤ_iff (priority4 cfg r) (priority4 cfg s)).0 same))
  | inr apart ↦ apart
]

&&_false : (a b c : Bool) → b ≡ false → (a && b && c) ≡ false
&&_false a b c h = ground arith

module _ (cfg : Config) (v : IsValid cfg) where
  pub interface-IsApart :
      (u w : UplinkConfig)
      → get_elem? cfg.uplinks u.index ≡ some u
      → get_elem? cfg.uplinks w.index ≡ some w
      → u.index ≢ w.index
      → IsApart u w
  interface-IsApart u w at at' ne = v.apart u.index w.index u w ne at at'

  pub place_apart :
      (s t : Slot)
      → IsSlot cfg s
      → IsSlot cfg t
      → owner s ≢ owner t
      → same (place cfg s) (place cfg t) ≡ false
  place_apart (rule4 r) (rule4 s) hr hs ne = priority4_apart cfg r s hr hs (λ e. ne (ap owner4 e))
  place_apart (rule6 r) (rule6 s) hr hs ne = priority6_apart cfg r s hr hs (λ e. ne (ap owner6 e))
  place_apart (route via u) (route via' w) hu hw ne = &&_false _ _ _ (
      ==_of_ne u.interface w.interface
        (interface-IsApart u w hu hw (λ e. ne (ap some e))).interface)
  place_apart (rule4 r) (rule6 s) hr hs ne = refl
  place_apart (rule6 r) (rule4 s) hr hs ne = refl
  place_apart (rule4 r) (route via w) hr hs ne = refl
  place_apart (rule6 r) (route via w) hr hs ne = refl
  place_apart (route via u) (rule4 s) hr hs ne = refl
  place_apart (route via u) (rule6 s) hr hs ne = refl

  -- The places of another owner are outside an uplink.
  pub place-IsOutside :
      (s : Slot) (u : UplinkConfig)
      → IsSlot cfg s
      → owner s ≢ some u.index
      → IsOutside cfg u (place cfg s)
  place-IsOutside s u hs ne t ht own = place_apart s t hs ht (λ e. ne (e ∙ own))

pub Elsewhere-IsOutside :
    (cfg : Config) (u : UplinkConfig) (k : Place) → IsElsewhere cfg k → IsOutside cfg u k
Elsewhere-IsOutside cfg u k e s hs own = e s hs
