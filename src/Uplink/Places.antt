-- ===== src/Uplink/Places.antt =====
-- The places of the routing elements of one uplink, what `_UplinkRouting` says stands there, and
-- that the places are different.
use uplinkmgr.Prelude.{
  ℕ, zero, suc, List, [], ◌∷◌, Option-cases, ◌<◌, ◌≡◌, ◌≢◌, false, Bool-cases, inl, inr, Option,
  some, Text, is_some, has_key, contains, length, get_elem?, eqb_ℤ, eqb_ℤ_iff, arith,
}
use uplinkmgr.Config.{Config, NetworkConfig, UplinkConfig}
use uplinkmgr.StateMachine.{ipv4, ipv6}
use uplinkmgr.State.{◌>>=◌}
use uplinkmgr.Naming.{ipv4_table_num, ipv6_table_num, macvlan_name}
use uplinkmgr.Priority.{
  ipv4_lo_to_uplink_priority, ipv6_fwd_to_uplink_priority, ipv6_lo_to_uplink_priority,
  ipv6_reject_wrong_pd_src_priority, ipv6_pd_lo_to_uplink_priority,
}
use uplinkmgr.Priority.Distinct.{Rule6, InRange6, priority6, priority6_distinct}
use uplinkmgr.Uplink.View.{View}
use uplinkmgr.Uplink.Ledger.{Place, rules_at, route_in, held, one_if}

get_elem?-lt {ℓ} :
    {A : Type ℓ} (xs : List A) (n : ℕ) {a : A} → get_elem? xs n ≡ some a → n < length xs
get_elem?-lt [] n h = ground arith
get_elem?-lt (x ∷ xs) zero h = omega arith
get_elem?-lt (x ∷ xs) (suc n) h = omega (arith, get_elem?-lt xs n h)

module _ (cfg : Config) (uplink : UplinkConfig) where
  abbrev pub shared_route : Place
  shared_route = route_in ipv4 uplink.interface (ipv4_table_num cfg.routing_table_start)

  abbrev pub own_route : Place
  own_route = route_in ipv4 uplink.interface (ipv6_table_num cfg.routing_table_start uplink.index)

  abbrev pub ipv6_route : Place
  ipv6_route = route_in ipv6 uplink.interface (ipv6_table_num cfg.routing_table_start uplink.index)

  abbrev pub lo4_rule : Place
  lo4_rule = rules_at ipv4 (ipv4_lo_to_uplink_priority cfg uplink.index)

  abbrev pub lo6_rule : Place
  lo6_rule = rules_at ipv6 (ipv6_lo_to_uplink_priority cfg uplink.index)

  abbrev pub pd6_rule : Place
  pd6_rule = rules_at ipv6 (ipv6_pd_lo_to_uplink_priority cfg uplink.index)

  abbrev pub fwd_rule : ℕ → Place
  fwd_rule n = rules_at ipv6 (ipv6_fwd_to_uplink_priority cfg uplink.index n)

  abbrev pub reject_rule : ℕ → Place
  reject_rule n = rules_at ipv6 (ipv6_reject_wrong_pd_src_priority cfg uplink.index n)

  -- The macvlan of the network at a position.
  unfoldable pub macvlan_at : ℕ → Option Text
  macvlan_at n = get_elem? cfg.networks n >>= λ net. macvlan_name net.interface uplink.index

  -- At each place of the uplink the trace leaves one element where `_UplinkRouting` records one,
  -- and none where it does not.
  pub record IsAccounted (v : View) : Type 0 where
    pub shared : held shared_route v.trace ≡ one_if (is_some v.installed.ipv4_installed)
    pub own : held own_route v.trace ≡ one_if (is_some v.installed.ipv4_installed)
    pub lo4 : held lo4_rule v.trace ≡ one_if (is_some v.installed.ipv4_lo_to_uplink_addr)
    pub route6 : held ipv6_route v.trace ≡ one_if v.installed.ipv6_route_installed
    pub lo6 : held lo6_rule v.trace ≡ one_if (is_some v.installed.lo_to_uplink_prefix)
    pub pd6 : held pd6_rule v.trace ≡ one_if (is_some v.installed.pd_lo_to_uplink_prefix)
    pub fwd :
        (n : ℕ) (mv : Text)
        → macvlan_at n ≡ some mv
        → held (fwd_rule n) v.trace ≡ one_if (has_key mv v.installed.macvlan_fwd)
    pub reject :
        (n : ℕ) (mv : Text)
        → macvlan_at n ≡ some mv
        → held (reject_rule n) v.trace ≡ one_if (contains mv v.installed.macvlan_prohibit)

  -- Two networks never share a macvlan: what `validate_macvlan_names` checks for one uplink.
  abbrev pub HasDistinctMacvlans : Type 0
  HasDistinctMacvlans =
      (n m : ℕ) (mv : Text) → macvlan_at n ≡ some mv → macvlan_at m ≡ some mv → n ≡ m

  -- The name, from the network.
  pub macvlan_at_lem :
      (n : ℕ) {net : NetworkConfig}
      → get_elem? cfg.networks n ≡ some net
      → macvlan_at n ≡ macvlan_name net.interface uplink.index
  unfolding macvlan_at
  macvlan_at_lem n h = rw h

  pub macvlan_at-lt : (n : ℕ) {mv : Text} → macvlan_at n ≡ some mv → n < length cfg.networks
  unfolding macvlan_at
  macvlan_at-lt n {mv} h = elim (Option-cases (get_elem? cfg.networks n)) [
    | inl missing ↦ ground (arith, missing)
    | inr (net, found) ↦ get_elem?-lt cfg.networks n found
  ]

pub priority6_apart :
    (cfg : Config) (r s : Rule6)
    → InRange6 cfg r
    → InRange6 cfg s
    → r ≢ s
    → eqb_ℤ (priority6 cfg r) (priority6 cfg s) ≡ false
priority6_apart cfg r s hr hs ne = elim (Bool-cases (eqb_ℤ (priority6 cfg r) (priority6 cfg s))) [
  | inl same ↦
      absurd (
        priority6_distinct cfg r s hr hs ne
          ((eqb_ℤ_iff (priority6 cfg r) (priority6 cfg s)).0 same))
  | inr apart ↦ apart
]
