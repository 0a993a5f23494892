-- ===== src/Radvd/Preference.antt =====
-- Which uplink the clients prefer.
use uplinkmgr.Prelude.{
  ℕ, zero, suc, ◌<◌, ◌≡◌, ◌↔◌, ◌⊎◌, refl, sym, ap, ◌∙◌, List, [], ◌∷◌, Bool, true, false, ◌&&◌,
  Bool-cases, Option-cases, inl, inr, Option, none, some, Text, text, ==_iff, get_elem?,
  if◌then◌else◌, arith,
}
use uplinkmgr.Config.{Config, UplinkConfig}
use uplinkmgr.StateMachine.{LinkState, UplinkState, up, down, is_up, is_down}
use uplinkmgr.Radvd.{with_ipv6_pd, first_up, primary_ipv6_uplink, is_primary, preference_for}

module _ (states : Text → UplinkState) where
  -- An uplink that may be the primary one.
  abbrev pub serves : UplinkConfig → Bool
  serves u = u.ipv6_pd && is_up (states u.name).ipv6

  -- The first uplink of a list that may.
  abbrev pub first_serving : List UplinkConfig → Option UplinkConfig
  first_serving [] = none
  first_serving (u ∷ uplinks) =
      let rest = first_serving uplinks in if serves u then some u else rest

  first_up-eq :
      (uplinks : List UplinkConfig) → first_up states (with_ipv6_pd uplinks) ≡ first_serving uplinks
  unfolding first_up with_ipv6_pd
  first_up-eq [] = refl
  first_up-eq (u ∷ uplinks) = ground (arith, first_up-eq uplinks)

  -- The uplink stands in the list at a position before which none serves.
  abbrev pub IsFirst : List UplinkConfig → UplinkConfig → Type 0
  IsFirst uplinks u =
      (i : ℕ) × (get_elem? uplinks i ≡ some u)
      × (serves u ≡ true)
      × ((j : ℕ) (w : UplinkConfig) → j < i → get_elem? uplinks j ≡ some w → serves w ≡ false)

  -- None of the uplinks before a position serves.
  abbrev NoneBefore : List UplinkConfig → ℕ → Type 0
  NoneBefore uplinks i =
      (j : ℕ) (w : UplinkConfig) → j < i → get_elem? uplinks j ≡ some w → serves w ≡ false

  later_before :
      (x : UplinkConfig)
      → serves x ≡ false
      → (uplinks : List UplinkConfig) (i : ℕ) → NoneBefore uplinks i
      → NoneBefore (x ∷ uplinks) (suc i)
  later_before x bad uplinks i before zero w lt at =
      let same : x ≡ w = ground arith in ap serves (sym same) ∙ bad
  later_before x bad uplinks i before (suc j) w lt at = before j w (omega arith) at

  first_serving-IsFirst :
      (uplinks : List UplinkConfig) (u : UplinkConfig)
      → first_serving uplinks ≡ some u
      → IsFirst uplinks u
  first_serving-IsFirst [] u h = cc
  first_serving-IsFirst (x ∷ uplinks) u h = elim (Bool-cases (serves x)) [
    | inl good ↦
        let same : x ≡ u = ground arith in
        (0, ap some same, ap serves (sym same) ∙ good, λ j w lt. elim lt [ ])
    | inr bad ↦
        let (i, at, good, before) = first_serving-IsFirst uplinks u (ground arith) in
        (suc i, at, good, later_before x bad uplinks i before)
  ]

  first_serving-none :
      (uplinks : List UplinkConfig)
      → first_serving uplinks ≡ none
      → (i : ℕ) (u : UplinkConfig) → get_elem? uplinks i ≡ some u
      → serves u ≡ false
  first_serving-none [] h i u at = cc
  first_serving-none (x ∷ uplinks) h zero u at =
      let same : x ≡ u = ground arith in ap serves (sym same) ∙ ground arith
  first_serving-none (x ∷ uplinks) h (suc i) u at = first_serving-none uplinks (ground arith) i u at

-- The primary uplink is the first one of the configuration that has IPv6 prefix delegation and is
-- up in IPv6, and there is none exactly if no uplink is such.
pub primary_ipv6_uplink-IsFirst :
    (cfg : Config) (states : Text → UplinkState)
    → ((primary_ipv6_uplink cfg states ≡ none)
        × ((i : ℕ) (u : UplinkConfig) → get_elem? cfg.uplinks i ≡ some u → serves states u ≡ false))
      ⊎ ((u : UplinkConfig) × (primary_ipv6_uplink cfg states ≡ some u)
          × IsFirst states cfg.uplinks u)
unfolding primary_ipv6_uplink
primary_ipv6_uplink-IsFirst cfg states =
    let eq = first_up-eq states cfg.uplinks in
    elim (Option-cases (first_serving states cfg.uplinks)) [
      | inl h ↦ inl (eq ∙ h, first_serving-none states cfg.uplinks h)
      | inr (u, h) ↦ inr (u, eq ∙ h, first_serving-IsFirst states cfg.uplinks u h)
    ]

module _ (cfg : Config) (states : Text → UplinkState) where
  -- The uplink has the name of the primary uplink.
  abbrev pub HasPrimaryName : UplinkConfig → Type 0
  HasPrimaryName u =
      (p : UplinkConfig) × (primary_ipv6_uplink cfg states ≡ some p) × (p.name ≡ u.name)

  serves_up : (q : UplinkConfig) → serves states q ≡ true → is_up (states q.name).ipv6 ≡ true
  serves_up q good = ground arith

  is_up_named :
      (q u : UplinkConfig)
      → q.name ≡ u.name
      → is_up (states q.name).ipv6 ≡ true
      → is_up (states u.name).ipv6 ≡ true
  is_up_named q u same h = ap (λ n. is_up (states n).ipv6) (sym same) ∙ h

  pub not_down : (l : LinkState) → is_up l ≡ true → is_down l ≡ false
  not_down up h = refl
  not_down down h = cc

  is_down_iff : (l : LinkState) → (is_down l ≡ true) ↔ (l ≡ down)
  is_down_iff up = ground arith
  is_down_iff down = ground arith

  pub is_primary_iff :
      (u : UplinkConfig) → (is_primary (primary_ipv6_uplink cfg states) u ≡ true) ↔ HasPrimaryName u
  is_primary_iff u = elim (Option-cases (primary_ipv6_uplink cfg states)) [
    | inl h ↦ (λ k. cc, λ (p, e, same). cc)
    | inr (p, h) ↦ (
      λ k. (p, h, (==_iff p.name u.name).0 (rw h at k)),
      λ (q, e, same).
          let there : p ≡ q = ground arith in
          rw h ((==_iff p.name u.name).1 (ap (λ r. r.name) there ∙ same)),
    )
  ]

  pub primary_is_up : (u : UplinkConfig) → HasPrimaryName u → is_up (states u.name).ipv6 ≡ true
  primary_is_up u (p, e, same) = elim (primary_ipv6_uplink-IsFirst cfg states) [
    | inl (missing, all) ↦ cc
    | inr (q, found, (i, at, good, before)) ↦
        let there : q ≡ p = ground arith in
        let named : q.name ≡ u.name = ap (λ r. r.name) there ∙ same in
        is_up_named q u named (serves_up q good)
  ]

  -- radvd announces an uplink with the preference `high` exactly if it has the name of the primary
  -- uplink, and with `low` exactly if it is down in IPv6.
  pub preference_for_iff :
      (u : UplinkConfig)
      → ((preference_for cfg states u ≡ text "high") ↔ HasPrimaryName u)
        × ((preference_for cfg states u ≡ text "low") ↔ ((states u.name).ipv6 ≡ down))
  unfolding preference_for text
  preference_for_iff u =
      let health = (states u.name).ipv6 in
      elim (Bool-cases (is_primary (primary_ipv6_uplink cfg states) u)) [
        | inl good ↦
            let named = (is_primary_iff u).0 good in
            let alive = not_down health (primary_is_up u named) in
            ground (arith, is_down_iff health)
        | inr bad ↦ ground (arith, is_down_iff health, is_primary_iff u)
      ]
