-- ===== src/Uplink/Validated.antt =====
-- What `validate_macvlan_names` guarantees to the daemon.
use uplinkmgr.Prelude.{
  ℕ, zero, suc, ◌<◌, ◌≡◌, ◌≢◌, refl, subst, sym, ap, ◌∙◌, List, [], ◌∷◌, true, false, Bool-cases,
  Option-cases, inl, inr, Option, some, Text, ==_refl, contains, length, get_elem?, arith,
}
use uplinkmgr.Config.{Config, NetworkConfig, UplinkConfig}
use uplinkmgr.State.{◌>>=◌}
use uplinkmgr.Naming.{
  macvlan_name, Validation, valid, too_long, collision, validate_networks, validate_uplinks,
  validate_macvlan_names,
}
use uplinkmgr.Uplink.Places.{macvlan_at, HasDistinctMacvlans}
use uplinkmgr.Uplink.Loops.{HasMacvlans}

-- The macvlan of the network at a position of a list.
abbrev name_at : ℕ → List NetworkConfig → ℕ → Option Text
name_at idx nets n = get_elem? nets n >>= λ net. macvlan_name net.interface idx

record IsChecked (idx : ℕ) (seen : List Text) (nets : List NetworkConfig)
    (after : List Text → Validation) : Type 0 where
  fresh : (n : ℕ) (mv : Text) → name_at idx nets n ≡ some mv → contains mv seen ≡ false
  distinct :
      (n m : ℕ) (mv : Text) → name_at idx nets n ≡ some mv → name_at idx nets m ≡ some mv → n ≡ m
  named : (n : ℕ) → n < length nets → (mv : Text) × (name_at idx nets n ≡ some mv)
  seen' : List Text
  rest : after seen' ≡ valid

too_long≢valid : too_long ≢ valid
too_long≢valid e = cc

collision≢valid : (mv : Text) → collision mv ≢ valid
collision≢valid mv e = cc

contains-tail :
    (mv x : Text) (seen : List Text) → contains mv (x ∷ seen) ≡ false → contains mv seen ≡ false
unfolding contains
contains-tail mv x seen h = ground arith

contains-head : (mv x : Text) (seen : List Text) → x ≡ mv → contains mv (x ∷ seen) ≡ true
unfolding contains
contains-head mv x seen e = ground (arith, ==_refl mv)

module _ (idx : ℕ) (seen : List Text) (net : NetworkConfig) (nets : List NetworkConfig)
    (after : List Text → Validation) (mv : Text) (found : macvlan_name net.interface idx ≡ some mv)
    (new : contains mv seen ≡ false) (c : IsChecked idx (mv ∷ seen) nets after) where
  fresh_at : (n : ℕ) (x : Text) → name_at idx (net ∷ nets) n ≡ some x → contains x seen ≡ false
  fresh_at zero x at =
      let same : mv ≡ x = ground arith in ap (λ t. contains t seen) (sym same) ∙ new
  fresh_at (suc n) x at = contains-tail x mv seen (c.fresh n x at)

  clash :
      (m : ℕ) (x : Text)
      → macvlan_name net.interface idx ≡ some x
      → name_at idx nets m ≡ some x
      → false ≡ true
  clash m x at at' =
      let same : mv ≡ x = ground arith in sym (c.fresh m x at') ∙ contains-head x mv seen same

  distinct_at :
      (n m : ℕ) (x : Text)
      → name_at idx (net ∷ nets) n ≡ some x
      → name_at idx (net ∷ nets) m ≡ some x
      → n ≡ m
  distinct_at zero zero x at at' = refl
  distinct_at zero (suc m) x at at' = absurd (ground (arith, clash m x at at'))
  distinct_at (suc n) zero x at at' = absurd (ground (arith, clash n x at' at))
  distinct_at (suc n) (suc m) x at at' = ap suc (c.distinct n m x at at')

  named_at : (n : ℕ) → n < suc (length nets) → (x : Text) × (name_at idx (net ∷ nets) n ≡ some x)
  named_at zero lt = (mv, found)
  named_at (suc n) lt = c.named n (omega arith)

  extend : IsChecked idx seen (net ∷ nets) after
  extend = record {
    fresh = fresh_at;
    distinct = distinct_at;
    named = named_at;
    seen' = c.seen';
    rest = c.rest;
  }

validate_networks-IsChecked :
    (idx : ℕ) (seen : List Text) (nets : List NetworkConfig) (after : List Text → Validation)
    → validate_networks idx seen nets after ≡ valid
    → IsChecked idx seen nets after
unfolding validate_networks
validate_networks-IsChecked idx seen [] after h = record {
  fresh = λ n mv at. cc;
  distinct = λ n m mv at at'. cc;
  named = λ n lt. absurd (omega arith);
  seen' = seen;
  rest = h;
}
validate_networks-IsChecked idx seen (net ∷ nets) after h =
    elim (Option-cases (macvlan_name net.interface idx)) [
      | inl missing ↦ absurd (too_long≢valid (rw (validate_networks, missing) at h))
      | inr (mv, found) ↦ elim (Bool-cases (contains mv seen)) [
        | inl old ↦ absurd (collision≢valid mv (rw (validate_networks, found, old) at h))
        | inr new ↦ extend idx seen net nets after mv found new (
            validate_networks-IsChecked idx (mv ∷ seen) nets after
              (rw (validate_networks, found, new) at h))
      ]
    ]

-- One uplink is checked.
validate_uplinks-named :
    (nets : List NetworkConfig) (seen : List Text) (uplinks : List UplinkConfig)
    → validate_uplinks nets seen uplinks ≡ valid
    → (i : ℕ) (u : UplinkConfig) → get_elem? uplinks i ≡ some u
    → u.ipv6_pd ≡ true
    → (s : List Text) × (after : List Text → Validation) × IsChecked u.index s nets after
unfolding validate_uplinks
validate_uplinks-named nets seen [] h i u at pd = cc
validate_uplinks-named nets seen (x ∷ uplinks) h zero u at pd =
    let same : x ≡ u = ground arith in
    let enabled : x.ipv6_pd ≡ true = ap (λ y. y.ipv6_pd) same ∙ pd in
    let c =
      validate_networks-IsChecked x.index seen nets (λ seen'. validate_uplinks nets seen' uplinks)
        (simp enabled at h) in
    subst (λ y. (s : List Text) × (after : List Text → Validation) × IsChecked y.index s nets after)
      same (seen, (λ seen'. validate_uplinks nets seen' uplinks), c)
validate_uplinks-named nets seen (x ∷ uplinks) h (suc i) u at pd = elim (Bool-cases x.ipv6_pd) [
  | inl good ↦
      let c =
        validate_networks-IsChecked x.index seen nets (λ seen'. validate_uplinks nets seen' uplinks)
          (simp good at h) in
      validate_uplinks-named nets c.seen' uplinks c.rest i u at pd
  | inr bad ↦ validate_uplinks-named nets seen uplinks (simp bad at h) i u at pd
]

-- After a validation without an error, every network has a macvlan name for every uplink of the
-- configuration with IPv6 prefix delegation, and two networks never share one there.
pub validate_macvlan_names-HasDistinctMacvlans :
    (cfg : Config) (i : ℕ) (u : UplinkConfig)
    → validate_macvlan_names cfg ≡ valid
    → get_elem? cfg.uplinks i ≡ some u
    → u.ipv6_pd ≡ true
    → HasMacvlans cfg u × HasDistinctMacvlans cfg u
unfolding validate_macvlan_names macvlan_at
validate_macvlan_names-HasDistinctMacvlans cfg i u h at pd =
    let (s, after, c) = validate_uplinks-named cfg.networks [] cfg.uplinks h i u at pd in
    (c.named, c.distinct)
