-- ===== src/Uplink/Loops.antt =====
-- The loop over the networks of the configuration, with an invariant.
use native.Mathlib.Nat.{add-zero, add-suc, suc-add}
use uplinkmgr.Prelude.{
  ℕ, zero, suc, ◌+◌, ◌<◌, ◌≡◌, refl, sym, ◌∙◌, ap, subst, some, List, [], ◌∷◌, Text, length,
  get_elem?, arith,
}
use uplinkmgr.Config.{Config, UplinkConfig, NetworkConfig}
use uplinkmgr.Naming.{macvlan_name}
use uplinkmgr.Uplink.View.{View}
use uplinkmgr.Uplink.Macvlan.{for_macvlans}
use uplinkmgr.Uplink.Places.{macvlan_at, macvlan_at_lem}

-- Every network has a macvlan name for the uplink: `macvlan_name` does not raise.
abbrev pub HasMacvlans : Config → UplinkConfig → Type 0
HasMacvlans cfg uplink =
    (n : ℕ) → n < length cfg.networks → (mv : Text) × (macvlan_at cfg uplink n ≡ some mv)

get_elem?-some_lt {ℓ} :
    {A : Type ℓ} (xs : List A) (n : ℕ) {a : A} → get_elem? xs n ≡ some a → n < length xs
get_elem?-some_lt [] n h = ground arith
get_elem?-some_lt (x ∷ xs) zero h = omega arith
get_elem?-some_lt (x ∷ xs) (suc n) h = omega (arith, get_elem?-some_lt xs n h)

module _ (cfg : Config) (uplink : UplinkConfig) (named : HasMacvlans cfg uplink)
    (P : ℕ → View → Type 0) (body : ℕ → Text → View → View)
    (step : (n : ℕ) (mv : Text) (v : View)
      → macvlan_at cfg uplink n ≡ some mv
      → P n v
      → P (suc n) (body n mv v)) where
  -- The loop from position `k` ends, and keeps an invariant that its body keeps.
  for_macvlans_from :
      (k : ℕ) (nets : List NetworkConfig)
      → ((i : ℕ) → get_elem? nets i ≡ get_elem? cfg.networks (k + i))
      → (v : View) → P k v
      → (v' : View) × (for_macvlans cfg uplink body k nets v ≡ some v') × P (k + length nets) v'
  unfolding for_macvlans
  for_macvlans_from k [] agree v p = (v, refl, subst (λ j. P j v) (omega arith) p)
  for_macvlans_from k (net ∷ nets) agree v p =
      let first : get_elem? cfg.networks k ≡ some net = rw add-zero at (sym (agree 0)) in
      let (mv, at) = named k (get_elem?-some_lt cfg.networks k first) in
      let name : macvlan_name net.interface uplink.index ≡ some mv =
        sym (macvlan_at_lem cfg uplink k first) ∙ at in
      let next : (i : ℕ) → get_elem? nets i ≡ get_elem? cfg.networks (suc k + i) =
        λ i. rw (suc-add, ← add-suc) (agree (suc i)) in
      let (v', e, p') = for_macvlans_from (suc k) nets next (body k mv v) (step k mv v at p) in
      rw name (v', e, subst (λ j. P j v') (omega arith) p')

  -- The whole loop.
  pub for_macvlans_all :
      (v : View)
      → P 0 v
      → (v' : View) × (for_macvlans cfg uplink body 0 cfg.networks v ≡ some v')
        × P (length cfg.networks) v'
  for_macvlans_all v p =
      let (v', e, p') =
        for_macvlans_from 0 cfg.networks (λ i. ap (get_elem? cfg.networks) (omega arith)) v p in
      (v', e, subst (λ j. P j v') (omega arith) p')
