-- ===== src/Uplink/Startup.antt =====
-- The rules of the macvlans of one uplink at startup.
use uplinkmgr.Prelude.{
  ℕ, suc, ◌<◌, ◌≤◌, ◌≡◌, ◌≢◌, ◌⊎◌, inl, inr, refl, sym, ap, ◌∙◌, Bool, if◌then◌else◌, true, false,
  Bool-cases, Option, none, some, [], Text, ◌==◌, ==_iff, lookup, has_key, lookup-insert, length,
  arith,
}
use uplinkmgr.Config.{Config, UplinkConfig}
use uplinkmgr.Uplink.View.{View}
use uplinkmgr.Uplink.Macvlan.{setup_macvlan, setup_macvlan_rules}
use uplinkmgr.Uplink.Ledger.{held, one_if}
use uplinkmgr.Uplink.Places.{fwd_rule, macvlan_at, macvlan_at-lt, IsAccounted, HasDistinctMacvlans}
use uplinkmgr.Uplink.MacvlanAccounts.{setup_macvlan-IsAccounted}
use uplinkmgr.Uplink.Loops.{HasMacvlans, for_macvlans_all}

from_some : {a b : Text} → some a ≡ some b → a ≡ b
from_some e = cc

lt_or_same : {n m : ℕ} → m < suc n → (m < n) ⊎ (m ≡ n)
lt_or_same h = omega arith

false≢true : false ≢ true
false≢true e = cc

-- The call returns, the account is kept, and each macvlan has one fwd_to_uplink rule exactly if the
-- uplink has IPv6 prefix delegation.
abbrev pub ReturnsSetUp : Config → UplinkConfig → Option View → Type 0
ReturnsSetUp cfg uplink o =
    (v' : View) × (o ≡ some v')
    × (IsAccounted cfg uplink v'
        × ((n : ℕ) (mv : Text)
            → macvlan_at cfg uplink n ≡ some mv
            → held (fwd_rule cfg uplink n) v'.trace ≡ one_if uplink.ipv6_pd))

ne_of_lt : {n m : ℕ} → n < m → m ≢ n
ne_of_lt h e = omega arith

module _ (cfg : Config) (uplink : UplinkConfig) (known : uplink.index < length cfg.uplinks)
    (named : HasMacvlans cfg uplink) (distinct : HasDistinctMacvlans cfg uplink) where
  -- The invariant of the setup loop: the macvlans before position `n` have a rule, the others none.
  record IsFreshFrom (n : ℕ) (v : View) : Type 0 where
    accounted : IsAccounted cfg uplink v
    from :
        (m : ℕ) (mv : Text)
        → n ≤ m
        → macvlan_at cfg uplink m ≡ some mv
        → lookup mv v.installed.macvlan_fwd ≡ none
    placed :
        (m : ℕ) (mv : Text)
        → m < n
        → macvlan_at cfg uplink m ≡ some mv
        → has_key mv v.installed.macvlan_fwd ≡ true

  earlier_position :
      (n m : ℕ) (mv other : Text)
      → macvlan_at cfg uplink n ≡ some mv
      → macvlan_at cfg uplink m ≡ some other
      → (other == mv) ≡ false
      → m < suc n
      → m < n
  earlier_position n m mv other at at' ne lt = elim (lt_or_same lt) [
    | inl less ↦ less
    | inr here ↦
        let same : other ≡ mv = from_some (sym at' ∙ ap (macvlan_at cfg uplink) here ∙ at) in
        absurd (false≢true (sym ne ∙ (==_iff other mv).1 same))
  ]

  setup_macvlan-placed :
      (n : ℕ) (mv : Text) (v : View)
      → macvlan_at cfg uplink n ≡ some mv
      → IsFreshFrom n v
      → (m : ℕ) (other : Text) → m < suc n
      → macvlan_at cfg uplink m ≡ some other
      → has_key other (setup_macvlan cfg uplink n mv v).installed.macvlan_fwd ≡ true
  unfolding setup_macvlan
  setup_macvlan-placed n mv v at f m other lt at' = elim (Bool-cases (other == mv)) [
    | inl e ↦ rw (lookup-insert mv other none v.installed.macvlan_fwd, e) refl
    | inr ne ↦
        rw (lookup-insert mv other none v.installed.macvlan_fwd, ne)
          (f.placed m other (earlier_position n m mv other at at' ne lt) at')
  ]

  setup_macvlan-step :
      (n : ℕ) (mv : Text) (v : View)
      → macvlan_at cfg uplink n ≡ some mv
      → IsFreshFrom n v
      → IsFreshFrom (suc n) (setup_macvlan cfg uplink n mv v)
  setup_macvlan-step n mv v at f = record {
    accounted =
        setup_macvlan-IsAccounted cfg uplink known distinct n mv at v (f.from n mv (omega arith) at)
          f.accounted;
    from = λ m other le at'.
        unfold setup_macvlan in
        ground (
          arith,
          lookup-insert mv other none v.installed.macvlan_fwd,
          f.from m other (omega arith) at',
          ==_iff other mv,
          λ (e : other ≡ mv). ne_of_lt le (distinct m n other at' (at ∙ ap some (sym e))),
        );
    placed = setup_macvlan-placed n mv v at f;
  }

  -- The account is kept, and each macvlan has this number of rules.
  abbrev HasEach : ℕ → View → Type 0
  HasEach count v =
      IsAccounted cfg uplink v
      × ((n : ℕ) (mv : Text)
          → macvlan_at cfg uplink n ≡ some mv
          → held (fwd_rule cfg uplink n) v.trace ≡ count)

  by_delegation :
      (pd : Bool) (r : Option View) (v v' : View)
      → r ≡ some v'
      → HasEach 1 v'
      → HasEach 0 v
      → (w : View) × ((if pd then r else some v) ≡ some w) × HasEach (one_if pd) w
  by_delegation true r v v' e after before = (v', e, after)
  by_delegation false r v v' e after before = (v, refl, before)

  -- At startup, and after a reload, one fwd_to_uplink rule is put in place for each macvlan if the
  -- uplink has IPv6 prefix delegation, and none if not, and the account is kept, if no such rule was
  -- recorded before and each network has a macvlan name of its own.
  pub setup_macvlan_rules-IsAccounted :
      (v : View)
      → IsAccounted cfg uplink v
      → v.installed.macvlan_fwd ≡ []
      → ReturnsSetUp cfg uplink (setup_macvlan_rules cfg uplink v)
  unfolding setup_macvlan_rules
  setup_macvlan_rules-IsAccounted v a fresh =
      let start : IsFreshFrom 0 v = record {
        accounted = a;
        from = λ m mv le at. rw fresh (unfold lookup in refl);
        placed = λ m mv lt at. absurd (omega arith);
      } in
      let (v', e, f) =
        for_macvlans_all cfg uplink named IsFreshFrom (setup_macvlan cfg uplink) setup_macvlan-step
          v start in
      by_delegation uplink.ipv6_pd _ v v' e
        (
          f.accounted,
          λ n mv at.
              f.accounted.fwd n mv at
              ∙ ap one_if (f.placed n mv (macvlan_at-lt cfg uplink n at) at),
        )
        (a, λ n mv at. a.fwd n mv at ∙ rw fresh (unfold lookup in refl))
