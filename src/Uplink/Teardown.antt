-- ===== src/Uplink/Teardown.antt =====
-- Tearing one uplink down.
use native.Mathlib.Decide.{ℕ_discrete}
use uplinkmgr.Prelude.{
  ℕ, suc, ◌<◌, ◌≡◌, ◌≢◌, ◌⊎◌, inl, inr, refl, sym, ap, ◌∙◌, true, false, ◌&&◌, not, Bool-cases,
  Option, none, some, Text, ◌==◌, ==_iff, ==_of_eq, lookup, contains, lookup-delete,
  contains-discard, length, arith,
}
use uplinkmgr.Config.{Config, UplinkConfig}
use uplinkmgr.Effect.{Trace}
use uplinkmgr.Uplink.View.{UplinkRouting, View}
use uplinkmgr.Uplink.Ipv4.{teardown_ipv4}
use uplinkmgr.Uplink.Ipv6.{teardown_ipv6}
use uplinkmgr.Uplink.Macvlan.{teardown_macvlan, teardown_macvlan_rules}
use uplinkmgr.Uplink.Reconcile.{teardown_uplink}
use uplinkmgr.Uplink.Ledger.{held}
use uplinkmgr.Uplink.Places.{
  shared_route, own_route, ipv6_route, lo4_rule, lo6_rule, pd6_rule, fwd_rule, reject_rule,
  macvlan_at, macvlan_at-lt, IsAccounted, HasDistinctMacvlans,
}
use uplinkmgr.Uplink.Accounts.{teardown_ipv4-IsAccounted, teardown_ipv6-IsAccounted}
use uplinkmgr.Uplink.MacvlanAccounts.{teardown_fwd-IsAccounted, teardown_prohibit-IsAccounted}
use uplinkmgr.Uplink.Loops.{HasMacvlans, for_macvlans_all}

from_some : {a b : Text} → some a ≡ some b → a ≡ b
from_some e = cc

ne_of_lt : {n m : ℕ} → n < m → m ≢ n
ne_of_lt h e = omega arith

-- Nothing of the uplink is left in place.
pub record IsClear (cfg : Config) (uplink : UplinkConfig) (t : Trace) : Type 0 where
  pub shared : held (shared_route cfg uplink) t ≡ 0
  pub own : held (own_route cfg uplink) t ≡ 0
  pub lo4 : held (lo4_rule cfg uplink) t ≡ 0
  pub route6 : held (ipv6_route cfg uplink) t ≡ 0
  pub lo6 : held (lo6_rule cfg uplink) t ≡ 0
  pub pd6 : held (pd6_rule cfg uplink) t ≡ 0
  pub fwd :
      (n : ℕ) (mv : Text) → macvlan_at cfg uplink n ≡ some mv → held (fwd_rule cfg uplink n) t ≡ 0
  pub reject :
      (n : ℕ) (mv : Text)
      → macvlan_at cfg uplink n ≡ some mv
      → held (reject_rule cfg uplink n) t ≡ 0

-- No IPv4 element is recorded as installed; no IPv6 element; no rule of any macvlan.
abbrev NoIpv4 : UplinkRouting → Type 0
NoIpv4 r = (r.ipv4_installed ≡ none) × (r.ipv4_lo_to_uplink_addr ≡ none)

abbrev NoSources6 : UplinkRouting → Type 0
NoSources6 r =
    (r.ipv6_route_installed ≡ false)
    × (r.lo_to_uplink_prefix ≡ none)
    × (r.pd_lo_to_uplink_prefix ≡ none)

abbrev NoMacvlan : Text → UplinkRouting → Type 0
NoMacvlan mv r = (lookup mv r.macvlan_fwd ≡ none) × (contains mv r.macvlan_prohibit ≡ false)

module _ (cfg : Config) (uplink : UplinkConfig) where
  IsClear-of_accounted :
      (v : View)
      → IsAccounted cfg uplink v
      → NoIpv4 v.installed
      → NoSources6 v.installed
      → ((n : ℕ) (mv : Text) → macvlan_at cfg uplink n ≡ some mv → NoMacvlan mv v.installed)
      → IsClear cfg uplink v.trace
  IsClear-of_accounted v a none4 none6 macvlans = record {
    shared = ground (arith, a.shared);
    own = ground (arith, a.own);
    lo4 = ground (arith, a.lo4);
    route6 = ground (arith, a.route6);
    lo6 = ground (arith, a.lo6);
    pd6 = ground (arith, a.pd6);
    fwd = λ n mv at. ground (arith, a.fwd n mv at, macvlans n mv at);
    reject = λ n mv at. ground (arith, a.reject n mv at, macvlans n mv at);
  }

  teardown_ipv4-NoIpv4 : (v : View) → NoIpv4 (teardown_ipv4 cfg uplink v).installed
  unfolding teardown_ipv4
  teardown_ipv4-NoIpv4 v = ground arith

  teardown_ipv6-NoSources6 :
      (v : View)
      → NoIpv4 v.installed
      → NoIpv4 (teardown_ipv6 cfg uplink v).installed
        × NoSources6 (teardown_ipv6 cfg uplink v).installed
  unfolding teardown_ipv6
  teardown_ipv6-NoSources6 v h = ground arith

  -- The invariant of the teardown loop: the macvlans before position `n` are gone.
  record IsClearBelow (n : ℕ) (v : View) : Type 0 where
    accounted : IsAccounted cfg uplink v
    none4 : NoIpv4 v.installed
    none6 : NoSources6 v.installed
    below :
        (m : ℕ) (mv : Text) → m < n → macvlan_at cfg uplink m ≡ some mv → NoMacvlan mv v.installed

  teardown_macvlan-keeps :
      (n : ℕ) (mv : Text) (v : View)
      → NoIpv4 v.installed
      → NoSources6 v.installed
      → NoIpv4 (teardown_macvlan cfg uplink n mv v).installed
        × NoSources6 (teardown_macvlan cfg uplink n mv v).installed
  unfolding teardown_macvlan
  teardown_macvlan-keeps n mv v h4 h6 = ground arith

  teardown_macvlan-NoMacvlan :
      (n : ℕ) (mv other : Text) (v : View)
      → ((other == mv) ≡ true) ⊎ NoMacvlan other v.installed
      → NoMacvlan other (teardown_macvlan cfg uplink n mv v).installed
  unfolding teardown_macvlan
  teardown_macvlan-NoMacvlan n mv other v h = ground (
    arith,
    lookup-delete mv other v.installed.macvlan_fwd,
    ==_iff other mv,
    contains-discard mv other v.installed.macvlan_prohibit,
  )

  teardown_ipv4-keeps6 :
      (v : View)
      → NoSources6 v.installed
      → ((mv : Text) → NoMacvlan mv v.installed)
      → NoSources6 (teardown_ipv4 cfg uplink v).installed
        × ((mv : Text) → NoMacvlan mv (teardown_ipv4 cfg uplink v).installed)
  unfolding teardown_ipv4
  teardown_ipv4-keeps6 v none6 macvlans = (ground arith, λ mv. ground (arith, macvlans mv))

-- An uplink with neither prefix delegation nor an IA_NA address has no IPv6 element recorded.
abbrev pub IsIdle6 : UplinkConfig → View → Type 0
IsIdle6 uplink v =
    (not uplink.ipv6_pd && not uplink.ia_na) ≡ true
    → NoSources6 v.installed × ((mv : Text) → NoMacvlan mv v.installed)

-- The operation returns, and nothing of the uplink is left.
abbrev pub ReturnsClear : Config → UplinkConfig → Option View → Type 0
ReturnsClear cfg uplink o =
    (v' : View) × (o ≡ some v') × IsAccounted cfg uplink v' × IsClear cfg uplink v'.trace

module _ (cfg : Config) (uplink : UplinkConfig) (known : uplink.index < length cfg.uplinks)
    (named : HasMacvlans cfg uplink) (distinct : HasDistinctMacvlans cfg uplink) where
  teardown_macvlan-step :
      (n : ℕ) (mv : Text) (v : View)
      → macvlan_at cfg uplink n ≡ some mv
      → IsClearBelow cfg uplink n v
      → IsClearBelow cfg uplink (suc n) (teardown_macvlan cfg uplink n mv v)
  teardown_macvlan-step n mv v at c = record {
    accounted =
        unfold teardown_macvlan in
        teardown_prohibit-IsAccounted cfg uplink known distinct n mv at _
          (teardown_fwd-IsAccounted cfg uplink known distinct n mv at v c.accounted);
    none4 = (teardown_macvlan-keeps cfg uplink n mv v c.none4 c.none6).0;
    none6 = (teardown_macvlan-keeps cfg uplink n mv v c.none4 c.none6).1;
    below = λ m other lt at'.
        teardown_macvlan-NoMacvlan cfg uplink n mv other v (elim (ℕ_discrete m n) [
          | yes e ↦
              inl (==_of_eq other mv (from_some (sym at' ∙ ap (macvlan_at cfg uplink) e ∙ at)))
          | no ne ↦ inr (c.below m other (omega arith) at')
        ]);
  }

  teardown_macvlan_rules-clears :
      (v : View)
      → IsAccounted cfg uplink v
      → NoIpv4 v.installed
      → NoSources6 v.installed
      → ReturnsClear cfg uplink (teardown_macvlan_rules cfg uplink v)
  unfolding teardown_macvlan_rules
  teardown_macvlan_rules-clears v a none4 none6 =
      let start : IsClearBelow cfg uplink 0 v = record {
        accounted = a;
        none4 = none4;
        none6 = none6;
        below = λ m mv lt at. absurd (omega arith);
      } in
      let (v', e, c) =
        for_macvlans_all cfg uplink named (IsClearBelow cfg uplink) (teardown_macvlan cfg uplink)
          teardown_macvlan-step v start in
      (
        v',
        e,
        c.accounted,
        IsClear-of_accounted cfg uplink v' c.accounted c.none4 c.none6
            (λ n mv at. c.below n mv (macvlan_at-lt cfg uplink n at) at),
      )

  -- Tearing an uplink down returns and leaves nothing of it in place: no default route, and no rule
  -- at any priority that its routing uses, if the account is kept up to then, each network has a
  -- macvlan name of its own, and nothing of IPv6 is recorded for an uplink that has neither prefix
  -- delegation nor an IA_NA address.
  pub teardown_uplink-clears :
      (v : View)
      → IsAccounted cfg uplink v
      → IsIdle6 uplink v
      → ReturnsClear cfg uplink (teardown_uplink cfg uplink v)
  unfolding teardown_uplink
  teardown_uplink-clears v a idle =
      let v4 = teardown_ipv4 cfg uplink v in
      let a4 = teardown_ipv4-IsAccounted cfg uplink known v a in
      let none4 = teardown_ipv4-NoIpv4 cfg uplink v in
      let (none4', none6) = teardown_ipv6-NoSources6 cfg uplink v4 none4 in
      elim (Bool-cases (not uplink.ipv6_pd && not uplink.ia_na)) [
        | inl off ↦
            let (none6', macvlans) = teardown_ipv4-keeps6 cfg uplink v (idle off).0 (idle off).1 in
            rw off (
              v4,
              refl,
              a4,
              IsClear-of_accounted cfg uplink v4 a4 none4 none6' (λ n mv at. macvlans mv),
            )
        | inr on ↦ rw on (
            teardown_macvlan_rules-clears (teardown_ipv6 cfg uplink v4)
              (teardown_ipv6-IsAccounted cfg uplink known v4 a4) none4' none6)
      ]
