-- ===== src/Uplink/MacvlanAccounts.antt =====
-- The rules of the macvlans: each step of the loops over the networks keeps the account.
use native.Mathlib.Decide.{ℕ_discrete}
use uplinkmgr.Prelude.{
  ℕ, ◌<◌, ◌≡◌, ◌≢◌, ◌⊎◌, inl, inr, sym, ◌∙◌, ap, subst, false, Option, none, some, Text, ◌==◌,
  ==_iff, ==_refl, eqb_option_iff, lookup, lookup-insert, lookup-delete, contains-add,
  contains-discard, length, arith,
}
use uplinkmgr.Config.{Config, UplinkConfig}
use uplinkmgr.Uplink.View.{View}
use uplinkmgr.Uplink.Macvlan.{
  reconcile_fwd, reconcile_prohibit, teardown_fwd, teardown_prohibit, setup_macvlan, fwd_of,
}
use uplinkmgr.Uplink.Ledger.{same_refl}
use uplinkmgr.Uplink.Places.{fwd_rule, reject_rule, macvlan_at, IsAccounted, HasDistinctMacvlans}
use uplinkmgr.Uplink.Apart.{
  lo6_not_fwd, pd6_not_fwd, lo6_not_reject, pd6_not_reject, fwd_not_reject, reject_not_fwd,
  fwd_not_fwd, reject_not_reject,
}

from_some : {a b : Text} → some a ≡ some b → a ≡ b
from_some e = cc

module _ (cfg : Config) (uplink : UplinkConfig) (known : uplink.index < length cfg.uplinks)
    (distinct : HasDistinctMacvlans cfg uplink) (n : ℕ) (mv : Text)
    (at : macvlan_at cfg uplink n ≡ some mv) where
  -- Another position has another name and other rules.
  same_or_apart :
      (m : ℕ) (other : Text)
      → macvlan_at cfg uplink m ≡ some other
      → ((m ≡ n) × (other ≡ mv)) ⊎ ((m ≢ n) × ((other == mv) ≡ false))
  same_or_apart m other at' = elim (ℕ_discrete m n) [
    | yes e ↦ inl (e, from_some (sym at' ∙ ap (macvlan_at cfg uplink) e ∙ at))
    | no ne ↦ inr (
      ne,
      ground (
        arith,
        ==_iff other mv,
        λ (e : other ≡ mv). ne (distinct m n other at' (at ∙ ap some (sym e))),
      ),
    )
  ]

  -- A statement about every macvlan, from that about this one and that about the others.
  pub for_each :
      (Q : ℕ → Text → Type 0)
      → Q n mv
      → ((m : ℕ) (other : Text)
          → macvlan_at cfg uplink m ≡ some other
          → m ≢ n
          → (other == mv) ≡ false
          → Q m other)
      → (m : ℕ) (other : Text) → macvlan_at cfg uplink m ≡ some other
      → Q m other
  for_each Q here there m other at' = elim (same_or_apart m other at') [
    | inl (em, eo) ↦ subst (λ k. Q k other) (sym em) (subst (λ t. Q n t) (sym eo) here)
    | inr (ne, fresh) ↦ there m other at' ne fresh
  ]

  pub reconcile_fwd-IsAccounted :
      (delegated : Option Text) (v : View)
      → IsAccounted cfg uplink v
      → IsAccounted cfg uplink (reconcile_fwd cfg uplink delegated n mv v)
  unfolding reconcile_fwd
  reconcile_fwd-IsAccounted delegated v a = record {
    shared = ground (arith, a.shared);
    own = ground (arith, a.own);
    lo4 = ground (arith, a.lo4);
    route6 = ground (arith, a.route6);
    lo6 = ground (arith, a.lo6, lo6_not_fwd cfg uplink known n at);
    pd6 = ground (arith, a.pd6, pd6_not_fwd cfg uplink known n at);
    fwd =
        for_each _
          (ground (
            arith,
            a.fwd n mv at,
            same_refl (fwd_rule cfg uplink n),
            ==_refl mv,
            eqb_option_iff (fwd_of mv v.installed) delegated,
            lookup-insert mv mv delegated v.installed.macvlan_fwd,
          ))
          (λ m other at' ne apart. ground (
            arith,
            a.fwd m other at',
            fwd_not_fwd cfg uplink known m at' n at ne,
            apart,
            lookup-insert mv other delegated v.installed.macvlan_fwd,
          ));
    reject = λ m other at'.
        ground (arith, a.reject m other at', reject_not_fwd cfg uplink known m at' n at);
  }

  pub setup_macvlan-IsAccounted :
      (v : View)
      → lookup mv v.installed.macvlan_fwd ≡ none
      → IsAccounted cfg uplink v
      → IsAccounted cfg uplink (setup_macvlan cfg uplink n mv v)
  unfolding setup_macvlan
  setup_macvlan-IsAccounted v absent a = record {
    shared = ground (arith, a.shared);
    own = ground (arith, a.own);
    lo4 = ground (arith, a.lo4);
    route6 = ground (arith, a.route6);
    lo6 = ground (arith, a.lo6, lo6_not_fwd cfg uplink known n at);
    pd6 = ground (arith, a.pd6, pd6_not_fwd cfg uplink known n at);
    fwd =
        for_each _
          (ground (
            arith,
            a.fwd n mv at,
            same_refl (fwd_rule cfg uplink n),
            ==_refl mv,
            lookup-insert mv mv none v.installed.macvlan_fwd,
          ))
          (λ m other at' ne apart. ground (
            arith,
            a.fwd m other at',
            fwd_not_fwd cfg uplink known m at' n at ne,
            apart,
            lookup-insert mv other none v.installed.macvlan_fwd,
          ));
    reject = λ m other at'.
        ground (arith, a.reject m other at', reject_not_fwd cfg uplink known m at' n at);
  }

  pub teardown_fwd-IsAccounted :
      (v : View)
      → IsAccounted cfg uplink v
      → IsAccounted cfg uplink (teardown_fwd cfg uplink n mv v)
  unfolding teardown_fwd
  teardown_fwd-IsAccounted v a = record {
    shared = ground (arith, a.shared);
    own = ground (arith, a.own);
    lo4 = ground (arith, a.lo4);
    route6 = ground (arith, a.route6);
    lo6 = ground (arith, a.lo6, lo6_not_fwd cfg uplink known n at);
    pd6 = ground (arith, a.pd6, pd6_not_fwd cfg uplink known n at);
    fwd =
        for_each _
          (ground (
            arith,
            a.fwd n mv at,
            same_refl (fwd_rule cfg uplink n),
            ==_refl mv,
            lookup-delete mv mv v.installed.macvlan_fwd,
          ))
          (λ m other at' ne apart. ground (
            arith,
            a.fwd m other at',
            fwd_not_fwd cfg uplink known m at' n at ne,
            apart,
            lookup-delete mv other v.installed.macvlan_fwd,
          ));
    reject = λ m other at'.
        ground (arith, a.reject m other at', reject_not_fwd cfg uplink known m at' n at);
  }

  pub reconcile_prohibit-IsAccounted :
      (v : View)
      → IsAccounted cfg uplink v
      → IsAccounted cfg uplink (reconcile_prohibit cfg uplink n mv v)
  unfolding reconcile_prohibit
  reconcile_prohibit-IsAccounted v a = record {
    shared = ground (arith, a.shared);
    own = ground (arith, a.own);
    lo4 = ground (arith, a.lo4);
    route6 = ground (arith, a.route6);
    lo6 = ground (arith, a.lo6, lo6_not_reject cfg uplink known n at);
    pd6 = ground (arith, a.pd6, pd6_not_reject cfg uplink known n at);
    fwd = λ m other at'.
        ground (arith, a.fwd m other at', fwd_not_reject cfg uplink known m at' n at);
    reject =
        for_each _
          (ground (
            arith,
            a.reject n mv at,
            same_refl (reject_rule cfg uplink n),
            ==_refl mv,
            contains-add mv mv v.installed.macvlan_prohibit,
          ))
          (λ m other at' ne apart. ground (
            arith,
            a.reject m other at',
            reject_not_reject cfg uplink known m at' n at ne,
            apart,
            contains-add mv other v.installed.macvlan_prohibit,
          ));
  }

  pub teardown_prohibit-IsAccounted :
      (v : View)
      → IsAccounted cfg uplink v
      → IsAccounted cfg uplink (teardown_prohibit cfg uplink n mv v)
  unfolding teardown_prohibit
  teardown_prohibit-IsAccounted v a = record {
    shared = ground (arith, a.shared);
    own = ground (arith, a.own);
    lo4 = ground (arith, a.lo4);
    route6 = ground (arith, a.route6);
    lo6 = ground (arith, a.lo6, lo6_not_reject cfg uplink known n at);
    pd6 = ground (arith, a.pd6, pd6_not_reject cfg uplink known n at);
    fwd = λ m other at'.
        ground (arith, a.fwd m other at', fwd_not_reject cfg uplink known m at' n at);
    reject =
        for_each _
          (ground (
            arith,
            a.reject n mv at,
            same_refl (reject_rule cfg uplink n),
            ==_refl mv,
            contains-discard mv mv v.installed.macvlan_prohibit,
          ))
          (λ m other at' ne apart. ground (
            arith,
            a.reject m other at',
            reject_not_reject cfg uplink known m at' n at ne,
            apart,
            contains-discard mv other v.installed.macvlan_prohibit,
          ));
  }
