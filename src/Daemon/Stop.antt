-- ===== src/Daemon/Stop.antt =====
-- Tearing everything down.
use native.Mathlib.Decide.{ℕ_discrete}
use uplinkmgr.Prelude.{
  ℕ, suc, ◌<◌, ◌≡◌, ◌≢◌, ◌⊎◌, inl, inr, refl, sym, ap, ◌∙◌, subst, false, Bool-cases, Option, some,
  get_elem?, length, arith,
}
use uplinkmgr.Config.{Config, UplinkConfig}
use uplinkmgr.Config.Loaded.{IsValid}
use uplinkmgr.State.{◌>>=◌}
use uplinkmgr.Priority.Distinct.{internal4, wan4, lo4, internal6, fwd6, lo6, reject6, pd6}
use uplinkmgr.Effect.{Trace}
use uplinkmgr.Uplink.Ledger.{Place, held, same, eq_of_same, one_if}
use uplinkmgr.Uplink.Loops.{HasMacvlans}
use uplinkmgr.Uplink.Reconcile.{teardown_uplink}
use uplinkmgr.Uplink.Teardown.{IsClear, teardown_uplink-clears}
use uplinkmgr.Daemon.Slots.{
  Slot, rule4, rule6, route, shared4, own4, own6, owner, place, IsSlot, IsElsewhere,
  place-IsOutside,
}
use uplinkmgr.Daemon.Frames.{teardown_uplink-IsFramed, teardown_uplink-IsIdle6}
use uplinkmgr.Daemon.Booked.{IsNamed, IsBooked, IsLocal, get_elem?-lt_length, index_at, own_index}
use uplinkmgr.Daemon.Rounds.{for_uplinks_all, known, on_uplink-IsBooked}
use uplinkmgr.Daemon.Machine.{
  Daemon, view_of, put_view, on_uplink, for_uplinks, teardown_policy4, teardown_policy6,
  teardown_all,
}
use uplinkmgr.Daemon.PolicyGone.{
  teardown_policy-zero, teardown_policy-internal4, teardown_policy-wan4, teardown_policy-internal6,
  teardown_policy-flags, IsGone,
}

from_some : {a b : ℕ} → some a ≡ some b → a ≡ b
from_some e = cc

same_uplink : {a b : UplinkConfig} → some a ≡ some b → a ≡ b
same_uplink e = cc

lt_or_same : {n m : ℕ} → m < suc n → (m < n) ⊎ (m ≡ n)
lt_or_same h = omega arith

ne_of_lt : {n m : ℕ} → m < n → m ≢ n
ne_of_lt h e = omega arith

-- Nothing is left of an uplink, at any of its places.
IsClear-slot :
    (cfg : Config) (u : UplinkConfig) (t : Trace)
    → get_elem? cfg.uplinks u.index ≡ some u
    → HasMacvlans cfg u
    → IsClear cfg u t
    → (s : Slot) → IsSlot cfg s
    → owner s ≡ some u.index
    → held (place cfg s) t ≡ 0
IsClear-slot cfg u t at has c (rule4 internal4) hs own = cc
IsClear-slot cfg u t at has c (rule4 wan4) hs own = cc
IsClear-slot cfg u t at has c (rule4 (lo4 i)) hs own =
    subst (λ j. held (place cfg (rule4 (lo4 j))) t ≡ 0) (sym (from_some own)) c.lo4
IsClear-slot cfg u t at has c (rule6 internal6) hs own = cc
IsClear-slot cfg u t at has c (rule6 (lo6 i)) hs own =
    subst (λ j. held (place cfg (rule6 (lo6 j))) t ≡ 0) (sym (from_some own)) c.lo6
IsClear-slot cfg u t at has c (rule6 (pd6 i)) hs own =
    subst (λ j. held (place cfg (rule6 (pd6 j))) t ≡ 0) (sym (from_some own)) c.pd6
IsClear-slot cfg u t at has c (rule6 (fwd6 i n)) hs own =
    let (mv, named) = has n hs.1 in
    subst (λ j. held (place cfg (rule6 (fwd6 j n))) t ≡ 0) (sym (from_some own)) (c.fwd n mv named)
IsClear-slot cfg u t at has c (rule6 (reject6 i n)) hs own =
    let (mv, named) = has n hs.1 in
    subst (λ j. held (place cfg (rule6 (reject6 j n))) t ≡ 0) (sym (from_some own))
      (c.reject n mv named)
IsClear-slot cfg u t at has c (route via w) hs own =
    let same_u : u ≡ w =
      same_uplink (sym at ∙ ap (get_elem? cfg.uplinks) (sym (from_some own)) ∙ hs) in
    subst (λ x. held (place cfg (route via x)) t ≡ 0) same_u
      (elim via as (λ x. held (place cfg (route x u)) t ≡ 0) [
        | shared4 ↦ c.shared
        | own4 ↦ c.own
        | own6 ↦ c.route6
      ])

-- Nothing is left in place, and nothing is recorded of the policy rules.
pub record IsBare (cfg : Config) (d : Daemon) : Type 0 where
  pub config : d.cfg ≡ cfg
  pub no_rules4 : d.ipv4_rules_installed ≡ false
  pub no_rule6 : d.ipv6_rule_installed ≡ false
  pub empty : (k : Place) → held k d.trace ≡ 0

abbrev pub ReturnsBare : Config → Option Daemon → Type 0
ReturnsBare cfg o = (d' : Daemon) × (o ≡ some d') × IsBare cfg d'

-- The body of `teardown_all`, for a configuration.
abbrev torn_down : Config → Daemon → Option Daemon
torn_down cfg d = for_uplinks (on_uplink (teardown_uplink cfg)) cfg.uplinks d >>= λ d'.
    some (teardown_policy6 (teardown_policy4 d'))

module _ (cfg : Config) (valid : IsValid cfg) (named : IsNamed cfg) where
  -- The invariant of the loop: the account is kept, and the uplinks before position `n` are gone.
  record IsTornBelow (n : ℕ) (d : Daemon) : Type 0 where
    booked : IsBooked cfg d
    gone :
        (s : Slot) (i : ℕ)
        → IsSlot cfg s
        → owner s ≡ some i
        → i < n
        → held (place cfg s) d.trace ≡ 0

  teardown_step :
      (n : ℕ) (u : UplinkConfig) (d : Daemon)
      → get_elem? cfg.uplinks n ≡ some u
      → IsTornBelow n d
      → (d' : Daemon) × (on_uplink (teardown_uplink cfg) u d ≡ some d') × IsTornBelow (suc n) d'
  teardown_step n u d at t =
      let v = view_of d u in
      let (a, idle) = t.booked.uplink n u at in
      let (has, distinct) = named n u at in
      let own_at = own_index cfg valid n u at in
      let lt = known cfg valid named n u at in
      let (w, e, a', clear) = teardown_uplink-clears cfg u lt has distinct v a idle in
      let l : IsLocal cfg u v w = record {
        accounted = a';
        idle = teardown_uplink-IsIdle6 cfg u v w e idle;
        framed = λ k out. teardown_uplink-IsFramed cfg u own_at lt has k out v w e;
      } in
      let (e', b') = on_uplink-IsBooked cfg valid (teardown_uplink cfg) n u d w at e l t.booked in
      let index = index_at cfg valid n u at in
      (
        put_view u w d,
        e',
        record {
          booked = b';
          gone = λ s i hs own below. elim (lt_or_same below) [
            | inl earlier ↦
                l.framed (place cfg s) (
                  place-IsOutside cfg valid s u hs
                    (λ o. ne_of_lt earlier (from_some (sym own ∙ o) ∙ index)))
                ∙ t.gone s i hs own earlier
            | inr here ↦
                IsClear-slot cfg u w.trace own_at has clear s hs (own ∙ ap some (here ∙ sym index))
          ];
        },
      )

  -- What stands at a place of the configuration is gone after all uplinks and the policy rules.
  slots_gone :
      (d : Daemon)
      → IsTornBelow (length cfg.uplinks) d
      → (s : Slot) → IsSlot cfg s
      → held (place cfg s) (teardown_policy6 (teardown_policy4 d)).trace ≡ 0
  slots_gone d t (rule4 internal4) hs =
      subst (λ c. IsGone c d (rule4 internal4) (one_if d.ipv4_rules_installed)) t.booked.config
        (teardown_policy-internal4 d) t.booked.internal4
  slots_gone d t (rule4 wan4) hs =
      subst (λ c. IsGone c d (rule4 wan4) (one_if d.ipv4_rules_installed)) t.booked.config
        (teardown_policy-wan4 d) t.booked.wan4
  slots_gone d t (rule6 internal6) hs =
      subst (λ c. IsGone c d (rule6 internal6) (one_if d.ipv6_rule_installed)) t.booked.config
        (teardown_policy-internal6 d) t.booked.internal6
  slots_gone d t (rule4 (lo4 i)) hs =
      teardown_policy-zero d (place cfg (rule4 (lo4 i))) (t.gone (rule4 (lo4 i)) i hs refl hs)
  slots_gone d t (rule6 (lo6 i)) hs =
      teardown_policy-zero d (place cfg (rule6 (lo6 i))) (t.gone (rule6 (lo6 i)) i hs refl hs)
  slots_gone d t (rule6 (pd6 i)) hs =
      teardown_policy-zero d (place cfg (rule6 (pd6 i))) (t.gone (rule6 (pd6 i)) i hs refl hs)
  slots_gone d t (rule6 (fwd6 i n)) hs =
      teardown_policy-zero d (place cfg (rule6 (fwd6 i n)))
        (t.gone (rule6 (fwd6 i n)) i hs refl hs.0)
  slots_gone d t (rule6 (reject6 i n)) hs =
      teardown_policy-zero d (place cfg (rule6 (reject6 i n)))
        (t.gone (rule6 (reject6 i n)) i hs refl hs.0)
  slots_gone d t (route via u) hs =
      teardown_policy-zero d (place cfg (route via u))
        (t.gone (route via u) u.index hs refl (get_elem?-lt_length cfg.uplinks u.index hs))

  -- A place that holds something is none of the configuration, and nothing stands elsewhere.
  all_gone :
      (d : Daemon)
      → IsTornBelow (length cfg.uplinks) d
      → (k : Place) → held k (teardown_policy6 (teardown_policy4 d)).trace ≡ 0
  all_gone d t k =
      let after = (teardown_policy6 (teardown_policy4 d)).trace in
      elim (ℕ_discrete (held k after) 0) [
        | yes e ↦ e
        | no ne ↦
            let elsewhere : IsElsewhere cfg k = λ s hs. elim (Bool-cases (same k (place cfg s))) [
              | inl here ↦ absurd (
                  ne (
                    ap (λ p. held p after) (eq_of_same k (place cfg s) here) ∙ slots_gone d t s hs))
              | inr apart ↦ apart
            ] in
            teardown_policy-zero d k (t.booked.elsewhere k elsewhere)
      ]

  -- From an account of all commands so far, tearing everything down returns, and leaves no rule and
  -- no route in place, neither of an uplink nor of the policy, if every network has a macvlan name
  -- of its own for every uplink.
  pub teardown_all-IsBare : (d : Daemon) → IsBooked cfg d → ReturnsBare cfg (teardown_all d)
  unfolding teardown_all
  teardown_all-IsBare d b =
      let start : IsTornBelow 0 d = record {
        booked = b;
        gone = λ s i hs own lt. absurd (omega arith);
      } in
      let (d', e, t) =
        for_uplinks_all cfg.uplinks IsTornBelow (on_uplink (teardown_uplink cfg)) teardown_step d
          start in
      let (cfg_kept, off4, off6) = teardown_policy-flags d' in
      (
        teardown_policy6 (teardown_policy4 d'),
        ap (λ c. torn_down c d) b.config
            ∙ ap (λ o. o >>= λ x. some (teardown_policy6 (teardown_policy4 x))) e,
        record {
          config = cfg_kept ∙ t.booked.config;
          no_rules4 = off4;
          no_rule6 = off6;
          empty = all_gone d' t;
        },
      )
