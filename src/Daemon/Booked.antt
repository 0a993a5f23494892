-- ===== src/Daemon/Booked.antt =====
-- The account of the whole daemon: what the commands so far leave in place, everywhere.
use native.Mathlib.Decide.{ℕ_discrete}
use uplinkmgr.Prelude.{
  ==_of_ne, ℕ, zero, suc, ◌<◌, ◌≡◌, ◌≢◌, refl, sym, ap, ◌∙◌, subst, List, [], ◌∷◌, none, some,
  is_some, has_key, contains, ==_refl, get_elem?, length, arith,
}
use uplinkmgr.Config.{Config, UplinkConfig}
use uplinkmgr.Config.Loaded.{IsValid}
use uplinkmgr.Priority.Distinct.{internal4, wan4, internal6, lo4, lo6, pd6, fwd6, reject6}
use uplinkmgr.Uplink.View.{View}
use uplinkmgr.Uplink.Ledger.{Place, held, one_if}
use uplinkmgr.Uplink.Places.{IsAccounted, HasDistinctMacvlans, macvlan_at-lt}
use uplinkmgr.Uplink.Loops.{HasMacvlans}
use uplinkmgr.Uplink.Teardown.{IsIdle6}
use uplinkmgr.Daemon.Slots.{
  Slot, rule4, rule6, route, shared4, own4, own6, owner, place, IsSlot, IsOutside, IsElsewhere,
  place-IsOutside, Elsewhere-IsOutside,
}
use uplinkmgr.Daemon.Frame.{IsFramed}
use uplinkmgr.Daemon.Machine.{Daemon, view_of, put_view}

-- Each uplink has a macvlan name for every network, and no two of them are the same.
abbrev pub IsNamed : Config → Type 0
IsNamed cfg =
    (i : ℕ) (u : UplinkConfig)
    → get_elem? cfg.uplinks i ≡ some u
    → HasMacvlans cfg u × HasDistinctMacvlans cfg u

pub get_elem?-lt_length {ℓ} :
    {A : Type ℓ} (xs : List A) (n : ℕ) {a : A} → get_elem? xs n ≡ some a → n < length xs
get_elem?-lt_length [] n h = ground arith
get_elem?-lt_length (x ∷ xs) zero h = omega arith
get_elem?-lt_length (x ∷ xs) (suc n) h = omega (arith, get_elem?-lt_length xs n h)

-- At every place the trace leaves what the daemon records, and nothing anywhere else.
pub record IsBooked (cfg : Config) (d : Daemon) : Type 0 where
  pub config : d.cfg ≡ cfg
  pub uplink :
      (i : ℕ) (u : UplinkConfig)
      → get_elem? cfg.uplinks i ≡ some u
      → IsAccounted cfg u (view_of d u) × IsIdle6 u (view_of d u)
  pub internal4 : held (place cfg (rule4 internal4)) d.trace ≡ one_if d.ipv4_rules_installed
  pub wan4 : held (place cfg (rule4 wan4)) d.trace ≡ one_if d.ipv4_rules_installed
  pub internal6 : held (place cfg (rule6 internal6)) d.trace ≡ one_if d.ipv6_rule_installed
  pub elsewhere : (k : Place) → IsElsewhere cfg k → held k d.trace ≡ 0

from_some : {a b : UplinkConfig} → some a ≡ some b → a ≡ b
from_some e = cc

from_some_ℕ : {a b : ℕ} → some a ≡ some b → a ≡ b
from_some_ℕ e = cc

none≢some : {a : ℕ} → none ≢ some a
none≢some e = cc

pub view_of-put_view : (d : Daemon) (u : UplinkConfig) (w : View) → view_of (put_view u w d) u ≡ w
view_of-put_view d u w = rw (==_refl u.name) refl

pub put_view-other :
    (d : Daemon) (u u' : UplinkConfig) (w : View)
    → u'.name ≢ u.name
    → (put_view u w d).installed u'.name ≡ d.installed u'.name
put_view-other d u u' w ne = rw (==_of_ne u'.name u.name ne) refl

-- The account of an uplink needs its entry, and what its places hold.
pub IsAccounted-moved :
    (cfg : Config) (u : UplinkConfig) (v v' : View)
    → get_elem? cfg.uplinks u.index ≡ some u
    → v'.installed ≡ v.installed
    → ((s : Slot) → IsSlot cfg s → owner s ≡ some u.index → IsFramed (place cfg s) v v')
    → IsAccounted cfg u v
    → IsAccounted cfg u v'
IsAccounted-moved cfg u v v' at same keep a =
    let known = get_elem?-lt_length cfg.uplinks u.index at in
    record {
      shared =
          keep (route shared4 u) at refl
          ∙ a.shared
          ∙ ap (λ r. one_if (is_some r.ipv4_installed)) (sym same);
      own =
          keep (route own4 u) at refl
          ∙ a.own
          ∙ ap (λ r. one_if (is_some r.ipv4_installed)) (sym same);
      lo4 =
          keep (rule4 (lo4 u.index)) known refl
          ∙ a.lo4
          ∙ ap (λ r. one_if (is_some r.ipv4_lo_to_uplink_addr)) (sym same);
      route6 =
          keep (route own6 u) at refl
          ∙ a.route6
          ∙ ap (λ r. one_if r.ipv6_route_installed) (sym same);
      lo6 =
          keep (rule6 (lo6 u.index)) known refl
          ∙ a.lo6
          ∙ ap (λ r. one_if (is_some r.lo_to_uplink_prefix)) (sym same);
      pd6 =
          keep (rule6 (pd6 u.index)) known refl
          ∙ a.pd6
          ∙ ap (λ r. one_if (is_some r.pd_lo_to_uplink_prefix)) (sym same);
      fwd = λ n mv named.
          keep (rule6 (fwd6 u.index n)) (known, macvlan_at-lt cfg u n named) refl
          ∙ a.fwd n mv named
          ∙ ap (λ r. one_if (has_key mv r.macvlan_fwd)) (sym same);
      reject = λ n mv named.
          keep (rule6 (reject6 u.index n)) (known, macvlan_at-lt cfg u n named) refl
          ∙ a.reject n mv named
          ∙ ap (λ r. one_if (contains mv r.macvlan_prohibit)) (sym same);
    }

pub IsIdle6-moved :
    (u : UplinkConfig) (v v' : View) → v'.installed ≡ v.installed → IsIdle6 u v → IsIdle6 u v'
IsIdle6-moved u v v' same idle off = let (none6, macvlans) = idle off in rw same (none6, macvlans)

-- A new view of one uplink, which keeps the account of the uplink and the places outside it.
pub record IsLocal (cfg : Config) (u : UplinkConfig) (before after : View) : Type 0 where
  pub accounted : IsAccounted cfg u after
  pub idle : IsIdle6 u after
  pub framed : (k : Place) → IsOutside cfg u k → IsFramed k before after

module _ (cfg : Config) (valid : IsValid cfg) where
  pub index_at : (i : ℕ) (u : UplinkConfig) → get_elem? cfg.uplinks i ≡ some u → u.index ≡ i
  index_at i u at = (valid.uplink i u at).1

  pub own_index :
      (i : ℕ) (u : UplinkConfig)
      → get_elem? cfg.uplinks i ≡ some u
      → get_elem? cfg.uplinks u.index ≡ some u
  own_index i u at = ap (get_elem? cfg.uplinks) (index_at i u at) ∙ at

  -- Another uplink keeps its account.
  other_IsAccounted :
      (i j : ℕ) (u u' : UplinkConfig) (d : Daemon) (w : View)
      → get_elem? cfg.uplinks i ≡ some u
      → get_elem? cfg.uplinks j ≡ some u'
      → j ≢ i
      → ((k : Place) → IsOutside cfg u k → IsFramed k (view_of d u) w)
      → IsAccounted cfg u' (view_of d u') × IsIdle6 u' (view_of d u')
      → IsAccounted cfg u' (view_of (put_view u w d) u') × IsIdle6 u' (view_of (put_view u w d) u')
  other_IsAccounted i j u u' d w at at' ne framed (a, idle) =
      let same = put_view-other d u u' w (valid.apart j i u' u ne at' at).name in
      let other : u'.index ≢ u.index = λ e. ne (sym (index_at j u' at') ∙ e ∙ index_at i u at) in
      (
        IsAccounted-moved cfg u' (view_of d u') (view_of (put_view u w d) u') (own_index j u' at')
            same
            (λ s hs own.
              framed (place cfg s)
                (place-IsOutside cfg valid s u hs (λ e. other (from_some_ℕ (sym own ∙ e)))))
            a,
        IsIdle6-moved u' (view_of d u') (view_of (put_view u w d) u') same idle,
      )

  pub put_view-IsBooked :
      (i : ℕ) (u : UplinkConfig) (d : Daemon) (w : View)
      → get_elem? cfg.uplinks i ≡ some u
      → IsLocal cfg u (view_of d u) w
      → IsBooked cfg d
      → IsBooked cfg (put_view u w d)
  put_view-IsBooked i u d w at l b = record {
    config = b.config;
    uplink = λ j u' at'. elim (ℕ_discrete j i) [
      | yes e ↦
          let same : u ≡ u' = from_some (sym at ∙ ap (get_elem? cfg.uplinks) (sym e) ∙ at') in
          subst
            (λ x.
              IsAccounted cfg x (view_of (put_view u w d) x)
              × IsIdle6 x (view_of (put_view u w d) x))
            same
            (subst (λ x. IsAccounted cfg u x × IsIdle6 u x) (sym (view_of-put_view d u w))
              (l.accounted, l.idle))
      | no ne ↦ other_IsAccounted i j u u' d w at at' ne l.framed (b.uplink j u' at')
    ];
    internal4 =
        l.framed (place cfg (rule4 internal4))
          (place-IsOutside cfg valid (rule4 internal4) u tt none≢some)
        ∙ b.internal4;
    wan4 =
        l.framed (place cfg (rule4 wan4)) (place-IsOutside cfg valid (rule4 wan4) u tt none≢some)
        ∙ b.wan4;
    internal6 =
        l.framed (place cfg (rule6 internal6))
          (place-IsOutside cfg valid (rule6 internal6) u tt none≢some)
        ∙ b.internal6;
    elsewhere = λ k e. l.framed k (Elsewhere-IsOutside cfg u k e) ∙ b.elsewhere k e;
  }
