-- ===== src/Config/Accepting.antt =====
-- That `_parse_uplinks` accepts the uplinks of a valid configuration.
use uplinkmgr.Prelude.{
  ℕ, suc, ◌+◌, ◌≡◌, ◌≢◌, refl, sym, List, [], ◌∷◌, true, some, Text, ==_iff, eqb_ℤ_iff, get_elem?,
  contains, is_nonempty, arith,
}
use uplinkmgr.Config.{Config, UplinkConfig}
use uplinkmgr.Config.Yaml.{ok}
use uplinkmgr.Config.Names.{is_name, is_iface}
use uplinkmgr.Config.Load.{Seen, nothing_seen, see, check_uplink}
use uplinkmgr.Config.Names.{is_name, is_iface}
use uplinkmgr.Naming.{chomp}
use uplinkmgr.Config.Valid.{IsUplink, IsFresh, IsApart, Accepted}
use uplinkmgr.Config.Loaded.{IsValid}
use uplinkmgr.Naming.{chomp}

name_nonempty : (s : Text) → is_name s ≡ true → is_nonempty s ≡ true
unfolding is_name chomp
name_nonempty [] h = h
name_nonempty (c ∷ s) h = refl

pub iface_nonempty : (s : Text) → is_iface s ≡ true → is_nonempty s ≡ true
unfolding is_iface chomp
iface_nonempty [] h = h
iface_nonempty (c ∷ s) h = refl

pub check_uplink-passes :
    (seen : Seen) (u : UplinkConfig) → IsUplink u → IsFresh seen u → check_uplink seen u ≡ ok tt
unfolding check_uplink
check_uplink-passes seen u v f = ground (
  arith,
  name_nonempty u.name,
  iface_nonempty u.interface,
  v.named,
  v.interface,
  v.short,
  v.metric,
  v.hint,
  f.name,
  f.iface,
  f.metric,
)

IsFresh-cons :
    (seen : Seen) (u w : UplinkConfig) → IsFresh seen w → IsApart u w → IsFresh (see u seen) w
unfolding contains
IsFresh-cons seen u w f a = record {
  name = ground (arith, f.name, ==_iff w.name u.name, λ (e : w.name ≡ u.name). a.name (sym e));
  iface = ground (
    arith,
    f.iface,
    ==_iff w.interface u.interface,
    λ (e : w.interface ≡ u.interface). a.interface (sym e),
  );
  metric =
      ground (
        arith,
        f.metric,
        eqb_ℤ_iff w.metric u.metric,
        λ (e : w.metric ≡ u.metric). a.metric (sym e),
      );
}

Accepted-of :
    (seen : Seen) (i : ℕ) (uplinks : List UplinkConfig)
    → ((k : ℕ) (u : UplinkConfig)
        → get_elem? uplinks k ≡ some u
        → IsUplink u × (u.index ≡ i + k) × IsFresh seen u)
    → ((j k : ℕ) (u w : UplinkConfig)
        → j ≢ k
        → get_elem? uplinks j ≡ some u
        → get_elem? uplinks k ≡ some w
        → IsApart u w)
    → Accepted seen i uplinks
Accepted-of seen i [] each apart = tt
Accepted-of seen i (u ∷ uplinks) each apart =
    let (valid, index, fresh) = each 0 u refl in
    (
      valid,
      fresh,
      omega arith,
      Accepted-of (see u seen) (suc i) uplinks
          (λ k w at.
            let (valid_w, index_w, fresh_w) = each (suc k) w at in
            (
              valid_w,
              omega arith,
              IsFresh-cons seen u w fresh_w
                  (apart 0 (suc k) u w (λ e. absurd (omega arith)) refl at),
            ))
          (λ j k x w ne at at'. apart (suc j) (suc k) x w (λ e. ne (omega arith)) at at'),
    )

pub IsValid-Accepted : (cfg : Config) → IsValid cfg → Accepted nothing_seen 0 cfg.uplinks
unfolding contains
IsValid-Accepted cfg v =
    Accepted-of nothing_seen 0 cfg.uplinks
      (λ k u at.
        let (valid, index) = v.uplink k u at in
        (valid, omega arith, record { name = refl; iface = refl; metric = refl }))
      v.apart
