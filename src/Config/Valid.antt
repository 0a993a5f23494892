-- ===== src/Config/Valid.antt =====
-- What a loaded configuration guarantees.
use uplinkmgr.Prelude.{
  ℕ, zero, suc, ◌+◌, ◌≤◌, ◌<◌, ◌≡◌, ◌≢◌, sym, subst, List, [], ◌∷◌, true, false, inl, inr, some,
  Text, ==_iff, pos, ◌≤ℤ◌, eqb_ℤ_iff, get_elem?, length, contains, is_nonempty, arith,
}
use uplinkmgr.Config.{NetworkConfig, UplinkConfig}
use uplinkmgr.Config.Yaml.{Yaml, mapping, Items, nil, cons, Fields, ok, Result-cases}
use uplinkmgr.Config.Names.{is_name, is_iface}
use uplinkmgr.Config.Load.{
  Seen, see, holds_ℤ, check_uplink, read_uplink, parse_uplink, parse_uplink_list,
}

pub record IsNetwork (net : NetworkConfig) : Type 0 where
  pub named : is_nonempty net.name ≡ true
  pub interface : is_iface net.interface ≡ true
  pub short : length net.interface ≤ 15

pub record IsUplink (u : UplinkConfig) : Type 0 where
  pub named : is_name u.name ≡ true
  pub interface : is_iface u.interface ≡ true
  pub short : length u.interface ≤ 15
  pub metric : pos 1 ≤ℤ u.metric
  pub hint : (pos 1 ≤ℤ u.ipv6_pd_hint) × (u.ipv6_pd_hint ≤ℤ pos 64)

-- Nothing of the uplink has been seen before.
pub record IsFresh (seen : Seen) (u : UplinkConfig) : Type 0 where
  pub name : contains u.name seen.names ≡ false
  pub iface : contains u.interface seen.ifaces ≡ false
  pub metric : holds_ℤ u.metric seen.metrics ≡ false

check_uplink-ok :
    (seen : Seen) (u : UplinkConfig) → check_uplink seen u ≡ ok tt → IsUplink u × IsFresh seen u
unfolding check_uplink
check_uplink-ok seen u h = (
  record {
    named = ground arith;
    interface = ground arith;
    short = ground arith;
    metric = ground arith;
    hint = ground arith;
  },
  record { name = ground arith; iface = ground arith; metric = ground arith },
)

-- Each uplink of the list is acceptable, is new at its turn, and has its position as index.
abbrev pub Accepted : Seen → ℕ → List UplinkConfig → Type 0
Accepted seen i [] = Unit
Accepted seen i (u ∷ uplinks) =
    IsUplink u × IsFresh seen u × (u.index ≡ i) × Accepted (see u seen) (suc i) uplinks

-- Two uplinks share no name, no interface and no metric.
pub record IsApart (u w : UplinkConfig) : Type 0 where
  pub name : u.name ≢ w.name
  pub interface : u.interface ≢ w.interface
  pub metric : u.metric ≢ w.metric

IsFresh-see :
    (u w : UplinkConfig) (seen : Seen) → IsFresh (see u seen) w → IsFresh seen w × IsApart u w
unfolding contains
IsFresh-see u w seen f = (
  record {
    name = ground (arith, f.name);
    iface = ground (arith, f.iface);
    metric = ground (arith, f.metric);
  },
  record {
    name = λ e. ground (arith, f.name, ==_iff w.name u.name);
    interface = λ e. ground (arith, f.iface, ==_iff w.interface u.interface);
    metric = λ e. ground (arith, f.metric, eqb_ℤ_iff w.metric u.metric);
  },
)

pub Accepted-at :
    (seen : Seen) (i : ℕ) (uplinks : List UplinkConfig)
    → Accepted seen i uplinks
    → (k : ℕ) (u : UplinkConfig) → get_elem? uplinks k ≡ some u
    → IsUplink u × (u.index ≡ i + k) × IsFresh seen u
Accepted-at seen i [] a k u at = cc
Accepted-at seen i (x ∷ uplinks) (ok_x, fresh, index, rest) zero u at =
    let same : x ≡ u = ground arith in
    subst (λ y. IsUplink y × (y.index ≡ i + 0) × IsFresh seen y) same (ok_x, omega arith, fresh)
Accepted-at seen i (x ∷ uplinks) (ok_x, fresh, index, rest) (suc k) u at =
    let (ok_u, index_u, fresh_u) = Accepted-at (see x seen) (suc i) uplinks rest k u at in
    (ok_u, omega arith, (IsFresh-see x u seen fresh_u).0)

pub IsApart-sym : (u w : UplinkConfig) → IsApart u w → IsApart w u
IsApart-sym u w a = record {
  name = λ e. a.name (sym e);
  interface = λ e. a.interface (sym e);
  metric = λ e. a.metric (sym e);
}

pub Accepted-IsApart :
    (seen : Seen) (i : ℕ) (uplinks : List UplinkConfig)
    → Accepted seen i uplinks
    → (k m : ℕ) (u w : UplinkConfig) → k < m
    → get_elem? uplinks k ≡ some u
    → get_elem? uplinks m ≡ some w
    → IsApart u w
Accepted-IsApart seen i [] a k m u w lt at at' = cc
Accepted-IsApart seen i (x ∷ uplinks) a k zero u w lt at at' = absurd (omega arith)
Accepted-IsApart seen i (x ∷ uplinks) (ok_x, fresh, index, rest) zero (suc m) u w lt at at' =
    let same : x ≡ u = ground arith in
    let (ok_w, index_w, fresh_w) = Accepted-at (see x seen) (suc i) uplinks rest m w at' in
    subst (λ y. IsApart y w) same (IsFresh-see x w seen fresh_w).1
Accepted-IsApart seen i (x ∷ uplinks) (ok_x, fresh, index, rest) (suc k) (suc m) u w lt at at' =
    Accepted-IsApart (see x seen) (suc i) uplinks rest k m u w (omega arith) at at'

pub ok-injective {ℓ} : {A : Type ℓ} {a b : A} → ok a ≡ ok b → a ≡ b
ok-injective e = cc

module _ (repr : Yaml → Text) where
  read_uplink-index :
      (i : ℕ) (fs : Fields) (u : UplinkConfig) → read_uplink repr i fs ≡ ok u → u.index ≡ i
  unfolding read_uplink
  read_uplink-index i fs u h = ground arith

  parse_uplink-ok :
      (seen : Seen) (i : ℕ) (entry : Yaml) (u : UplinkConfig)
      → parse_uplink repr seen i entry ≡ ok u
      → IsUplink u × IsFresh seen u × (u.index ≡ i)
  unfolding parse_uplink
  parse_uplink-ok seen i (mapping fs) u h = elim (Result-cases (read_uplink repr i fs)) [
    | inl (e, fails) ↦ ground arith
    | inr (r, reads) ↦ elim (Result-cases (check_uplink seen r)) [
      | inl (e, fails) ↦ ground arith
      | inr (t, passes) ↦
          let same : r ≡ u = ground arith in
          let (valid, fresh) = check_uplink-ok seen r passes in
          subst (λ y. IsUplink y × IsFresh seen y × (y.index ≡ i)) same
            (valid, fresh, read_uplink-index i fs r reads)
    ]
  ]
  parse_uplink-ok seen i _ u h = cc

  pub parse_uplink_list-Accepted :
      (seen : Seen) (i : ℕ) (entries : Items) (uplinks : List UplinkConfig)
      → parse_uplink_list repr seen i entries ≡ ok uplinks
      → Accepted seen i uplinks
  unfolding parse_uplink_list
  parse_uplink_list-Accepted seen i nil [] h = tt
  parse_uplink_list-Accepted seen i nil (u ∷ uplinks) h = cc
  parse_uplink_list-Accepted seen i (cons entry entries) uplinks h =
      elim (Result-cases (parse_uplink repr seen i entry)) [
        | inl (e, fails) ↦ cc (simp fails at h)
        | inr (u, first) ↦
            elim (Result-cases (parse_uplink_list repr (see u seen) (suc i) entries)) [
              | inl (e, fails) ↦ cc (simp (first, fails) at h)
              | inr (us, rest) ↦
                  let same : u ∷ us ≡ uplinks = ok-injective (simp (first, rest) at h) in
                  let (valid, fresh, index) = parse_uplink-ok seen i entry u first in
                  subst (Accepted seen i) same (
                    valid,
                    fresh,
                    index,
                    parse_uplink_list-Accepted (see u seen) (suc i) entries us rest,
                  )
            ]
      ]
