-- ===== src/Daemon/Rounds.antt =====
-- The loops over the uplinks keep the account of the whole daemon.
use native.Mathlib.Nat.{add-zero, add-suc, suc-add}
use uplinkmgr.Prelude.{
  ℕ, suc, ◌+◌, ◌<◌, ◌≡◌, refl, sym, ap, ◌∙◌, subst, List, [], ◌∷◌, Option, some, get_elem?, length,
  ℤ, arith,
}
use uplinkmgr.Config.{Config, UplinkConfig}
use uplinkmgr.Config.Loaded.{IsValid}
use uplinkmgr.State.{Files}
use uplinkmgr.Uplink.View.{View}
use uplinkmgr.Uplink.Reconcile.{reconcile_uplink_ipv4, reconcile_uplink_ipv6}
use uplinkmgr.Uplink.Invariant.{
  reconcile_uplink_ipv4-IsAccounted, reconcile_uplink_ipv6-IsAccounted,
}
use uplinkmgr.Daemon.Frames.{
  reconcile_uplink_ipv4-IsFramed, reconcile_uplink_ipv4-IsIdle6, reconcile_uplink_ipv6-IsFramed,
  reconcile_uplink_ipv6-IsIdle6,
}
use uplinkmgr.Daemon.Booked.{
  IsNamed, IsBooked, IsLocal, get_elem?-lt_length, own_index, put_view-IsBooked,
}
use uplinkmgr.Daemon.Machine.{
  Daemon, view_of, put_view, on_uplink, for_uplinks, reconcile_one4, reconcile_one6, reconcile_all,
}

module _ (uplinks : List UplinkConfig) (P : ℕ → Daemon → Type 0)
    (body : UplinkConfig → Daemon → Option Daemon)
    (step : (n : ℕ) (u : UplinkConfig) (d : Daemon)
      → get_elem? uplinks n ≡ some u
      → P n d
      → (d' : Daemon) × (body u d ≡ some d') × P (suc n) d') where
  -- The loop from position `k` ends, and keeps an invariant that its body keeps.
  for_uplinks_from :
      (k : ℕ) (us : List UplinkConfig)
      → ((i : ℕ) → get_elem? us i ≡ get_elem? uplinks (k + i))
      → (d : Daemon) → P k d
      → (d' : Daemon) × (for_uplinks body us d ≡ some d') × P (k + length us) d'
  unfolding for_uplinks
  for_uplinks_from k [] agree d p = (d, refl, subst (λ j. P j d) (omega arith) p)
  for_uplinks_from k (u ∷ us) agree d p =
      let first : get_elem? uplinks k ≡ some u = rw add-zero at (sym (agree 0)) in
      let (d', e, p') = step k u d first p in
      let next : (i : ℕ) → get_elem? us i ≡ get_elem? uplinks (suc k + i) =
        λ i. rw (suc-add, ← add-suc) (agree (suc i)) in
      let (d'', e', p'') = for_uplinks_from (suc k) us next d' p' in
      rw e (d'', e', subst (λ j. P j d'') (omega arith) p'')

  -- The whole loop.
  pub for_uplinks_all :
      (d : Daemon)
      → P 0 d
      → (d' : Daemon) × (for_uplinks body uplinks d ≡ some d') × P (length uplinks) d'
  for_uplinks_all d p =
      let (d', e, p') =
        for_uplinks_from 0 uplinks (λ i. ap (get_elem? uplinks) (omega arith)) d p in
      (d', e, subst (λ j. P j d') (omega arith) p')

-- An operation of the daemon returns, and the account is kept.
abbrev pub ReturnsBooked : Config → Option Daemon → Type 0
ReturnsBooked cfg o = (d' : Daemon) × (o ≡ some d') × IsBooked cfg d'

module _ (cfg : Config) (valid : IsValid cfg) where
  -- A method of one uplink that returns a new view of it.
  pub on_uplink-IsBooked :
      (op : UplinkConfig → View → Option View) (i : ℕ) (u : UplinkConfig) (d : Daemon) (w : View)
      → get_elem? cfg.uplinks i ≡ some u
      → op u (view_of d u) ≡ some w
      → IsLocal cfg u (view_of d u) w
      → IsBooked cfg d
      → (on_uplink op u d ≡ some (put_view u w d)) × IsBooked cfg (put_view u w d)
  on_uplink-IsBooked op i u d w at e l b = (rw e refl, put_view-IsBooked cfg valid i u d w at l b)

  module _ (named : IsNamed cfg) (i : ℕ) (u : UplinkConfig)
      (at : get_elem? cfg.uplinks i ≡ some u) where
    pub known : u.index < length cfg.uplinks
    known = get_elem?-lt_length cfg.uplinks u.index (own_index cfg valid i u at)

    pub reconcile_one4-IsBooked :
        (files : Files) (d : Daemon) → IsBooked cfg d → IsBooked cfg (reconcile_one4 files u d)
    unfolding reconcile_one4
    reconcile_one4-IsBooked files d b =
        let v = view_of d u in
        let (a, idle) = b.uplink i u at in
        let l : IsLocal cfg u v (reconcile_uplink_ipv4 cfg files u v) = record {
          accounted = reconcile_uplink_ipv4-IsAccounted cfg u known files v a;
          idle = reconcile_uplink_ipv4-IsIdle6 cfg u files v idle;
          framed = λ k out.
              reconcile_uplink_ipv4-IsFramed cfg u (own_index cfg valid i u at) known
                (named i u at).0 k out files v;
        } in
        subst (λ c. IsBooked cfg (put_view u (reconcile_uplink_ipv4 c files u v) d)) (sym b.config)
          (put_view-IsBooked cfg valid i u d (reconcile_uplink_ipv4 cfg files u v) at l b)

    pub reconcile_one6-IsBooked :
        (files : Files) (now : ℤ) (d : Daemon)
        → IsBooked cfg d
        → ReturnsBooked cfg (reconcile_one6 files now u d)
    unfolding reconcile_one6
    reconcile_one6-IsBooked files now d b =
        let v = view_of d u in
        let (a, idle) = b.uplink i u at in
        let (has, distinct) = named i u at in
        let (w, e, a') = reconcile_uplink_ipv6-IsAccounted cfg u known has distinct files now v a in
        let l : IsLocal cfg u v w = record {
          accounted = a';
          idle = reconcile_uplink_ipv6-IsIdle6 cfg u files now v w e idle;
          framed = λ k out.
              reconcile_uplink_ipv6-IsFramed cfg u (own_index cfg valid i u at) known has k out
                files now v w e;
        } in
        let (e', b') =
          on_uplink-IsBooked (λ x. reconcile_uplink_ipv6 cfg files x now) i u d w at e l b in
        (
          put_view u w d,
          ap (λ c. on_uplink (λ x. reconcile_uplink_ipv6 c files x now) u d) b.config ∙ e',
          b',
        )

    pub reconcile_one-IsBooked :
        (files : Files) (now : ℤ) (d : Daemon)
        → IsBooked cfg d
        → ReturnsBooked cfg (reconcile_one6 files now u (reconcile_one4 files u d))
    reconcile_one-IsBooked files now d b =
        reconcile_one6-IsBooked files now (reconcile_one4 files u d)
          (reconcile_one4-IsBooked files d b)

  -- Reconciling all uplinks returns, and keeps the account.
  pub reconcile_all-IsBooked :
      (named : IsNamed cfg) (files : Files) (now : ℤ) (d : Daemon)
      → IsBooked cfg d
      → ReturnsBooked cfg (reconcile_all files now d)
  unfolding reconcile_all
  reconcile_all-IsBooked named files now d b =
      let body =
        λ (u : UplinkConfig) (x : Daemon). reconcile_one6 files now u (reconcile_one4 files u x) in
      let (d', e, b') =
        for_uplinks_all cfg.uplinks (λ n. IsBooked cfg) body
          (λ n u x at bx. reconcile_one-IsBooked named n u at files now x bx) d b in
      (d', ap (λ c. for_uplinks body c.uplinks d) b.config ∙ e, b')
