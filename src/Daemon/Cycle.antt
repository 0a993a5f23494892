-- ===== src/Daemon/Cycle.antt =====
-- The cycle of the probes keeps the account.
use uplinkmgr.Prelude.{ℕ, suc, ◌≡◌, refl, List, [], ◌∷◌, Bool, false, ◌||◌, some, get_elem?}
use uplinkmgr.Config.{Config, UplinkConfig}
use uplinkmgr.Config.Loaded.{IsValid}
use uplinkmgr.StateMachine.{Family, ipv4, ipv6}
use uplinkmgr.Radvd.{Ipaddress, sighup}
use uplinkmgr.Uplink.View.{View, fire_wan_event}
use uplinkmgr.Uplink.Invariant.{if_keeps}
use uplinkmgr.Uplink.Ledger.{Place, held}
use uplinkmgr.Daemon.Slots.{place}
use uplinkmgr.Daemon.Booked.{
  IsNamed, IsBooked, IsLocal, IsAccounted-moved, IsIdle6-moved, own_index, put_view-IsBooked,
}
use uplinkmgr.Daemon.Rounds.{ReturnsBooked, reconcile_one4-IsBooked, reconcile_one6-IsBooked}
use uplinkmgr.Daemon.Quiet.{update_primaries-IsQuiet, regenerate-IsBooked}
use uplinkmgr.Daemon.Safe.{IsSafe, IsSafe-of, IsQuiet-IsSafe, ReturnsSafe}
use uplinkmgr.Daemon.Machine.{Daemon, view_of, put_view, reconcile_one4, update_primaries}
use uplinkmgr.Daemon.Handlers.{
  Env, judge, announce, after_change4, after_change6, cycle_one, cycle_each, run_cycle,
}

module _ (cfg : Config) (valid : IsValid cfg) (named : IsNamed cfg) (i : ℕ) (u : UplinkConfig)
    (at : get_elem? cfg.uplinks i ≡ some u) where
  -- A new view with the same entry of `_installed`, and a trace that leaves the same in place.
  quiet_view-IsBooked :
      (d : Daemon) (w : View)
      → w.installed ≡ d.installed u.name
      → ((k : Place) → held k w.trace ≡ held k d.trace)
      → IsBooked cfg d
      → IsBooked cfg (put_view u w d)
  quiet_view-IsBooked d w same keep b =
      let (a, idle) = b.uplink i u at in
      let l : IsLocal cfg u (view_of d u) w = record {
        accounted =
            IsAccounted-moved cfg u (view_of d u) w (own_index cfg valid i u at) same
              (λ s hs own. keep (place cfg s)) a;
        idle = IsIdle6-moved u (view_of d u) w same idle;
        framed = λ k out. keep k;
      } in
      put_view-IsBooked cfg valid i u d w at l b

  module _ (addresses : Ipaddress) (env : Env) where
    announce-IsBooked :
        (f : Family) (d : Daemon) → IsBooked cfg d → IsBooked cfg (announce addresses env f u d)
    announce-IsBooked f d b =
        quiet_view-IsBooked d (fire_wan_event env.files u f _ (view_of d u))
          (unfold fire_wan_event in refl) (λ k. unfold fire_wan_event in refl) b

    after_change4-IsBooked :
        (changed : Bool) (d : Daemon)
        → IsBooked cfg d
        → IsBooked cfg (after_change4 addresses env changed u d)
    unfolding after_change4
    after_change4-IsBooked changed d b =
        if_keeps (IsBooked cfg) changed
          (announce-IsBooked ipv4 (reconcile_one4 env.files u d)
            (reconcile_one4-IsBooked cfg valid named i u at env.files d b))
          b

    after_change6-IsBooked :
        (changed : Bool) (d : Daemon)
        → IsBooked cfg d
        → ReturnsBooked cfg (after_change6 addresses env changed u d)
    unfolding after_change6
    after_change6-IsBooked changed d b =
        let (d', e, b') = reconcile_one6-IsBooked cfg valid named i u at env.files env.now d b in
        if_keeps (ReturnsBooked cfg) changed
          (announce addresses env ipv6 u d', rw e refl, announce-IsBooked ipv6 d' b') (d, refl, b)

    cycle_one-IsBooked :
        (any : Bool) (d : Daemon)
        → IsBooked cfg d
        → (s' : Bool × Daemon) × (cycle_one addresses env u (any, d) ≡ some s') × IsBooked cfg s'.1
    unfolding cycle_one
    cycle_one-IsBooked any d b =
        let judged = judge addresses env d.cfg u (d.states u.name) in
        let d0 = put_view u (record (view_of d u) { health = judged.0 }) d in
        let b0 =
          quiet_view-IsBooked d (record (view_of d u) { health = judged.0 }) refl (λ k. refl) b in
        let d4 = after_change4 addresses env judged.1 u d0 in
        let (d', e, b') =
          after_change6-IsBooked judged.2 d4 (after_change4-IsBooked judged.1 d0 b0) in
        ((any || judged.2, d'), rw e refl, b')

module _ (cfg : Config) (valid : IsValid cfg) (named : IsNamed cfg) (addresses : Ipaddress)
    (env : Env) where
  cycle_each-IsBooked :
      (us : List UplinkConfig)
      → ((i : ℕ) (u : UplinkConfig)
          → get_elem? us i ≡ some u
          → (j : ℕ) × (get_elem? cfg.uplinks j ≡ some u))
      → (any : Bool) (d : Daemon) → IsBooked cfg d
      → (s' : Bool × Daemon) × (cycle_each addresses env us (any, d) ≡ some s') × IsBooked cfg s'.1
  unfolding cycle_each
  cycle_each-IsBooked [] known any d b = ((any, d), refl, b)
  cycle_each-IsBooked (u ∷ us) known any d b =
      let (j, at) = known 0 u refl in
      let (s1, e, b1) = cycle_one-IsBooked cfg valid named j u at addresses env any d b in
      let (s2, e', b2) = cycle_each-IsBooked us (λ i w at'. known (suc i) w at') s1.0 s1.1 b1 in
      rw e (s2, e', b2)

pub run_cycle-IsSafe :
    (addresses : Ipaddress) (env : Env) (d : Daemon)
    → IsSafe d
    → ReturnsSafe (run_cycle addresses env d)
unfolding run_cycle
run_cycle-IsSafe addresses env d s =
    let (s', e, b) =
      cycle_each-IsBooked d.cfg s.valid s.named addresses env d.cfg.uplinks (λ i u at. (i, at))
        false d s.booked in
    let told =
      if_keeps (ReturnsBooked d.cfg) s'.0
        (regenerate-IsBooked d.cfg s.valid s.named addresses env.files env.now sighup s'.1 b)
        (s'.1, refl, b) in
    let (d'', e', b') = told in
    (
      update_primaries d'',
      rw (e, e') refl,
      IsQuiet-IsSafe d'' (update_primaries d'') (update_primaries-IsQuiet d'')
          (IsSafe-of d.cfg s.valid s.named d'' b'),
    )
