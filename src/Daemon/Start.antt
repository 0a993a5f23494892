-- ===== src/Daemon/Start.antt =====
-- Bringing a configuration up, from nothing.
use uplinkmgr.Prelude.{
  ℕ, suc, ◌<◌, ◌≤◌, ◌≡◌, ◌≢◌, refl, sym, ap, ◌∙◌, [], false, none, some, lookup, contains,
  get_elem?, ℤ, arith,
}
use uplinkmgr.Config.{Config, UplinkConfig}
use uplinkmgr.Config.Loaded.{IsValid}
use uplinkmgr.State.{Files}
use uplinkmgr.Routing.{add_ipv4_policy_rules, add_ipv6_policy_rule}
use uplinkmgr.Priority.Distinct.{internal4, wan4, internal6}
use uplinkmgr.Uplink.Macvlan.{setup_macvlan_rules}
use uplinkmgr.Uplink.Startup.{setup_macvlan_rules-IsAccounted}
use uplinkmgr.Uplink.Ledger.{Place, held, same, same_refl, one_if}
use uplinkmgr.Uplink.Places.{
  shared_route, own_route, ipv6_route, lo4_rule, lo6_rule, pd6_rule, fwd_rule, reject_rule,
}
use uplinkmgr.Daemon.Slots.{rule4, rule6, place, place_apart, priority4_apart}
use uplinkmgr.Daemon.Frames.{setup_macvlan_rules-IsFramed, setup_macvlan_rules-IsIdle6}
use uplinkmgr.Daemon.Booked.{
  IsNamed, IsBooked, IsLocal, own_index, put_view-other, IsAccounted-moved,
}
use uplinkmgr.Daemon.Rounds.{
  ReturnsBooked, for_uplinks_all, known, on_uplink-IsBooked, reconcile_all-IsBooked,
}
use uplinkmgr.Daemon.Stop.{IsBare}
use uplinkmgr.Daemon.Quiet.{IsQuiet-IsBooked, update_primaries-IsQuiet}
use uplinkmgr.Daemon.Machine.{
  Daemon, view_of, put_view, on_uplink, for_uplinks, setup_ipv4_rules, setup_ipv6_rules,
  setup_ipv6_macvlan_rules, init_states, update_primaries, bring_up,
}

none≢some : {a : ℕ} → none ≢ some a
none≢some e = cc

internal4≢wan4 : internal4 ≢ wan4
internal4≢wan4 e = cc

-- The daemon with a new configuration and no state.
abbrev renewed : Config → Daemon → Daemon
renewed cfg d = init_states (record d { cfg = cfg; hook_timeout = cfg.hook_timeout })

renewed-IsBooked : (old cfg : Config) (d : Daemon) → IsBare old d → IsBooked cfg (renewed cfg d)
unfolding init_states lookup contains
renewed-IsBooked old cfg d bare = record {
  config = refl;
  uplink = λ i u at. (
    record {
      shared = bare.empty (shared_route cfg u);
      own = bare.empty (own_route cfg u);
      lo4 = bare.empty (lo4_rule cfg u);
      route6 = bare.empty (ipv6_route cfg u);
      lo6 = bare.empty (lo6_rule cfg u);
      pd6 = bare.empty (pd6_rule cfg u);
      fwd = λ n mv named. bare.empty (fwd_rule cfg u n);
      reject = λ n mv named. bare.empty (reject_rule cfg u n);
    },
    λ off. ((refl, refl, refl), λ mv. (refl, refl)),
  );
  internal4 = bare.empty (place cfg (rule4 internal4)) ∙ ap one_if (sym bare.no_rules4);
  wan4 = bare.empty (place cfg (rule4 wan4)) ∙ ap one_if (sym bare.no_rules4);
  internal6 = bare.empty (place cfg (rule6 internal6)) ∙ ap one_if (sym bare.no_rule6);
  elsewhere = λ k e. bare.empty k;
}

setup_ipv4_rules-other :
    (d : Daemon) (k : Place)
    → same k (place d.cfg (rule4 internal4)) ≡ false
    → same k (place d.cfg (rule4 wan4)) ≡ false
    → held k (setup_ipv4_rules d).trace ≡ held k d.trace
unfolding setup_ipv4_rules add_ipv4_policy_rules
setup_ipv4_rules-other d k h h' = ground (arith, h, h')

setup_ipv6_rules-other :
    (d : Daemon) (k : Place)
    → same k (place d.cfg (rule6 internal6)) ≡ false
    → held k (setup_ipv6_rules d).trace ≡ held k d.trace
unfolding setup_ipv6_rules add_ipv6_policy_rule
setup_ipv6_rules-other d k h = ground (arith, h)

setup_ipv4_rules-IsBooked :
    (d : Daemon)
    → IsValid d.cfg
    → d.ipv4_rules_installed ≡ false
    → IsBooked d.cfg d
    → IsBooked d.cfg (setup_ipv4_rules d)
unfolding setup_ipv4_rules add_ipv4_policy_rules
setup_ipv4_rules-IsBooked d valid off b =
    let apart = priority4_apart d.cfg internal4 wan4 tt tt internal4≢wan4 in
    let apart' = priority4_apart d.cfg wan4 internal4 tt tt (λ e. internal4≢wan4 (sym e)) in
    record {
      config = b.config;
      uplink = λ i u at.
          let (a, idle) = b.uplink i u at in
          (
            IsAccounted-moved d.cfg u (view_of d u) (view_of (setup_ipv4_rules d) u)
                (own_index d.cfg valid i u at) refl
                (λ s hs own.
                  setup_ipv4_rules-other d (place d.cfg s)
                    (place_apart d.cfg valid s (rule4 internal4) hs tt
                      (λ e. none≢some (sym e ∙ own)))
                    (place_apart d.cfg valid s (rule4 wan4) hs tt (λ e. none≢some (sym e ∙ own))))
                a,
            idle,
          );
      internal4 =
          ground (arith, b.internal4, off, apart, same_refl (place d.cfg (rule4 internal4)));
      wan4 = ground (arith, b.wan4, off, apart', same_refl (place d.cfg (rule4 wan4)));
      internal6 = b.internal6;
      elsewhere = λ k e.
          setup_ipv4_rules-other d k (e (rule4 internal4) tt) (e (rule4 wan4) tt) ∙ b.elsewhere k e;
    }

setup_ipv6_rules-IsBooked :
    (d : Daemon)
    → IsValid d.cfg
    → d.ipv6_rule_installed ≡ false
    → IsBooked d.cfg d
    → IsBooked d.cfg (setup_ipv6_rules d)
unfolding setup_ipv6_rules add_ipv6_policy_rule
setup_ipv6_rules-IsBooked d valid off b = record {
  config = b.config;
  uplink = λ i u at.
      let (a, idle) = b.uplink i u at in
      (
        IsAccounted-moved d.cfg u (view_of d u) (view_of (setup_ipv6_rules d) u)
            (own_index d.cfg valid i u at) refl
            (λ s hs own.
              setup_ipv6_rules-other d (place d.cfg s)
                (place_apart d.cfg valid s (rule6 internal6) hs tt (λ e. none≢some (sym e ∙ own))))
            a,
        idle,
      );
  internal4 = b.internal4;
  wan4 = b.wan4;
  internal6 = ground (arith, b.internal6, off, same_refl (place d.cfg (rule6 internal6)));
  elsewhere = λ k e. setup_ipv6_rules-other d k (e (rule6 internal6) tt) ∙ b.elsewhere k e;
}

lt_of_suc : {n m : ℕ} → suc n ≤ m → n < m
lt_of_suc h = omega arith

ne_of_gt : {n m : ℕ} → n < m → m ≢ n
ne_of_gt h e = omega arith

module _ (cfg : Config) (valid : IsValid cfg) (named : IsNamed cfg) where
  -- The invariant of the loop: the uplinks from position `n` have no rule of a macvlan yet.
  record IsFreshFrom (n : ℕ) (d : Daemon) : Type 0 where
    booked : IsBooked cfg d
    fresh :
        (i : ℕ) (u : UplinkConfig)
        → n ≤ i
        → get_elem? cfg.uplinks i ≡ some u
        → (d.installed u.name).macvlan_fwd ≡ []

  setup_macvlan_step :
      (n : ℕ) (u : UplinkConfig) (d : Daemon)
      → get_elem? cfg.uplinks n ≡ some u
      → IsFreshFrom n d
      → (d' : Daemon) × (on_uplink (setup_macvlan_rules cfg) u d ≡ some d') × IsFreshFrom (suc n) d'
  setup_macvlan_step n u d at f =
      let v = view_of d u in
      let (a, idle) = f.booked.uplink n u at in
      let (has, distinct) = named n u at in
      let lt = known cfg valid named n u at in
      let (w, e, (a', each)) =
        setup_macvlan_rules-IsAccounted cfg u lt has distinct v a (f.fresh n u (omega arith) at) in
      let l : IsLocal cfg u v w = record {
        accounted = a';
        idle = setup_macvlan_rules-IsIdle6 cfg u v w e idle;
        framed = λ k out.
            setup_macvlan_rules-IsFramed cfg u (own_index cfg valid n u at) lt has k out v w e;
      } in
      let (e', b') =
        on_uplink-IsBooked cfg valid (setup_macvlan_rules cfg) n u d w at e l f.booked in
      (
        put_view u w d,
        e',
        record {
          booked = b';
          fresh = λ i x le at'.
              let apart = valid.apart i n x u (ne_of_gt (lt_of_suc le)) at' at in
              ap (λ r. r.macvlan_fwd) (put_view-other d u x w apart.name)
              ∙ f.fresh i x (omega arith) at';
        },
      )

  setup_ipv6_macvlan_rules-IsBooked :
      (d : Daemon) → IsFreshFrom 0 d → ReturnsBooked cfg (setup_ipv6_macvlan_rules d)
  unfolding setup_ipv6_macvlan_rules
  setup_ipv6_macvlan_rules-IsBooked d f =
      let (d', e, f') =
        for_uplinks_all cfg.uplinks IsFreshFrom (on_uplink (setup_macvlan_rules cfg))
          setup_macvlan_step d f in
      (
        d',
        ap (λ c. for_uplinks (on_uplink (setup_macvlan_rules c)) c.uplinks d) f.booked.config ∙ e,
        f'.booked,
      )

  -- The policy rules, for the new configuration.
  set_up_policy-IsFreshFrom :
      (old : Config) (d : Daemon)
      → IsBare old d
      → IsFreshFrom 0 (setup_ipv6_rules (setup_ipv4_rules (renewed cfg d)))
  unfolding setup_ipv4_rules setup_ipv6_rules init_states
  set_up_policy-IsFreshFrom old d bare = record {
    booked = setup_ipv6_rules-IsBooked (setup_ipv4_rules (renewed cfg d)) valid bare.no_rule6 (
        setup_ipv4_rules-IsBooked (renewed cfg d) valid bare.no_rules4
          (renewed-IsBooked old cfg d bare));
    fresh = λ i u le at. refl;
  }

  -- From nothing, bringing a configuration up returns, and the account is right.
  pub bring_up-IsBooked :
      (files : Files) (now : ℤ) (old : Config) (d : Daemon)
      → IsBare old d
      → ReturnsBooked cfg (bring_up files now cfg d)
  unfolding bring_up
  bring_up-IsBooked files now old d bare =
      let (d', e', b') =
        setup_ipv6_macvlan_rules-IsBooked (setup_ipv6_rules (setup_ipv4_rules (renewed cfg d)))
          (set_up_policy-IsFreshFrom old d bare) in
      let (d'', e'', b'') = reconcile_all-IsBooked cfg valid named files now d' b' in
      (
        update_primaries d'',
        rw (e', e'') refl,
        IsQuiet-IsBooked cfg valid d'' (update_primaries d'') (update_primaries-IsQuiet d'') b'',
      )
