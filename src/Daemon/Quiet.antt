-- ===== src/Daemon/Quiet.antt =====
-- What runs no `ip` command keeps the account: events, the primary uplinks, and radvd.
use uplinkmgr.Prelude.{
  ℕ, suc, ◌≡◌, refl, sym, ap, ◌∙◌, subst, List, [], ◌∷◌, ◌++◌, Bool, Option, some, Text, Dict,
  get_elem?, ℤ, pos, arith, if◌then◌else◌,
}
use uplinkmgr.Config.{Config, NetworkConfig, UplinkConfig}
use uplinkmgr.Config.Loaded.{IsValid}
use uplinkmgr.StateMachine.{UplinkState}
use uplinkmgr.State.{Files, Ipv6RaState, Ipv6PdState, read_ipv6ra_state, read_ipv6pd_state}
use uplinkmgr.Naming.{macvlan_name, radvd_unit_name}
use uplinkmgr.Effect.{Trace}
use uplinkmgr.Generator.{macvlan_lines}
use uplinkmgr.Generator.Advert.{radvd_conf_from_state, radvd_interface_block, prefix_of}
use uplinkmgr.Radvd.{
  Ipaddress, RegenerateAction, restart, sighup, write, advert_of, derive_prefixes, signal,
  with_ipv6_pd, regenerate_one, regenerate_each, regenerate_all,
}
use uplinkmgr.Uplink.Ledger.{Place, held}
use uplinkmgr.Uplink.Places.{macvlan_at_lem}
use uplinkmgr.Uplink.Loops.{HasMacvlans}
use uplinkmgr.Daemon.{update_primary_uplinks, note_primary}
use uplinkmgr.Uplink.Invariant.{if_keeps}
use uplinkmgr.Daemon.Booked.{
  IsNamed, IsBooked, IsAccounted-moved, IsIdle6-moved, own_index, get_elem?-lt_length,
}
use uplinkmgr.Daemon.Rounds.{ReturnsBooked}
use uplinkmgr.Daemon.Machine.{Daemon, view_of, update_primaries, regenerate}

-- All that the account depends on is as before.
pub record IsQuiet (d d' : Daemon) : Type 0 where
  pub cfg : d'.cfg ≡ d.cfg
  pub installed : d'.installed ≡ d.installed
  pub rules4 : d'.ipv4_rules_installed ≡ d.ipv4_rules_installed
  pub rule6 : d'.ipv6_rule_installed ≡ d.ipv6_rule_installed
  pub held : (k : Place) → held k d'.trace ≡ held k d.trace

pub IsQuiet-IsBooked :
    (cfg : Config) → IsValid cfg → (d d' : Daemon) → IsQuiet d d' → IsBooked cfg d → IsBooked cfg d'
IsQuiet-IsBooked cfg valid d d' q b = record {
  config = q.cfg ∙ b.config;
  uplink = λ i u at.
      let (a, idle) = b.uplink i u at in
      let same = ap (λ f. f u.name) q.installed in
      (
        IsAccounted-moved cfg u (view_of d u) (view_of d' u) (own_index cfg valid i u at) same
            (λ s hs own. q.held _) a,
        IsIdle6-moved u (view_of d u) (view_of d' u) same idle,
      );
  internal4 = rw (q.held _, q.rules4) b.internal4;
  wan4 = rw (q.held _, q.rules4) b.wan4;
  internal6 = rw (q.held _, q.rule6) b.internal6;
  elsewhere = λ k e. q.held k ∙ b.elsewhere k e;
}

held-note_primary :
    (k : Place) (cfg : Config) (family : Text) (old : Option Text) (new : Option UplinkConfig)
    (trace : Trace)
    → held k (note_primary cfg family old new trace) ≡ held k trace
unfolding note_primary
held-note_primary k cfg family old new trace = ground arith

pub update_primaries-IsQuiet : (d : Daemon) → IsQuiet d (update_primaries d)
unfolding update_primaries update_primary_uplinks
update_primaries-IsQuiet d = record {
  cfg = refl;
  installed = refl;
  rules4 = refl;
  rule6 = refl;
  held = λ k. held-note_primary k d.cfg _ _ _ _ ∙ held-note_primary k d.cfg _ _ _ d.trace;
}

-- The names of the macvlans of one uplink.
macvlan_lines_return :
    (idx : ℕ) (block : ℕ → NetworkConfig → Text → List Text) (k : ℕ) (nets : List NetworkConfig)
    → ((i : ℕ) (net : NetworkConfig)
        → get_elem? nets i ≡ some net
        → (mv : Text) × (macvlan_name net.interface idx ≡ some mv))
    → (blocks : List Text) × (macvlan_lines idx block k nets ≡ some blocks)
unfolding macvlan_lines
macvlan_lines_return idx block k [] named = ([], refl)
macvlan_lines_return idx block k (net ∷ nets) named =
    let (mv, e) = named 0 net refl in
    let (blocks, e') = macvlan_lines_return idx block (suc k) nets (λ i n at. named (suc i) n at) in
    rw e (rw e' (block k net mv ++ blocks, refl))

-- Writing the files of radvd returns, and what the commands leave in place stays.
abbrev pub ReturnsHeld : Trace → Option Trace → Type 0
ReturnsHeld before o =
    (after : Trace) × (o ≡ some after) × ((k : Place) → held k after ≡ held k before)

module _ (addresses : Ipaddress) (cfg : Config) (states : Text → UplinkState) (now : ℤ) where
  names_of :
      (u : UplinkConfig)
      → HasMacvlans cfg u
      → (i : ℕ) (net : NetworkConfig) → get_elem? cfg.networks i ≡ some net
      → (mv : Text) × (macvlan_name net.interface u.index ≡ some mv)
  names_of u has i net at =
      let (mv, e) = has i (get_elem?-lt_length cfg.networks i at) in
      (mv, sym (macvlan_at_lem cfg u i at) ∙ e)

  pub radvd_conf_from_state_returns :
      (u : UplinkConfig)
      → HasMacvlans cfg u
      → (preference : Text) (default : ℤ) (prefixes : Dict Text) (valid preferred : ℤ)
        (is_down : Bool)
      → (conf : Text) × (radvd_conf_from_state cfg u preference default prefixes valid preferred
            is_down
          ≡ some conf)
  unfolding radvd_conf_from_state
  radvd_conf_from_state_returns u has preference default prefixes valid preferred is_down =
      let block = λ (n : ℕ) (net : NetworkConfig) (mv : Text).
        radvd_interface_block mv preference (if is_down then pos 0 else default)
          (prefix_of prefixes mv) (if is_down then pos 0 else valid)
          (if is_down then pos 0 else preferred) in
      let (blocks, e) = macvlan_lines_return u.index block 0 cfg.networks (names_of u has) in
      rw e (_, refl)

  held-signal :
      (k : Place) (action : RegenerateAction) (unit : Text) (trace : Trace)
      → held k (signal addresses action unit trace) ≡ held k trace
  held-signal k restart unit trace = refl
  held-signal k sighup unit trace = refl
  held-signal k write unit trace = refl

  regenerate_one-held :
      (u : UplinkConfig)
      → HasMacvlans cfg u
      → (ra : Option Ipv6RaState) (pd : Option Ipv6PdState) (action : RegenerateAction)
        (trace : Trace)
      → ReturnsHeld trace (regenerate_one addresses cfg states now ra pd action u trace)
  unfolding regenerate_one
  regenerate_one-held u has ra pd action trace =
      let a = advert_of cfg states now ra pd u in
      let (conf, e) =
        radvd_conf_from_state_returns u has a.preference a.default_lifetime
          (derive_prefixes addresses cfg u pd) a.valid_lifetime a.preferred_lifetime a.is_down in
      rw e (_, refl, λ k. held-signal k action (radvd_unit_name u.name) _)

  regenerate_each-held :
      (uplinks : List UplinkConfig)
      → ((i : ℕ) (u : UplinkConfig) → get_elem? uplinks i ≡ some u → HasMacvlans cfg u)
      → (ra_of : Text → Option Ipv6RaState) (pd_of : Text → Option Ipv6PdState)
        (action : RegenerateAction) (trace : Trace)
      → ReturnsHeld trace
          (regenerate_each addresses cfg states now ra_of pd_of action (with_ipv6_pd uplinks) trace)
  unfolding regenerate_each with_ipv6_pd
  regenerate_each-held [] named ra_of pd_of action trace = (trace, refl, λ k. refl)
  regenerate_each-held (u ∷ uplinks) named ra_of pd_of action trace =
      let later =
        λ (i : ℕ) (w : UplinkConfig) (at : get_elem? uplinks i ≡ some w). named (suc i) w at in
      let (t, e, h) =
        regenerate_one-held u (named 0 u refl) (ra_of u.name) (pd_of u.name) action trace in
      let (t', e', h') = regenerate_each-held uplinks later ra_of pd_of action t in
      if_keeps
        (λ us.
          ReturnsHeld trace (regenerate_each addresses cfg states now ra_of pd_of action us trace))
        u.ipv6_pd (rw e (t', e', λ k. h' k ∙ h k))
        (regenerate_each-held uplinks later ra_of pd_of action trace)

  pub regenerate_all-held :
      IsNamed cfg
      → (ra_of : Text → Option Ipv6RaState) (pd_of : Text → Option Ipv6PdState)
        (action : RegenerateAction) (trace : Trace)
      → ReturnsHeld trace (regenerate_all addresses cfg states now ra_of pd_of action trace)
  unfolding regenerate_all
  regenerate_all-held named ra_of pd_of action trace =
      regenerate_each-held cfg.uplinks (λ i u at. (named i u at).0) ra_of pd_of action trace

-- Writing the files of radvd for the daemon returns, and keeps the account.
pub regenerate-IsBooked :
    (cfg : Config)
    → IsValid cfg
    → IsNamed cfg
    → (addresses : Ipaddress) (files : Files) (now : ℤ) (action : RegenerateAction) (d : Daemon)
    → IsBooked cfg d
    → ReturnsBooked cfg (regenerate addresses files now action d)
unfolding regenerate
regenerate-IsBooked cfg valid named addresses files now action d b =
    let (t, e, h) =
      regenerate_all-held addresses d.cfg d.states now (subst IsNamed (sym b.config) named)
        (read_ipv6ra_state files) (read_ipv6pd_state files) action d.trace in
    let d' : Daemon = record d { trace = t } in
    let q : IsQuiet d d' = record {
      cfg = refl;
      installed = refl;
      rules4 = refl;
      rule6 = refl;
      held = h;
    } in
    rw e (d', refl, IsQuiet-IsBooked cfg valid d d' q b)
