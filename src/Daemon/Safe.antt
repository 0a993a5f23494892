-- ===== src/Daemon/Safe.antt =====
-- The handlers keep the account, and never fail in the middle of a loop.
use uplinkmgr.Prelude.{◌≡◌, refl, sym, subst, Bool, true, false, Option, none, some, Text, text}
use uplinkmgr.Config.{Config}
use uplinkmgr.Config.Yaml.{Result, ok, err, die, value_error, type_error, ill_typed}
use uplinkmgr.Config.Loaded.{IsValid}
use uplinkmgr.State.{◌>>=◌}
use uplinkmgr.Radvd.{Ipaddress, RegenerateAction, sighup, write}
use uplinkmgr.Uplink.Invariant.{if_keeps}
use uplinkmgr.Daemon.Booked.{IsNamed, IsBooked}
use uplinkmgr.Daemon.Rounds.{ReturnsBooked, reconcile_all-IsBooked}
use uplinkmgr.Daemon.Stop.{teardown_all-IsBare}
use uplinkmgr.Daemon.Start.{bring_up-IsBooked}
use uplinkmgr.Daemon.Quiet.{
  IsQuiet, IsQuiet-IsBooked, update_primaries-IsQuiet, regenerate-IsBooked,
}
use uplinkmgr.Daemon.Machine.{Daemon, update_primaries, fire_plain, regenerate}
use uplinkmgr.Daemon.Handlers.{
  Env, Outcome, done, raised, lost, ◌>>>◌, outcome, reload_with, reload_from, do_radvd_sighup,
  do_reconcile, signals_radvd, when,
}

-- The configuration is valid, with macvlan names, and the account is right.
pub record IsSafe (d : Daemon) : Type 0 where
  pub valid : IsValid d.cfg
  pub named : IsNamed d.cfg
  pub booked : IsBooked d.cfg d

-- The handler ends, by itself or with an exception, in a safe state.
abbrev pub EndsSafe : Outcome → Type 0
EndsSafe (done d) = IsSafe d
EndsSafe (raised d) = IsSafe d
EndsSafe lost = ⊥

-- What loading gives, if it gives a configuration, is valid, with macvlan names; a configuration
-- with a host that is no text is left out.
abbrev pub IsSoundLoad : Result Config → Type 0
IsSoundLoad (ok cfg) = IsValid cfg × IsNamed cfg
IsSoundLoad (err ill_typed) = ⊥
IsSoundLoad (err _) = Unit

abbrev pub ReturnsSafe : Option Daemon → Type 0
ReturnsSafe o = (d' : Daemon) × (o ≡ some d') × IsSafe d'

-- The call returns, with the new configuration.
abbrev pub ReturnsReloaded : Config → Option Daemon → Type 0
ReturnsReloaded cfg o = (d' : Daemon) × (o ≡ some d') × IsSafe d' × (d'.cfg ≡ cfg)

pub IsSafe-of :
    (cfg : Config) → IsValid cfg → IsNamed cfg → (d : Daemon) → IsBooked cfg d → IsSafe d
IsSafe-of cfg valid named d b = record {
  valid = subst IsValid (sym b.config) valid;
  named = subst IsNamed (sym b.config) named;
  booked = subst (λ c. IsBooked c d) (sym b.config) b;
}

pub IsQuiet-IsSafe : (d d' : Daemon) → IsQuiet d d' → IsSafe d → IsSafe d'
IsQuiet-IsSafe d d' q s =
    IsSafe-of d.cfg s.valid s.named d' (IsQuiet-IsBooked d.cfg s.valid d d' q s.booked)

-- The fields that the account does not depend on, from another daemon.
abbrev others : Daemon → Daemon → Daemon
others d d' = record d' {
  cfg = d.cfg;
  installed = d.installed;
  ipv4_rules_installed = d.ipv4_rules_installed;
  ipv6_rule_installed = d.ipv6_rule_installed;
  trace = d.trace;
}

pub others-IsQuiet : (d d' : Daemon) → IsQuiet d (others d d')
others-IsQuiet d d' = record {
  cfg = refl;
  installed = refl;
  rules4 = refl;
  rule6 = refl;
  held = λ k. refl;
}

pub fire_plain-IsQuiet : (event : Text) (d : Daemon) → IsQuiet d (fire_plain event d)
fire_plain-IsQuiet event d = record {
  cfg = refl;
  installed = refl;
  rules4 = refl;
  rule6 = refl;
  held = λ k. refl;
}

safe_of_booked : (d : Daemon) (o : Option Daemon) → IsSafe d → ReturnsBooked d.cfg o → ReturnsSafe o
safe_of_booked d o s (d', e, b) = (d', e, IsSafe-of d.cfg s.valid s.named d' b)

pub outcome-EndsSafe : (o : Option Daemon) → ReturnsSafe o → EndsSafe (outcome o)
outcome-EndsSafe o (d', e, s) = subst (λ x. EndsSafe (outcome x)) (sym e) s

pub >>>-EndsSafe :
    (o : Outcome) (f : Daemon → Outcome)
    → EndsSafe o
    → ((d : Daemon) → IsSafe d → EndsSafe (f d))
    → EndsSafe (o >>> f)
>>>-EndsSafe (done d) f s next = next d s
>>>-EndsSafe (raised d) f s next = s
>>>-EndsSafe lost f s next = s

pub when-EndsSafe :
    (b : Bool) (f : Daemon → Outcome) (d : Daemon)
    → ((x : Daemon) → IsSafe x → EndsSafe (f x))
    → IsSafe d
    → EndsSafe (when b f d)
when-EndsSafe true f d step s = step d s
when-EndsSafe false f d step s = s

module _ (addresses : Ipaddress) (env : Env) where
  pub reload_with-IsSafe :
      (cfg : Config)
      → IsValid cfg
      → IsNamed cfg
      → (d : Daemon) → IsSafe d
      → ReturnsReloaded cfg (reload_with addresses env cfg d)
  unfolding reload_with
  reload_with-IsSafe cfg valid named d s =
      let (torn, e, bare) = teardown_all-IsBare d.cfg s.valid s.named d s.booked in
      let (d', e', b') = bring_up-IsBooked cfg valid named env.files env.now d.cfg torn bare in
      let d'' : Daemon = fire_plain (text "reload") (record d' { last_probe = none }) in
      let fired : Daemon = record d'' { last_probe = d'.last_probe } in
      (
        d'',
        rw (e, e') refl,
        IsQuiet-IsSafe fired d'' (others-IsQuiet fired d'') (
            IsQuiet-IsSafe d' fired (fire_plain-IsQuiet (text "reload") d')
              (IsSafe-of cfg valid named d' b')),
        b'.config,
      )

  pub reload_from-EndsSafe :
      (r : Result Config) (d : Daemon)
      → IsSoundLoad r
      → IsSafe d
      → EndsSafe (reload_from addresses env r d)
  unfolding reload_from
  reload_from-EndsSafe (ok cfg) d sound s =
      let (d', e, s', new) = reload_with-IsSafe cfg sound.0 sound.1 d s in
      outcome-EndsSafe (reload_with addresses env cfg d) (d', e, s')
  reload_from-EndsSafe (err (die c)) d sound s = s
  reload_from-EndsSafe (err value_error) d sound s = s
  reload_from-EndsSafe (err type_error) d sound s = s
  reload_from-EndsSafe (err ill_typed) d sound s = sound

  -- After a write of the files of radvd.
  regenerate-IsSafe :
      (action : RegenerateAction) (d : Daemon)
      → IsSafe d
      → ReturnsSafe (regenerate addresses env.files env.now action d)
  regenerate-IsSafe action d s =
      safe_of_booked d _ s
        (regenerate-IsBooked d.cfg s.valid s.named addresses env.files env.now action d s.booked)

  signalled :
      (d : Daemon)
      → IsSafe d
      → ReturnsSafe (
          regenerate addresses env.files env.now sighup d >>= λ d'.
          some (record d' { last_radvd_sighup = env.mono }))
  signalled d s =
      let (d', e, s') = regenerate-IsSafe sighup d s in
      let d'' : Daemon = record d' { last_radvd_sighup = env.mono } in
      (d'', rw e refl, IsQuiet-IsSafe d' d'' (others-IsQuiet d' d'') s')

  pub do_radvd_sighup-IsSafe :
      (d : Daemon) → IsSafe d → ReturnsSafe (do_radvd_sighup addresses env d)
  unfolding do_radvd_sighup
  do_radvd_sighup-IsSafe d s =
      let asked : Daemon = record d { radvd_sighup_requested = false } in
      signalled asked (IsQuiet-IsSafe d asked (others-IsQuiet d asked) s)

  pub do_reconcile-IsSafe : (d : Daemon) → IsSafe d → ReturnsSafe (do_reconcile addresses env d)
  unfolding do_reconcile
  do_reconcile-IsSafe d s =
      let asked : Daemon = record d { reconcile_requested = false } in
      let s' = IsQuiet-IsSafe d asked (others-IsQuiet d asked) s in
      let (d', e, t) =
        safe_of_booked asked _ s'
          (reconcile_all-IsBooked asked.cfg s'.valid s'.named env.files env.now asked s'.booked) in
      let t' = IsQuiet-IsSafe d' (update_primaries d') (update_primaries-IsQuiet d') t in
      rw e (
        if_keeps ReturnsSafe (signals_radvd addresses env (update_primaries d'))
          (signalled (update_primaries d') t') (regenerate-IsSafe write (update_primaries d') t'))
