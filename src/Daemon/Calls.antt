-- ===== src/Daemon/Calls.antt =====
-- Calls that leave the clock of the probes alone.
use uplinkmgr.Prelude.{◌≡◌, refl, ◌∙◌, List, [], ◌∷◌, Option, none, some, ℤ}
use uplinkmgr.Config.{UplinkConfig}
use uplinkmgr.State.{Files, ◌>>=◌}
use uplinkmgr.Uplink.View.{View}
use uplinkmgr.Uplink.Reconcile.{reconcile_uplink_ipv6}
use uplinkmgr.Daemon.Machine.{
  Daemon, view_of, put_view, on_uplink, for_uplinks, reconcile_one4, reconcile_one6, reconcile_all,
  update_primaries,
}

-- The configuration, the time of the last cycle, and the flags for a reload and for the loop stay.
pub record IsSteady (d d' : Daemon) : Type 0 where
  pub cfg : d'.cfg ≡ d.cfg
  pub last_probe : d'.last_probe ≡ d.last_probe
  pub reload_requested : d'.reload_requested ≡ d.reload_requested
  pub running : d'.running ≡ d.running

pub IsSteady-refl : (d : Daemon) → IsSteady d d
IsSteady-refl d = record { cfg = refl; last_probe = refl; reload_requested = refl; running = refl }

pub IsSteady-trans : (a b c : Daemon) → IsSteady a b → IsSteady b c → IsSteady a c
IsSteady-trans a b c s t = record {
  cfg = t.cfg ∙ s.cfg;
  last_probe = t.last_probe ∙ s.last_probe;
  reload_requested = t.reload_requested ∙ s.reload_requested;
  running = t.running ∙ s.running;
}

-- The fields that matter here, from another daemon.
abbrev like : Daemon → Daemon → Daemon
like d d' = record d' {
  cfg = d.cfg;
  last_probe = d.last_probe;
  reload_requested = d.reload_requested;
  running = d.running;
}

pub like-IsSteady : (d d' : Daemon) → IsSteady d (like d d')
like-IsSteady d d' = record {
  cfg = refl;
  last_probe = refl;
  reload_requested = refl;
  running = refl;
}

-- A call that returns leaves them alone.
abbrev pub Steady : Daemon → Option Daemon → Type 0
Steady d none = Unit
Steady d (some d') = IsSteady d d'

-- After a step that is steady in any case.
pub Steady-after : (d x : Daemon) (o : Option Daemon) → IsSteady d x → Steady x o → Steady d o
Steady-after d x none s t = tt
Steady-after d x (some y) s t = IsSteady-trans d x y s t

pub >>=-Steady :
    (d : Daemon) (o : Option Daemon) (f : Daemon → Option Daemon)
    → Steady d o
    → ((x : Daemon) → Steady x (f x))
    → Steady d (o >>= f)
>>=-Steady d none f s next = tt
>>=-Steady d (some x) f s next = Steady-after d x (f x) s (next x)

-- Where only the last call touches the daemon.
pub bind-Steady :
    {A : Type 0} (d : Daemon) (o : Option A) (f : A → Option Daemon)
    → ((a : A) → Steady d (f a))
    → Steady d (o >>= f)
bind-Steady d none f next = tt
bind-Steady d (some a) f next = next a

on_uplink-Steady :
    (op : UplinkConfig → View → Option View) (u : UplinkConfig) (d : Daemon)
    → Steady d (on_uplink op u d)
on_uplink-Steady op u d =
    bind-Steady d (op u (view_of d u)) (λ v. some (put_view u v d))
      (λ v. like-IsSteady d (put_view u v d))

for_uplinks-Steady :
    (body : UplinkConfig → Daemon → Option Daemon)
    → ((u : UplinkConfig) (d : Daemon) → Steady d (body u d))
    → (uplinks : List UplinkConfig) (d : Daemon) → Steady d (for_uplinks body uplinks d)
unfolding for_uplinks
for_uplinks-Steady body keeps [] d = IsSteady-refl d
for_uplinks-Steady body keeps (u ∷ uplinks) d =
    >>=-Steady d (body u d) _ (keeps u d) (for_uplinks-Steady body keeps uplinks)

pub reconcile_one4-IsSteady :
    (files : Files) (u : UplinkConfig) (d : Daemon) → IsSteady d (reconcile_one4 files u d)
unfolding reconcile_one4
reconcile_one4-IsSteady files u d = like-IsSteady d (reconcile_one4 files u d)

pub reconcile_one6-Steady :
    (files : Files) (now : ℤ) (u : UplinkConfig) (d : Daemon)
    → Steady d (reconcile_one6 files now u d)
unfolding reconcile_one6
reconcile_one6-Steady files now u d =
    on_uplink-Steady (λ w. reconcile_uplink_ipv6 d.cfg files w now) u d

pub reconcile_all-Steady :
    (files : Files) (now : ℤ) (d : Daemon) → Steady d (reconcile_all files now d)
unfolding reconcile_all
reconcile_all-Steady files now d =
    for_uplinks-Steady _
      (λ u x.
        let x' = reconcile_one4 files u x in
        Steady-after x x' (reconcile_one6 files now u x') (reconcile_one4-IsSteady files u x)
          (reconcile_one6-Steady files now u x'))
      d.cfg.uplinks d

pub update_primaries-IsSteady : (d : Daemon) → IsSteady d (update_primaries d)
unfolding update_primaries
update_primaries-IsSteady d = like-IsSteady d (update_primaries d)
