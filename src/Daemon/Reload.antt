-- ===== src/Daemon/Reload.antt =====
-- A reload, with what `load` makes of the file.
use uplinkmgr.Prelude.{◌≡◌, ◌⊎◌, false}
use uplinkmgr.Config.{Config}
use uplinkmgr.Config.Yaml.{Yaml, ok}
use uplinkmgr.Radvd.{Ipaddress}
use uplinkmgr.Daemon.Safe.{IsSafe}
use uplinkmgr.Daemon.Machine.{Daemon}
use uplinkmgr.Daemon.Handlers.{Env, Outcome, done}

-- The reload comes to its end in a safe state, with a loaded configuration or as it was.
pub record HasReloaded (env : Env) (d : Daemon) (o : Outcome) : Type 0 where
  pub after : Daemon
  pub ends : o ≡ done after
  pub safe : IsSafe after
  pub replaced : (env.loaded ≡ ok after.cfg) ⊎ ((after.cfg ≡ d.cfg) × (after.trace ≡ d.trace))

module _ (addresses : Ipaddress) (env : Env) (d : Daemon) (s : IsSafe d) where
  abbrev asked : Daemon
  asked = record d { reload_requested = false }
