-- ===== src/Effect.antt =====
-- What the daemon does to the world outside: the calls of routing.py, of the `HookRunner`, and the
-- file writes and signals of radvd.py, and the call of dhcpcd, in one trace. The newest effect stands first.
use uplinkmgr.Prelude.{List, Option, Text}
use uplinkmgr.Routing.{Command}

-- The arguments of one `fire`. The values that are numbers stand as the texts that `_build_env`
-- makes of them; `none` is None.
pub record Event : Type 0 where
  pub event : Text
  pub uplink : Text
  pub env_extra : List (Text × Option Text)

pub data Effect : Type 0 where
  ip : Command → Effect
  fire : Event → Effect
  write_file : (path content : Text) → Effect
  systemctl dhcpcd : (argv : List Text) → Effect
  stop_hooks : Effect  -- HookRunner.shutdown

abbrev pub Trace : Type 0
Trace = List Effect
