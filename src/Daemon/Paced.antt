-- ===== src/Daemon/Paced.antt =====
-- The pace of the probes: a cycle of probes waits for the interval of the configuration, however many
-- signals come.
use uplinkmgr.Daemon.Machine.{Daemon}
