-- ===== src/Uplink.antt =====
-- The routing of one uplink: `_UplinkRouting` of src/uplinkmgr/daemon.py, the methods that
-- reconcile it with the state files, and what is proved of them. The methods work on a `View`, the
-- entries of `_states` and `_installed` for the uplink and the trace. The state files and the clock
-- do not change while one method runs.
pub mod View
pub mod Ipv4
pub mod Ipv6
pub mod Macvlan
pub mod Reconcile
pub mod Ledger
pub mod Places
pub mod Apart
pub mod Accounts
pub mod MacvlanAccounts
pub mod Loops
pub mod Invariant
pub mod Startup
pub mod Teardown
pub mod Validated
pub mod Desired6
pub mod Held6
pub mod Desired
