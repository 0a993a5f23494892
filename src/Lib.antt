-- ===== src/Lib.antt =====
-- Verification library for uplinkmgr, a daemon that routes a network over several uplinks
-- (Python, under src/uplinkmgr/).
--
-- The program. `config.py` loads the configuration. The hook scripts of dhcpcd write state
-- files, which `state.py` reads. `monitor.py` probes each uplink, `statemachine.py` debounces
-- the results, and `daemon.py` reconciles routes and rules with health and state files, through
-- the `ip` commands of `routing.py` at the priorities of `priority.py` and with the names of
-- `naming.py`. `radvd.py` and `generator.py` write configuration files, and `hooks.py` runs the
-- administrator's scripts. The program `bin/uplinkmgr-setup` writes the static configuration and
-- starts the services.
--
-- The files. `Config` has the dataclasses of config.py, and its children the loading of them:
-- `Yaml` the values that `yaml.safe_load` gives, with Python's conversions of them, `Names` the
-- two patterns, and `Load` the function `load`, from what reading the file gives (a `Source`) to
-- a `Result`, whose `err` is a message of `_die` or an exception. `StateMachine` is
-- statemachine.py; its `link_of` and `with_link` are the `getattr` and `setattr` of one family.
-- `Priority`, `Naming` and `State` are the modules of these names; `State/Strings` has the
-- methods of `str` that state.py uses, `State/Numbers`, `State/Printed` and `State/Handover` have
-- the lines that the printf of the hook script writes, and `State/Atomic` is `write_atomic`.
-- `Routing` is routing.py: a `Command` is one call of `_run` or `_run_del`, and `argv` is the
-- list of its words. `Effect` is the trace of what the daemon does to the outside, the newest
-- effect first. `Uplink` is the part of daemon.py that concerns one uplink: `View` holds its
-- entries of `_states` and `_installed` and the trace, `Ipv4`, `Ipv6` and `Macvlan` the stages
-- of the methods, and `Reconcile` the methods `_reconcile_uplink_ipv4`, `_reconcile_uplink_ipv6`
-- and the loop body of `_teardown_all`. `Uplink/Ledger` is not code: it counts what a trace of
-- commands leaves in place, and `Uplink/Places` lists the places of one uplink. `Daemon` is the
-- part of daemon.py that compares the uplinks: the primary ones, and the least router lifetime;
-- `Daemon/Machine` has the state of the daemon and what it does to all uplinks, and
-- `Daemon/Handlers` the handlers of the signals, the cycle of the probes, one round of `_loop`
-- (`iterate`), `run` up to the loop (`boot`) and `_cleanup`; `lifetime` is the whole of `run`,
-- with the signals and rounds as a list. `Daemon/Sleep` is `_sleep`, and `Daemon/Process` the
-- files and questions for other processes. The rest of `Daemon` is proofs, and `probe_cycles`
-- in `Daemon/Paced`, which counts the cycles of probes of a run: `Slots` has all places of a
-- configuration, `Keys` has what the kernel tells them apart by, `Frame` and `Frames` say that the methods of one uplink leave other places
-- alone, `Booked` is the account of the whole daemon. `Monitor` is monitor.py, where `Ping`
-- answers each ping, by its number in the probe and its words, and `Hooks` is hooks.py, with
-- the processes of one event in `Hooks/Run` and the queue of `HookRunner` in `Hooks/Queue`,
-- where the calls and the turns of the worker thread are a list of steps; `Hooks/Fifo` has the
-- queue that they amount to, `Hooks/Delivered` follows the events from `fire` to the scripts,
-- `Hooks/Candidates` and `Hooks/Stems` describe which entries of a directory are scripts and
-- what their names are compared by, and `Daemon/Announced` has the end of a daemon's life as its
-- hooks see it: that `Daemon/Handlers` shuts the runner down nowhere but in `cleanup` is read
-- from the definitions, and the runner with its queue is not part of the `Daemon` record. `Generator` has
-- the texts of generator.py, with those for radvd in `Generator/Advert` and the removal of the
-- files of uplinks that are gone in `Generator/Stale` and the writing to a disk in
-- `Generator/Disk`, and `Radvd` is radvd.py: `advert_of` computes the arguments of
-- `radvd_conf_from_state`, and `derive_prefixes` is `_derive_prefixes` over a record
-- `Ipaddress` that stands for the module of that name; `Radvd/Files` and `Radvd/Shown` are
-- about the files of radvd and what their text shows. In `Radvd` and `Daemon`, `_states` is a
-- function of the name, since every uplink has an entry. `Setup` is bin/uplinkmgr-setup:
-- `Tables` has `check_rt_conflicts`, `Files` the writing, `Clean` the function
-- `_remove_stale`, `Services` the calls of systemctl; its other children are proofs. `Procrun`
-- is procrun.py. `Tests` has concrete inputs. `yaml.safe_load` is a parameter, and so is
-- `repr` of a list or mapping.
--
-- Conventions. Python's `int` is ℤ; positions in lists and counters are natural numbers. Text is
-- the list of its code points. An uncaught exception of the reconciling methods (the ValueError
-- of `macvlan_name`) is `none`. The state files and the clock do not change while one method
-- runs, and enter it as arguments; monotonic times are in nanoseconds. Nor do they change while
-- one round of the loop runs; a signal changes the state between the handlers only. A command
-- that fails is only logged by the program, so commands have no result; the ledger counts those
-- that were run. Decimal texts are made with as much fuel as the number itself, one unit for
-- each digit, which is enough.
--
-- Not modelled: logging and printing, the parsing of arguments (so nothing of bin/uplinkmgr),
-- the process calls of routing.py themselves, the threads that probe, the join of the hook
-- thread with a timeout, directories and the errors of writing in generator.py, and digits
-- outside 0 to 9 in `int` of a text.
pub mod Prelude
pub mod StateMachine
pub mod Config
pub mod State
pub mod Setup
pub mod Procrun
pub mod Naming
pub mod Priority
pub mod Monitor
pub mod Routing
pub mod Effect
pub mod Hooks
pub mod Uplink
pub mod Tests
pub mod Generator
pub mod Radvd
pub mod Daemon
