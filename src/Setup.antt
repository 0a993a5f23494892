-- ===== src/Setup.antt =====
-- The program bin/uplinkmgr-setup, which writes the static configuration files and starts the
-- services. What it prints is left out.
pub mod Outcome
pub mod Tables
pub mod Conflicts
pub mod Files
pub mod Clean
pub mod Services
pub mod Total
pub mod Kept
pub mod Dry
pub mod Entries
pub mod Envs
pub mod Enabled
pub mod Ready
pub mod Plain
pub mod Lost
use uplinkmgr.Prelude.{map, Bool, if◌then◌else◌}
use uplinkmgr.Config.{Config}
use uplinkmgr.Config.Yaml.{Result}
use uplinkmgr.Naming.{Validation, valid, validate_macvlan_names}
use uplinkmgr.Generator.Disk.{Disk}
use uplinkmgr.Setup.Outcome.{
  Run, done, died, bad_names, from_result, ◌>>=◌, Outside, World, on_disk,
}
use uplinkmgr.Setup.Tables.{check_rt_conflicts}
use uplinkmgr.Setup.Files.{write_all}
use uplinkmgr.Setup.Clean.{remove_stale}
use uplinkmgr.Setup.Services.{enable_services}

abbrev or_die : Validation → Run (Unit {0})
or_die valid = done tt
or_die problem = died (bad_names problem)

-- `main` up to the writing: its two checks of the configuration.
unfoldable pub checks : Outside → (dry_run : Bool) → Config → Run (Unit {0})
unfolding validate_macvlan_names check_rt_conflicts
checks env dry_run cfg = or_die (validate_macvlan_names cfg) >>= λ _.
    if dry_run then done tt else check_rt_conflicts env cfg

-- The cleaning and the services, after the files are written.
unfoldable pub finish_setup : Outside → (dry_run : Bool) → Config → World → World
unfolding remove_stale enable_services
finish_setup env dry_run cfg w =
    let cleaned = on_disk (remove_stale (map (λ u. u.name) cfg.uplinks)) w in
    let w' = if dry_run then w else cleaned in
    if env.has_systemd then enable_services env cfg dry_run w' else w'

-- `main`, from what `load` of config.py gives.
unfoldable pub main : Outside → Result Config → (dry_run : Bool) → World → Run World
unfolding checks write_all finish_setup
main env loaded dry_run w = from_result loaded >>= λ cfg. checks env dry_run cfg >>= λ _.
    write_all cfg dry_run w.disk >>= λ disk.
    done (finish_setup env dry_run cfg (on_disk (λ _. disk) w))
