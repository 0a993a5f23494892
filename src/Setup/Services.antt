-- ===== src/Setup/Services.antt =====
-- The calls of systemctl of bin/uplinkmgr-setup.
use uplinkmgr.Prelude.{
  List, [], ◌∷◌, ◌++◌, map, Bool, not, Text, text, delete, add, contains, if◌then◌else◌,
}
use uplinkmgr.State.{split_lines}
use uplinkmgr.Hooks.{keep_if}
use uplinkmgr.Config.{Config, UplinkConfig}
use uplinkmgr.Naming.{radvd_unit_name}
use uplinkmgr.Setup.Outcome.{Outside, World, on_disk}
use uplinkmgr.Setup.Tables.{split, sorted}

-- One call of systemctl; one that fails is only reported.
unfoldable pub call : List Text → (dry_run : Bool) → World → World
call argv dry_run w = if dry_run then w else record w { calls = argv ∷ w.calls }

unfoldable pub systemctl : (action unit : Text) → (dry_run : Bool) → World → World
unfolding call
systemctl action unit = call (text "systemctl" ∷ action ∷ unit ∷ [])

unfoldable pub systemctl_add_wants : (target unit : Text) → (dry_run : Bool) → World → World
unfolding call
systemctl_add_wants target unit = call (text "systemctl" ∷ text "add-wants" ∷ target ∷ unit ∷ [])

unfoldable pub systemctl_remove_wants : (target unit : Text) → (dry_run : Bool) → World → World
systemctl_remove_wants target unit dry_run w =
    let path = text "/etc/systemd/system/" ++ target ++ text ".wants/" ++ unit in
    if dry_run then w else on_disk (delete path) w

unfoldable pub systemctl_daemon_reload : (dry_run : Bool) → World → World
unfolding call
systemctl_daemon_reload = call (text "systemctl" ∷ text "daemon-reload" ∷ [])

-- The first word of each line that has one.
unfoldable pub first_words : List Text → List Text
unfolding split
first_words [] = []
first_words (line ∷ lines) = elim (split line) [
  | [] ↦ first_words lines
  | word ∷ words ↦ add word (first_words lines)
]

unfoldable pub list_radvd_units : Outside → World → List Text
unfolding first_words split_lines
list_radvd_units env w = first_words (split_lines (env.list_units w.calls))

abbrev pub daemon_unit : Text
daemon_unit = text "uplinkmgr.service"

abbrev pub dhcpcd_unit : Text
dhcpcd_unit = text "dhcpcd-uplinkmgr.service"

unfoldable pub disable_units : (dry_run : Bool) → List Text → World → World
unfolding systemctl systemctl_remove_wants
disable_units dry_run [] w = w
disable_units dry_run (unit ∷ units) w = disable_units dry_run units (
    systemctl_remove_wants daemon_unit unit dry_run
      (systemctl (text "disable") unit dry_run (systemctl (text "stop") unit dry_run w)))

unfoldable pub disable_stale_radvd_units : Outside → Config → (dry_run : Bool) → World → World
unfolding radvd_unit_name list_radvd_units sorted keep_if disable_units
disable_stale_radvd_units env cfg dry_run w =
    let current_units = map (λ u. radvd_unit_name u.name) cfg.uplinks in
    let stale = keep_if (λ unit. not (contains unit current_units)) (list_radvd_units env w) in
    disable_units dry_run (sorted stale) w

unfoldable pub enable_radvd_units : (dry_run : Bool) → List UplinkConfig → World → World
unfolding radvd_unit_name systemctl systemctl_add_wants
enable_radvd_units dry_run [] w = w
enable_radvd_units dry_run (uplink ∷ uplinks) w =
    let unit = radvd_unit_name uplink.name in
    enable_radvd_units dry_run uplinks
      (systemctl_add_wants daemon_unit unit dry_run (systemctl (text "enable") unit dry_run w))

unfoldable pub start_radvd_units : (dry_run : Bool) → List UplinkConfig → World → World
unfolding radvd_unit_name systemctl
start_radvd_units dry_run [] w = w
start_radvd_units dry_run (uplink ∷ uplinks) w =
    start_radvd_units dry_run uplinks
      (systemctl (text "start") (radvd_unit_name uplink.name) dry_run w)

-- The part of `main` under systemd.
unfoldable pub enable_services : Outside → Config → (dry_run : Bool) → World → World
unfolding enable_radvd_units start_radvd_units systemctl disable_stale_radvd_units
    systemctl_daemon_reload
enable_services env cfg dry_run w0 =
    let w1 = enable_radvd_units dry_run cfg.uplinks w0 in
    let w2 = systemctl (text "enable") dhcpcd_unit dry_run w1 in
    let w3 = systemctl (text "restart") dhcpcd_unit dry_run w2 in
    let w4 = start_radvd_units dry_run cfg.uplinks w3 in
    let w5 = systemctl (text "enable") daemon_unit dry_run w4 in
    let w6 = systemctl (text "restart") daemon_unit dry_run w5 in
    systemctl_daemon_reload dry_run (disable_stale_radvd_units env cfg dry_run w6)
