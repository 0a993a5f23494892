-- ===== src/Setup/Enabled.antt =====
-- Enabling the services leaves the environment files alone.
use uplinkmgr.Prelude.{
  ◌∙◌, List, [], ◌∷◌, map, Bool-cases, inl, inr, false, not, Text, text, ◌==◌, contains,
  lookup-delete,
}
use uplinkmgr.Config.{Config, UplinkConfig}
use uplinkmgr.Hooks.{keep_if}
use uplinkmgr.Naming.{env_file_path, radvd_unit_name}
use uplinkmgr.Generator.Disk.{Node}
use uplinkmgr.Setup.{finish_setup}
use uplinkmgr.Setup.Outcome.{Outside, World}
use uplinkmgr.Setup.Tables.{sorted}
use uplinkmgr.Setup.Clean.{remove_stale}
use uplinkmgr.Setup.Services.{
  call, systemctl, systemctl_add_wants, systemctl_remove_wants, systemctl_daemon_reload,
  list_radvd_units, disable_units, disable_stale_radvd_units, enable_radvd_units, start_radvd_units,
  enable_services,
}
use uplinkmgr.Setup.Kept.{Stands}

module _ (n : Text) (node : Node) where
  disable_units-Stands :
      (units : List Text) (w : World)
      → Stands n node w.disk
      → Stands n node (disable_units false units w).disk
  unfolding disable_units systemctl systemctl_remove_wants call env_file_path text ◌==◌
  disable_units-Stands [] w s = s
  disable_units-Stands (unit ∷ units) w s =
      disable_units-Stands units _ (lookup-delete _ (env_file_path n) w.disk ∙ s)

  enable_radvd_units-Stands :
      (uplinks : List UplinkConfig) (w : World)
      → Stands n node w.disk
      → Stands n node (enable_radvd_units false uplinks w).disk
  unfolding enable_radvd_units systemctl systemctl_add_wants call
  enable_radvd_units-Stands [] w s = s
  enable_radvd_units-Stands (u ∷ uplinks) w s = enable_radvd_units-Stands uplinks _ s

  start_radvd_units-Stands :
      (uplinks : List UplinkConfig) (w : World)
      → Stands n node w.disk
      → Stands n node (start_radvd_units false uplinks w).disk
  unfolding start_radvd_units systemctl call
  start_radvd_units-Stands [] w s = s
  start_radvd_units-Stands (u ∷ uplinks) w s = start_radvd_units-Stands uplinks _ s

  disable_stale_radvd_units-Stands :
      (env : Outside) (cfg : Config) (w : World)
      → Stands n node w.disk
      → Stands n node (disable_stale_radvd_units env cfg false w).disk
  unfolding disable_stale_radvd_units
  disable_stale_radvd_units-Stands env cfg w s =
      let current_units = map (λ (u : UplinkConfig). radvd_unit_name u.name) cfg.uplinks in
      let stale = keep_if (λ unit. not (contains unit current_units)) (list_radvd_units env w) in
      disable_units-Stands (sorted stale) w s

  enable_services-Stands :
      (env : Outside) (cfg : Config) (w : World)
      → Stands n node w.disk
      → Stands n node (enable_services env cfg false w).disk
  unfolding enable_services systemctl systemctl_daemon_reload call
  enable_services-Stands env cfg w s =
      disable_stale_radvd_units-Stands env cfg _
        (start_radvd_units-Stands cfg.uplinks _ (enable_radvd_units-Stands cfg.uplinks w s))

  pub finish_setup-Stands :
      (env : Outside) (cfg : Config) (w : World)
      → Stands n node (remove_stale (map (λ u. u.name) cfg.uplinks) w.disk)
      → Stands n node (finish_setup env false cfg w).disk
  unfolding finish_setup
  finish_setup-Stands env cfg w s = elim (Bool-cases env.has_systemd) [
    | inl on ↦ rw on (enable_services-Stands env cfg _ s)
    | inr off ↦ rw off s
  ]
