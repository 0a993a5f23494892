-- ===== src/Setup/Dry.antt =====
-- A run of bin/uplinkmgr-setup with --dry-run.
use uplinkmgr.Prelude.{
  ◌≡◌, refl, ap, ◌∙◌, List, [], ◌∷◌, Bool-cases, inl, inr, true, not, Text, contains, map, arith,
}
use uplinkmgr.Config.{Config, NetworkConfig, UplinkConfig}
use uplinkmgr.Config.Yaml.{ok}
use uplinkmgr.Naming.{
  radvd_unit_name, dhcpcd_conf_head_path, dhcpcd_conf_tail_path, valid, validate_macvlan_names,
}
use uplinkmgr.Generator.Disk.{Disk, write_file, write_symlink}
use uplinkmgr.Hooks.{keep_if}
use uplinkmgr.Setup.Tables.{sorted}
use uplinkmgr.Setup.{checks, finish_setup, main}
use uplinkmgr.Setup.Outcome.{done, Outside, World}
use uplinkmgr.Setup.Files.{
  write_radvd, link_macvlans, write_env, write_envs, write_rest, write_dhcpcd, write_all,
  read_optional_file,
}
use uplinkmgr.Setup.Services.{
  call, systemctl, systemctl_add_wants, systemctl_remove_wants, systemctl_daemon_reload,
  list_radvd_units, disable_units, disable_stale_radvd_units, enable_radvd_units, start_radvd_units,
  enable_services,
}
use uplinkmgr.Setup.Total.{
  Named, AllNamed, validate_macvlan_names-AllNamed, interfaces_file-Returns, dhcpcd_conf-Returns,
  radvd_conf-Returns,
}

module _ (cfg : Config) where
  write_radvd-dry :
      (uplinks : List UplinkConfig) (disk : Disk)
      → AllNamed cfg.networks uplinks
      → write_radvd cfg true uplinks disk ≡ done disk
  unfolding write_radvd write_file
  write_radvd-dry [] disk all = refl
  write_radvd-dry (u ∷ uplinks) disk (mine, all) = elim (Bool-cases u.ipv6_pd) [
    | inl on ↦
        let (conf, e) = radvd_conf-Returns cfg u (mine on) in
        rw (on, e) (write_radvd-dry uplinks disk all)
    | inr off ↦ rw off (write_radvd-dry uplinks disk all)
  ]

link_macvlans-dry :
    (u : UplinkConfig) (nets : List NetworkConfig) (disk : Disk)
    → Named u.index nets
    → link_macvlans u true nets disk ≡ done disk
unfolding link_macvlans write_symlink
link_macvlans-dry u [] disk named = refl
link_macvlans-dry u (net ∷ nets) disk ((mv, e), rest) = rw e (link_macvlans-dry u nets disk rest)

write_envs-dry :
    (nets : List NetworkConfig) (uplinks : List UplinkConfig) (disk : Disk)
    → AllNamed nets uplinks
    → write_envs nets true uplinks disk ≡ done disk
unfolding write_envs write_env write_file write_symlink
write_envs-dry nets [] disk all = refl
write_envs-dry nets (u ∷ uplinks) disk (mine, all) = elim (Bool-cases u.ipv6_pd) [
  | inl on ↦ rw (on, link_macvlans-dry u nets disk (mine on)) (write_envs-dry nets uplinks disk all)
  | inr off ↦ rw off (write_envs-dry nets uplinks disk all)
]

write_all-dry :
    (cfg : Config) (disk : Disk)
    → AllNamed cfg.networks cfg.uplinks
    → write_all cfg true disk ≡ done disk
unfolding write_all write_dhcpcd write_rest write_file
write_all-dry cfg disk all =
    let (interfaces, e) = interfaces_file-Returns cfg all in
    let (conf, e') =
      dhcpcd_conf-Returns cfg all (read_optional_file disk dhcpcd_conf_head_path)
        (read_optional_file disk dhcpcd_conf_tail_path) in
    rw (e, e', write_radvd-dry cfg cfg.uplinks disk all)
      (write_envs-dry cfg.networks cfg.uplinks disk all)

enable_radvd_units-dry :
    (uplinks : List UplinkConfig) (w : World) → enable_radvd_units true uplinks w ≡ w
unfolding enable_radvd_units systemctl systemctl_add_wants call
enable_radvd_units-dry [] w = refl
enable_radvd_units-dry (u ∷ uplinks) w = enable_radvd_units-dry uplinks w

start_radvd_units-dry :
    (uplinks : List UplinkConfig) (w : World) → start_radvd_units true uplinks w ≡ w
unfolding start_radvd_units systemctl call
start_radvd_units-dry [] w = refl
start_radvd_units-dry (u ∷ uplinks) w = start_radvd_units-dry uplinks w

disable_units-dry : (units : List Text) (w : World) → disable_units true units w ≡ w
unfolding disable_units systemctl systemctl_remove_wants call
disable_units-dry [] w = refl
disable_units-dry (unit ∷ units) w = disable_units-dry units w

disable_stale_radvd_units-dry :
    (env : Outside) (cfg : Config) (w : World) → disable_stale_radvd_units env cfg true w ≡ w
unfolding disable_stale_radvd_units
disable_stale_radvd_units-dry env cfg w =
    let current_units = map (λ (u : UplinkConfig). radvd_unit_name u.name) cfg.uplinks in
    let stale = keep_if (λ unit. not (contains unit current_units)) (list_radvd_units env w) in
    disable_units-dry (sorted stale) w

enable_services-dry :
    (env : Outside) (cfg : Config) (w : World) → enable_services env cfg true w ≡ w
unfolding enable_services systemctl systemctl_daemon_reload call
enable_services-dry env cfg w =
    let enabled = enable_radvd_units true cfg.uplinks w in
    let started = start_radvd_units true cfg.uplinks enabled in
    disable_stale_radvd_units-dry env cfg started
    ∙ start_radvd_units-dry cfg.uplinks enabled
    ∙ enable_radvd_units-dry cfg.uplinks w

-- With --dry-run, a configuration that is loaded and whose macvlan names pass the validation brings
-- the program to its end, with every file and link as it was, and without a call of systemctl that
-- changes something.
pub main-dry :
    (env : Outside) (cfg : Config) (w : World)
    → validate_macvlan_names cfg ≡ valid
    → main env (ok cfg) true w ≡ done w
unfolding main checks finish_setup
main-dry env cfg w h =
    let all = validate_macvlan_names-AllNamed cfg h in
    rw (h, write_all-dry cfg w.disk all) (ap done (ground (arith, enable_services-dry env cfg w)))
