-- ===== src/Setup/Files.antt =====
-- The files that `main` of bin/uplinkmgr-setup writes.
use uplinkmgr.Prelude.{List, [], ◌∷◌, ◌++◌, Bool, none, some, Text, text, if◌then◌else◌}
use uplinkmgr.Config.{Config, NetworkConfig, UplinkConfig}
use uplinkmgr.Naming.{
  macvlan_name, dhcpcd_conf_path, dhcpcd_conf_head_path, dhcpcd_conf_tail_path, radvd_conf_path,
  env_file_path, env_symlink_path,
}
use uplinkmgr.Generator.{interfaces_file, dhcpcd_conf, rt_tables, env_file}
use uplinkmgr.Generator.Advert.{radvd_conf}
use uplinkmgr.Generator.Disk.{Disk, resolve, link_limit, write_file, write_symlink}
use uplinkmgr.Setup.Outcome.{Run, done, from_option, ◌>>=◌}

unfoldable pub read_optional_file : Disk → Text → Text
unfolding resolve
read_optional_file disk path = elim (resolve link_limit disk path) [ none ↦ [] | some s ↦ s ]

-- The loop for the configuration of radvd.
unfoldable pub write_radvd : Config → (dry_run : Bool) → List UplinkConfig → Disk → Run Disk
unfolding radvd_conf radvd_conf_path write_file
write_radvd cfg dry_run [] disk = done disk
write_radvd cfg dry_run (uplink ∷ uplinks) disk =
    let rest = write_radvd cfg dry_run uplinks in
    let written = from_option (radvd_conf cfg uplink) >>= λ conf.
    rest (write_file (radvd_conf_path uplink.name) conf dry_run disk) in
    if uplink.ipv6_pd then written else rest disk

-- The links from the names of the macvlans of an uplink.
unfoldable pub link_macvlans :
    UplinkConfig → (dry_run : Bool) → List NetworkConfig → Disk → Run Disk
unfolding macvlan_name env_symlink_path write_symlink
link_macvlans uplink dry_run [] disk = done disk
link_macvlans uplink dry_run (net ∷ nets) disk =
    from_option (macvlan_name net.interface uplink.index) >>= λ mv.
    link_macvlans uplink dry_run nets
      (write_symlink (env_symlink_path mv) (uplink.name ++ text ".env") dry_run disk)

-- The environment file of an uplink, and the link from its interface.
unfoldable pub write_env : UplinkConfig → (dry_run : Bool) → Disk → Disk
unfolding env_file env_file_path env_symlink_path write_file write_symlink
write_env uplink dry_run disk =
    write_symlink (env_symlink_path uplink.interface) (uplink.name ++ text ".env") dry_run
      (write_file (env_file_path uplink.name) (env_file uplink) dry_run disk)

unfoldable pub write_envs :
    List NetworkConfig → (dry_run : Bool) → List UplinkConfig → Disk → Run Disk
unfolding write_env link_macvlans
write_envs nets dry_run [] disk = done disk
write_envs nets dry_run (uplink ∷ uplinks) disk =
    let rest = write_envs nets dry_run uplinks in
    let disk' = write_env uplink dry_run disk in
    let linked = link_macvlans uplink dry_run nets disk' >>= rest in
    if uplink.ipv6_pd then linked else rest disk'

abbrev interfaces_path : Text
interfaces_path = text "/etc/network/interfaces.d/uplinkmgr.conf"

abbrev rt_tables_path : Text
rt_tables_path = text "/etc/iproute2/rt_tables.d/uplinkmgr.conf"

-- The files of radvd and of the routing tables, and the environment files.
unfoldable pub write_rest : Config → (dry_run : Bool) → Disk → Run Disk
write_rest cfg dry_run disk = write_radvd cfg dry_run cfg.uplinks disk >>= λ disk'.
    write_envs cfg.networks dry_run cfg.uplinks
      (write_file rt_tables_path (rt_tables cfg) dry_run disk')

-- The configuration of dhcpcd, and what follows.
unfoldable pub write_dhcpcd : Config → (dry_run : Bool) → Disk → Run Disk
write_dhcpcd cfg dry_run disk =
    let head = read_optional_file disk dhcpcd_conf_head_path in
    let tail = read_optional_file disk dhcpcd_conf_tail_path in
    from_option (dhcpcd_conf cfg head tail) >>= λ conf.
    write_rest cfg dry_run (write_file dhcpcd_conf_path conf dry_run disk)

-- All writing, in the order of the program.
unfoldable pub write_all : Config → (dry_run : Bool) → Disk → Run Disk
write_all cfg dry_run disk = from_option (interfaces_file cfg) >>= λ interfaces.
    write_dhcpcd cfg dry_run (write_file interfaces_path interfaces dry_run disk)
