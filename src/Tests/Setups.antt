-- ===== src/Tests/Setups.antt =====
-- A run of bin/uplinkmgr-setup for the sample configuration, on an empty disk.
use uplinkmgr.Prelude.{
  ◌≡◌, refl, [], ◌∷◌, true, false, none, some, text, ◌==◌, ◌++◌, lookup, insert, contains,
  if◌then◌else◌, pos, ◌+ℤ◌,
}
use uplinkmgr.Config.{UplinkConfig}
use uplinkmgr.Config.Yaml.{ok}
use uplinkmgr.Naming.{
  valid, validate_macvlan_names, env_file_path, env_symlink_path, macvlan_name, split_digits, chomp,
  slice_to, uplink_suffix, ipv6_table_num, ipv6_table_name,
}
use uplinkmgr.Prelude.Decimal.{str_ℕ}
use uplinkmgr.Generator.Disk.{link, resolve, link_limit}
use uplinkmgr.Setup.{main}
use uplinkmgr.Setup.Outcome.{done, Outside, World}
use uplinkmgr.Setup.Tables.{check_rt_conflicts}
use uplinkmgr.Setup.Files.{write_env}
use uplinkmgr.Setup.Entries.{NodupKeys}
use uplinkmgr.Setup.Envs.{env_entries}
use uplinkmgr.Setup.Dry.{main-dry}
use uplinkmgr.Setup.Ready.{IsReady, main-IsReady}
use uplinkmgr.Setup.Lost.{write_env-lost}
use uplinkmgr.Tests.Configs.{home-IsValid}
use uplinkmgr.Tests.Samples.{home, cable}

abbrev machine : Outside
machine = record {
  glob = λ pattern.
      if pattern == text "/etc/iproute2/rt_tables*"
      then text "/etc/iproute2/rt_tables" ∷ []
      else [];
  read = λ path. some (text "# reserved values\n255\tlocal\n0\tunspec\n");
  has_systemd = true;
  list_units = λ calls. text "radvd-uplinkmgr@old.service loaded active running radvd";
}

abbrev empty_world : World
empty_world = record { disk = []; calls = [] }

home-valid : validate_macvlan_names home ≡ valid
unfolding validate_macvlan_names macvlan_name split_digits chomp slice_to uplink_suffix contains
    str_ℕ text ◌==◌
home-valid = refl

home-free : check_rt_conflicts machine home ≡ done tt
unfolding check_rt_conflicts text ◌==◌ lookup insert ipv6_table_num ipv6_table_name str_ℕ ◌+ℤ◌
home-free = refl

main-dry_example : main machine (ok home) true empty_world ≡ done empty_world
main-dry_example = main-dry machine home empty_world home-valid

home-apart : NodupKeys (env_entries home.networks home.uplinks)
unfolding macvlan_name split_digits chomp slice_to uplink_suffix lookup str_ℕ text ◌==◌
home-apart = (refl, (refl, (refl, (refl, (refl, (refl, tt))))))

main-IsReady_example :
    (w' : World) × (main machine (ok home) false empty_world ≡ done w') × IsReady home w'.disk cable
main-IsReady_example =
    main-IsReady machine home empty_world 0 cable home-IsValid home-valid home-free home-apart refl

abbrev lte : UplinkConfig
lte = record {
  name = text "wwan0";
  interface = text "wwan0";
  ipv6_pd = false;
  ipv6_pd_hint = pos 56;
  ia_na = false;
  metric = pos 300;
  index = 0;
}

write_env-lost_example :
    (lookup (env_file_path (text "wwan0")) (write_env lte false [])
      ≡ some (link (text "wwan0" ++ text ".env")))
    × (resolve link_limit (write_env lte false []) (env_symlink_path (text "wwan0")) ≡ none)
write_env-lost_example = write_env-lost lte [] link_limit refl (unfold text in refl)
