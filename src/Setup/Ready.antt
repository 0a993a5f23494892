-- ===== src/Setup/Ready.antt =====
-- What the hook of dhcpcd finds after a run of bin/uplinkmgr-setup: it reads
-- /etc/uplinkmgr/uplinks/${interface}.env.
use uplinkmgr.Prelude.{
  ℕ, zero, suc, ◌≡◌, refl, ap, ◌∙◌, List, [], ◌∷◌, map, Option-cases, inl, inr, true, false, some,
  Text, ==_of_eq, contains, lookup, Dict, get_elem?, arith,
}
use uplinkmgr.Config.{Config, NetworkConfig, UplinkConfig}
use uplinkmgr.Config.Yaml.{ok}
use uplinkmgr.Naming.{
  macvlan_name, valid, validate_macvlan_names, env_file_path, env_symlink_path,
  dhcpcd_conf_head_path, dhcpcd_conf_tail_path,
}
use uplinkmgr.Generator.{env_file}
use uplinkmgr.Generator.Disk.{Node, file, Disk, has_slash, resolve, link_limit}
use uplinkmgr.Uplink.Places.{macvlan_at}
use uplinkmgr.Setup.{checks, finish_setup, main}
use uplinkmgr.Setup.Outcome.{Run, done, Outside, World}
use uplinkmgr.Setup.Tables.{check_rt_conflicts}
use uplinkmgr.Setup.Files.{write_rest, write_dhcpcd, write_all, read_optional_file}
use uplinkmgr.Setup.Total.{
  AllNamed, validate_macvlan_names-AllNamed, interfaces_file-Returns, dhcpcd_conf-Returns,
  write_radvd-Returns,
}
use uplinkmgr.Setup.Entries.{puts, NodupKeys, lookup-puts}
use uplinkmgr.Config.Loaded.{IsValid}
use uplinkmgr.Setup.Plain.{AllPlain, IsValid-AllPlain}
use uplinkmgr.Setup.Kept.{Stands, remove_stale-Stands, resolve-file_here, resolve-link}
use uplinkmgr.Setup.Envs.{
  link_to, macvlan_entries, env_entries, write_envs-eq, Has, lookup-Has, env_entries-Has,
}
use uplinkmgr.Setup.Enabled.{finish_setup-Stands}

-- All writing returns, and its last part is the environment files.
module _ (cfg : Config) (all : AllNamed cfg.networks cfg.uplinks) where
  abbrev EndsWithEnvs : Run Disk → Type 0
  EndsWithEnvs r = (before : Disk) × (r ≡ done (puts (env_entries cfg.networks cfg.uplinks) before))

  write_rest-puts : (disk : Disk) → EndsWithEnvs (write_rest cfg false disk)
  unfolding write_rest
  write_rest-puts disk =
      let (disk', e) = write_radvd-Returns cfg false cfg.uplinks disk all in
      rw e (_, write_envs-eq cfg.networks cfg.uplinks _ all)

  write_dhcpcd-puts : (disk : Disk) → EndsWithEnvs (write_dhcpcd cfg false disk)
  unfolding write_dhcpcd
  write_dhcpcd-puts disk =
      let (conf, e) =
        dhcpcd_conf-Returns cfg all (read_optional_file disk dhcpcd_conf_head_path)
          (read_optional_file disk dhcpcd_conf_tail_path) in
      rw e (write_rest-puts _)

  write_all-puts : (disk : Disk) → EndsWithEnvs (write_all cfg false disk)
  unfolding write_all
  write_all-puts disk =
      let (interfaces, e) = interfaces_file-Returns cfg all in rw e (write_dhcpcd-puts _)

-- The hook finds the environment file of an uplink under the name of the uplink, that of its interface
-- and, if it has macvlans, that of each of these.
pub record IsReady (cfg : Config) (disk : Disk) (u : UplinkConfig) : Type 0 where
  pub own : resolve link_limit disk (env_file_path u.name) ≡ some (env_file u)
  pub wan : resolve link_limit disk (env_symlink_path u.interface) ≡ some (env_file u)
  pub macvlans :
      (n : ℕ) (mv : Text)
      → u.ipv6_pd ≡ true
      → macvlan_at cfg u n ≡ some mv
      → resolve link_limit disk (env_symlink_path mv) ≡ some (env_file u)

plain_of_Has :
    (n : Text) (node : Node) (entries : Dict Node)
    → AllPlain entries
    → Has n node entries
    → has_slash n ≡ false
plain_of_Has n node [] p h = absurd h
plain_of_Has n node ((m, x) ∷ entries) (p, ps) (inl (e, e')) = ap has_slash e ∙ p
plain_of_Has n node ((m, x) ∷ entries) (p, ps) (inr h) = plain_of_Has n node entries ps h

macvlan_entries-Has :
    (u : UplinkConfig) (nets : List NetworkConfig) (n : ℕ) (mv : Text) (net : NetworkConfig)
    → get_elem? nets n ≡ some net
    → macvlan_name net.interface u.index ≡ some mv
    → Has mv (link_to u) (macvlan_entries u nets)
macvlan_entries-Has u [] n mv net at e = cc
macvlan_entries-Has u (x ∷ nets) zero mv net at e =
    let same : x ≡ net = ground arith in
    let first = ap (λ y. macvlan_name y.interface u.index) same ∙ e in
    rw (first, macvlan_entries) (inl (refl, refl))
macvlan_entries-Has u (x ∷ nets) (suc n) mv net at e =
    let later = macvlan_entries-Has u nets n mv net at e in
    elim (Option-cases (macvlan_name x.interface u.index)) [
      | inl bad ↦ rw (bad, macvlan_entries) later
      | inr (first, good) ↦ rw (good, macvlan_entries) (inr later)
    ]

contains-names :
    (uplinks : List UplinkConfig) (i : ℕ) (u : UplinkConfig)
    → get_elem? uplinks i ≡ some u
    → contains u.name (map (λ w. w.name) uplinks) ≡ true
unfolding contains
contains-names [] i u at = cc
contains-names (x ∷ uplinks) zero u at =
    let same : u.name ≡ x.name = ground arith in ground (arith, ==_of_eq u.name x.name)
contains-names (x ∷ uplinks) (suc i) u at = ground (arith, contains-names uplinks i u at)

module _ (cfg : Config) (i : ℕ) (u : UplinkConfig) (at : get_elem? cfg.uplinks i ≡ some u) where
  abbrev entries : Dict Node
  entries = env_entries cfg.networks cfg.uplinks

  own-Has : Has u.name (file (env_file u)) entries
  own-Has = env_entries-Has cfg.networks cfg.uplinks i u at u.name _ (inl (refl, refl))

  wan-Has : Has u.interface (link_to u) entries
  wan-Has = env_entries-Has cfg.networks cfg.uplinks i u at u.interface _ (inr (inl (refl, refl)))

  macvlan-Has :
      (n : ℕ) (mv : Text)
      → u.ipv6_pd ≡ true
      → macvlan_at cfg u n ≡ some mv
      → Has mv (link_to u) entries
  unfolding macvlan_at
  macvlan-Has n mv on h = elim (Option-cases (get_elem? cfg.networks n)) [
    | inl missing ↦ absurd (ground (arith, missing))
    | inr (net, found) ↦
        let named : macvlan_name net.interface u.index ≡ some mv = ground (arith, found) in
        let has = macvlan_entries-Has u cfg.networks n mv net found named in
        env_entries-Has cfg.networks cfg.uplinks i u at mv (link_to u) (inr (inr (simp on has)))
  ]

  module _ (apart : NodupKeys entries) (plain : AllPlain entries) (env : Outside) (w : World)
      (before : Disk) (written : w.disk ≡ puts entries before) where
    stands : (n : Text) (node : Node) → Has n node entries → Stands n node w.disk
    stands n node has =
        ap (lookup (env_file_path n)) written
        ∙ lookup-puts entries n node before apart (lookup-Has n node entries apart has)

    -- A name that is linked to the file of the uplink leads there in the end.
    link-resolves :
        (n : Text)
        → Has n (link_to u) entries
        → (resolve link_limit (finish_setup env false cfg w).disk (env_file_path n)
            ≡ some (env_file u))
          × Stands u.name (file (env_file u)) (finish_setup env false cfg w).disk
    link-resolves n has =
        let plain_n = plain_of_Has n (link_to u) entries plain has in
        let plain_u = plain_of_Has u.name (file (env_file u)) entries plain own-Has in
        let current = map (λ (x : UplinkConfig). x.name) cfg.uplinks in
        let (s, s') =
          remove_stale-Stands n u.name (env_file u) plain_n plain_u current w.disk
            (contains-names cfg.uplinks i u at) (stands u.name (file (env_file u)) own-Has)
            (stands n (link_to u) has) in
        let t = finish_setup-Stands u.name (file (env_file u)) env cfg w s in
        let t' = finish_setup-Stands n (link_to u) env cfg w s' in
        (
          resolve-link n u.name (env_file u) plain_n plain_u (finish_setup env false cfg w).disk t
              t',
          t,
        )

    finish_setup-IsReady : IsReady cfg (finish_setup env false cfg w).disk u
    unfolding env_symlink_path env_file_path
    finish_setup-IsReady =
        let (wan, own) = link-resolves u.interface wan-Has in
        record {
          own = resolve-file_here (finish_setup env false cfg w).disk (env_file_path u.name) own;
          wan = wan;
          macvlans = λ n mv on named. (link-resolves mv (macvlan-Has n mv on named)).0;
        }

-- If the configuration is valid, the names of the macvlans pass the validation and no other file
-- registers a number or name of the routing tables, the program comes to its end, and then the hook
-- finds the environment file of each uplink under all its names, if no two of the names in the
-- directory are the same.
pub main-IsReady :
    (env : Outside) (cfg : Config) (w : World) (i : ℕ) (u : UplinkConfig)
    → IsValid cfg
    → validate_macvlan_names cfg ≡ valid
    → check_rt_conflicts env cfg ≡ done tt
    → NodupKeys (env_entries cfg.networks cfg.uplinks)
    → get_elem? cfg.uplinks i ≡ some u
    → (w' : World) × (main env (ok cfg) false w ≡ done w') × IsReady cfg w'.disk u
unfolding main checks
main-IsReady env cfg w i u sound checked free apart at =
    let all = validate_macvlan_names-AllNamed cfg checked in
    let (before, e) = write_all-puts cfg all w.disk in
    let after = record w { disk = puts (env_entries cfg.networks cfg.uplinks) before } in
    (
      finish_setup env false cfg after,
      rw (checked, free, e) refl,
      finish_setup-IsReady cfg i u at apart (IsValid-AllPlain cfg sound) env after before refl,
    )
