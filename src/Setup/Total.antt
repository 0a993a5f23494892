-- ===== src/Setup/Total.antt =====
-- Where `validate_macvlan_names` finds nothing wrong, no text of a configuration file fails.
use uplinkmgr.Prelude.{
  ℕ, suc, ◌≡◌, refl, List, [], ◌∷◌, ◌++◌, Bool, Bool-cases, inl, inr, true, Option, Option-cases,
  some, Text, text, if◌then◌else◌, arith,
}
use uplinkmgr.Prelude.Decimal.{str_ℕ}
use uplinkmgr.Config.{Config, NetworkConfig, UplinkConfig}
use uplinkmgr.Naming.{
  macvlan_name, Validation, valid, validate_networks, validate_uplinks, validate_macvlan_names,
}
use uplinkmgr.Generator.{
  macvlan_lines, uplink_lines, interface_lines, interfaces_file, allowed_interfaces, request_lines,
  macvlan_stanza, uplink_stanza, dhcpcd_conf,
}
use uplinkmgr.Generator.Advert.{
  radvd_conf, radvd_interface_block, initial_default_lifetime, initial_valid_lifetime,
  initial_preferred_lifetime,
}
use uplinkmgr.Generator.Disk.{Disk}
use uplinkmgr.Setup.Outcome.{done}
use uplinkmgr.Setup.Files.{write_radvd}

-- Each network has a macvlan name for the uplink of an index.
abbrev pub Named : ℕ → List NetworkConfig → Type 0
Named i [] = Unit
Named i (net ∷ nets) = ((mv : Text) × (macvlan_name net.interface i ≡ some mv)) × Named i nets

-- So has each for the uplinks that have macvlans.
abbrev pub AllNamed : List NetworkConfig → List UplinkConfig → Type 0
AllNamed nets [] = Unit
AllNamed nets (u ∷ uplinks) = (u.ipv6_pd ≡ true → Named u.index nets) × AllNamed nets uplinks

validate_networks-Named :
    (i : ℕ) (seen : List Text) (nets : List NetworkConfig) (after : List Text → Validation)
    → validate_networks i seen nets after ≡ valid
    → Named i nets × ((seen' : List Text) × (after seen' ≡ valid))
unfolding validate_networks
validate_networks-Named i seen [] after h = (tt, (seen, h))
validate_networks-Named i seen (net ∷ nets) after h =
    elim (Option-cases (macvlan_name net.interface i)) [
      | inl bad ↦ absurd (ground (arith, bad))
      | inr (mv, good) ↦
          let (rest, later) =
            validate_networks-Named i (mv ∷ seen) nets after (ground (arith, good)) in
          (((mv, good), rest), later)
    ]

validate_uplinks-AllNamed :
    (nets : List NetworkConfig) (seen : List Text) (uplinks : List UplinkConfig)
    → validate_uplinks nets seen uplinks ≡ valid
    → AllNamed nets uplinks
unfolding validate_uplinks
validate_uplinks-AllNamed nets seen [] h = tt
validate_uplinks-AllNamed nets seen (u ∷ uplinks) h = elim (Bool-cases u.ipv6_pd) [
  | inl on ↦
      let (named, (seen', rest)) =
        validate_networks-Named u.index seen nets (λ s. validate_uplinks nets s uplinks)
          (simp on at h) in
      (λ _. named, validate_uplinks-AllNamed nets seen' uplinks rest)
  | inr off ↦
      (λ on. absurd (ground arith), validate_uplinks-AllNamed nets seen uplinks (simp off at h))
]

pub validate_macvlan_names-AllNamed :
    (cfg : Config) → validate_macvlan_names cfg ≡ valid → AllNamed cfg.networks cfg.uplinks
unfolding validate_macvlan_names
validate_macvlan_names-AllNamed cfg h = validate_uplinks-AllNamed cfg.networks [] cfg.uplinks h

abbrev Returns {ℓ} : {A : Type ℓ} → Option A → Type ℓ
Returns {A = A} o = (a : A) × (o ≡ some a)

macvlan_lines-Returns :
    (i : ℕ) (lines_of : ℕ → NetworkConfig → Text → List Text) (k : ℕ) (nets : List NetworkConfig)
    → Named i nets
    → Returns (macvlan_lines i lines_of k nets)
unfolding macvlan_lines
macvlan_lines-Returns i lines_of k [] named = ([], refl)
macvlan_lines-Returns i lines_of k (net ∷ nets) ((mv, name), rest) =
    let (ls, e) = macvlan_lines-Returns i lines_of (suc k) nets rest in rw (name, e) (_, refl)

module _ (nets : List NetworkConfig) (lines_of : UplinkConfig → Option (List Text))
    (each : (u : UplinkConfig)
      → (u.ipv6_pd ≡ true → Named u.index nets)
      → Returns (lines_of u)) where
  uplink_lines-Returns :
      (uplinks : List UplinkConfig)
      → AllNamed nets uplinks
      → Returns (uplink_lines lines_of uplinks)
  unfolding uplink_lines
  uplink_lines-Returns [] named = ([], refl)
  uplink_lines-Returns (u ∷ uplinks) (named, rest) =
      let (own, e) = each u named in
      let (ls, e') = uplink_lines-Returns uplinks rest in rw (e, e') (_, refl)

module _ (cfg : Config) (named : AllNamed cfg.networks cfg.uplinks) where
  pub interfaces_file-Returns : Returns (interfaces_file cfg)
  unfolding interfaces_file
  interfaces_file-Returns =
      let lines_of = λ (u : UplinkConfig).
        if u.ipv6_pd then macvlan_lines u.index (interface_lines u) 0 cfg.networks else some [] in
      let each : (u : UplinkConfig)
          → (u.ipv6_pd ≡ true → Named u.index cfg.networks)
          → Returns (lines_of u) =
        λ u mine. elim (Bool-cases u.ipv6_pd) [
          | inl on ↦
              rw on (macvlan_lines-Returns u.index (interface_lines u) 0 cfg.networks (mine on))
          | inr off ↦ rw off ([], refl)
        ] in
      let (ls, e) = uplink_lines-Returns cfg.networks lines_of each cfg.uplinks named in
      rw e (_, refl)

  allowed_interfaces-Returns : Returns (allowed_interfaces cfg)
  unfolding allowed_interfaces
  allowed_interfaces-Returns =
      uplink_lines-Returns cfg.networks _
        (λ u mine. elim (Bool-cases u.ipv6_pd) [
          | inl on ↦
              let (ls, e) =
                macvlan_lines-Returns u.index (λ net_idx net mv. mv ∷ []) 0 cfg.networks
                  (mine on) in
              rw (on, e) (_, refl)
          | inr off ↦ rw off (_, refl)
        ])
        cfg.uplinks named

  request_lines-Returns :
      (u : UplinkConfig)
      → (u.ipv6_pd ≡ true → Named u.index cfg.networks)
      → Returns (request_lines cfg u)
  unfolding request_lines
  request_lines-Returns u mine = elim (Bool-cases u.ipv6_pd) [
    | inl on ↦
        let (ls, e) =
          macvlan_lines-Returns u.index
            (λ net_idx net mv. (mv ++ text "/" ++ str_ℕ net_idx ++ text "/64") ∷ []) 0 cfg.networks
            (mine on) in
        rw (on, e) (_, refl)
    | inr off ↦ elim (Bool-cases u.ia_na) [
      | inl na ↦ rw (off, na) (_, refl)
      | inr no_na ↦ rw (off, no_na) (_, refl)
    ]
  ]

  uplink_stanza-Returns :
      (u : UplinkConfig)
      → (u.ipv6_pd ≡ true → Named u.index cfg.networks)
      → Returns (uplink_stanza cfg u)
  unfolding uplink_stanza
  uplink_stanza-Returns u mine = elim (Bool-cases u.ipv6_pd) [
    | inl on ↦
        let (requests, e) = request_lines-Returns u mine in
        let (ls, e') = macvlan_lines-Returns u.index (macvlan_stanza u) 0 cfg.networks (mine on) in
        rw (e, on, e') (_, refl)
    | inr off ↦ let (requests, e) = request_lines-Returns u mine in rw (e, off) (_, refl)
  ]

  pub dhcpcd_conf-Returns : (head tail : Text) → Returns (dhcpcd_conf cfg head tail)
  unfolding dhcpcd_conf
  dhcpcd_conf-Returns head tail =
      let (allowed, e) = allowed_interfaces-Returns in
      let (ls, e') =
        uplink_lines-Returns cfg.networks (uplink_stanza cfg) uplink_stanza-Returns cfg.uplinks
          named in
      rw (e, e') (_, refl)

module _ (cfg : Config) where
  pub radvd_conf-Returns :
      (u : UplinkConfig) → Named u.index cfg.networks → Returns (radvd_conf cfg u)
  unfolding radvd_conf
  radvd_conf-Returns u mine =
      let (blocks, e) =
        macvlan_lines-Returns u.index
          (λ net_idx net mv.
            radvd_interface_block mv (text "high") initial_default_lifetime (text "::/64")
              initial_valid_lifetime initial_preferred_lifetime)
          0 cfg.networks mine in
      rw e (_, refl)

  pub write_radvd-Returns :
      (dry_run : Bool) (uplinks : List UplinkConfig) (disk : Disk)
      → AllNamed cfg.networks uplinks
      → (disk' : Disk) × (write_radvd cfg dry_run uplinks disk ≡ done disk')
  unfolding write_radvd
  write_radvd-Returns dry_run [] disk all = (disk, refl)
  write_radvd-Returns dry_run (u ∷ uplinks) disk (mine, all) = elim (Bool-cases u.ipv6_pd) [
    | inl on ↦
        let (conf, e) = radvd_conf-Returns u (mine on) in
        rw (on, e) (write_radvd-Returns dry_run uplinks _ all)
    | inr off ↦ rw off (write_radvd-Returns dry_run uplinks disk all)
  ]
