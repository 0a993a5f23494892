-- ===== src/Setup/Envs.antt =====
-- The environment files of the uplinks after a run of bin/uplinkmgr-setup. The hook of dhcpcd reads
-- /etc/uplinkmgr/uplinks/${interface}.env.
use uplinkmgr.Prelude.{
  ℕ, zero, suc, ◌≡◌, refl, sym, ap, ◌∙◌, List, [], ◌∷◌, ◌++◌, Bool, Bool-cases, inl, inr, true,
  false, ◌⊎◌, subst, none, some, Text, text, ◌==◌, ==_refl, eq_of_==, lookup, Dict, get_elem?,
  if◌then◌else◌, arith,
}
use uplinkmgr.Config.{NetworkConfig, UplinkConfig}
use uplinkmgr.Naming.{macvlan_name, env_file_path, env_symlink_path}
use uplinkmgr.Generator.{env_file}
use uplinkmgr.Generator.Disk.{Node, file, link, Disk}
use uplinkmgr.Setup.Outcome.{Run, done, ◌>>=◌}
use uplinkmgr.Setup.Files.{link_macvlans, write_env, write_envs}
use uplinkmgr.Setup.Total.{Named, AllNamed}
use uplinkmgr.Setup.Entries.{puts, puts-append, NodupKeys}

abbrev pub link_to : UplinkConfig → Node
link_to u = link (u.name ++ text ".env")

-- The links from the macvlans of an uplink.
abbrev pub macvlan_entries : UplinkConfig → List NetworkConfig → Dict Node
macvlan_entries u [] = []
macvlan_entries u (net ∷ nets) =
    let rest = macvlan_entries u nets in
    elim (macvlan_name net.interface u.index) [ none ↦ rest | some mv ↦ (mv, link_to u) ∷ rest ]

abbrev pub own_entries : List NetworkConfig → UplinkConfig → Dict Node
own_entries nets u =
    (u.name, file (env_file u))
    ∷ (u.interface, link_to u)
    ∷ (if u.ipv6_pd then macvlan_entries u nets else [])

-- All names in the directory, with what stands for each: those of the uplinks, of their interfaces
-- and of the macvlans.
abbrev pub env_entries : List NetworkConfig → List UplinkConfig → Dict Node
env_entries nets [] = []
env_entries nets (u ∷ uplinks) = own_entries nets u ++ env_entries nets uplinks

link_macvlans-eq :
    (u : UplinkConfig) (nets : List NetworkConfig) (disk : Disk)
    → Named u.index nets
    → link_macvlans u false nets disk ≡ done (puts (macvlan_entries u nets) disk)
unfolding link_macvlans puts env_symlink_path env_file_path
link_macvlans-eq u [] disk named = refl
link_macvlans-eq u (net ∷ nets) disk ((mv, e), rest) =
    rw (e, macvlan_entries) (link_macvlans-eq u nets _ rest)

-- The links of an uplink and what follows them, if it has macvlans, and what follows if not.
linked-eq :
    (pd : Bool) (u : UplinkConfig) (nets : List NetworkConfig) (rest : Disk → Run Disk)
    (disk : Disk)
    → (pd ≡ true → Named u.index nets)
    → (if pd then (link_macvlans u false nets disk >>= rest) else rest disk)
      ≡ rest (puts (if pd then macvlan_entries u nets else []) disk)
unfolding puts
linked-eq true u nets rest disk mine =
    ap (λ m. m >>= rest) (link_macvlans-eq u nets disk (mine refl))
linked-eq false u nets rest disk mine = refl

pub write_envs-eq :
    (nets : List NetworkConfig) (uplinks : List UplinkConfig) (disk : Disk)
    → AllNamed nets uplinks
    → write_envs nets false uplinks disk ≡ done (puts (env_entries nets uplinks) disk)
unfolding write_envs write_env puts env_symlink_path env_file_path
write_envs-eq nets [] disk all = refl
write_envs-eq nets (u ∷ uplinks) disk (mine, all) =
    let links = if u.ipv6_pd then macvlan_entries u nets else [] in
    let written = write_env u false disk in
    linked-eq u.ipv6_pd u nets (write_envs nets false uplinks) written mine
    ∙ write_envs-eq nets uplinks (puts links written) all
    ∙ ap done (sym (puts-append links (env_entries nets uplinks) written))

-- An entry is in a list.
abbrev pub Has : Text → Node → Dict Node → Type 0
Has n node [] = ⊥
Has n node ((m, x) ∷ entries) = ((n ≡ m) × (x ≡ node)) ⊎ Has n node entries

pub lookup-Has :
    (n : Text) (node : Node) (entries : Dict Node)
    → NodupKeys entries
    → Has n node entries
    → lookup n entries ≡ some node
unfolding lookup
lookup-Has n node [] u h = absurd h
lookup-Has n node ((m, x) ∷ entries) (fresh, u) (inl (e, e')) = ground (arith, ==_refl n)
lookup-Has n node ((m, x) ∷ entries) (fresh, u) (inr h) =
    let later = lookup-Has n node entries u h in
    elim (Bool-cases (n == m)) [
      | inl e ↦ let same = eq_of_== n m e in let clash = ap (λ k. lookup k entries) same in cc
      | inr e ↦ ground (arith, later)
    ]

Has-append_left :
    (n : Text) (node : Node) (xs ys : Dict Node) → Has n node xs → Has n node (xs ++ ys)
Has-append_left n node [] ys h = absurd h
Has-append_left n node (x ∷ xs) ys (inl e) = inl e
Has-append_left n node (x ∷ xs) ys (inr h) = inr (Has-append_left n node xs ys h)

Has-append_right :
    (n : Text) (node : Node) (xs ys : Dict Node) → Has n node ys → Has n node (xs ++ ys)
Has-append_right n node [] ys h = h
Has-append_right n node (x ∷ xs) ys h = inr (Has-append_right n node xs ys h)

pub env_entries-Has :
    (nets : List NetworkConfig) (uplinks : List UplinkConfig) (i : ℕ) (u : UplinkConfig)
    → get_elem? uplinks i ≡ some u
    → (n : Text) (node : Node) → Has n node (own_entries nets u)
    → Has n node (env_entries nets uplinks)
env_entries-Has nets [] i u at n node h = cc
env_entries-Has nets (x ∷ uplinks) zero u at n node h =
    let same : u ≡ x = ground arith in
    Has-append_left n node (own_entries nets x) (env_entries nets uplinks)
      (subst (λ y. Has n node (own_entries nets y)) same h)
env_entries-Has nets (x ∷ uplinks) (suc i) u at n node h =
    Has-append_right n node (own_entries nets x) (env_entries nets uplinks)
      (env_entries-Has nets uplinks i u at n node h)
