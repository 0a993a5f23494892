-- ===== src/Setup/Lost.antt =====
-- An uplink with the name of its interface: the link to its environment file takes the file's place.
use uplinkmgr.Prelude.{
  ℕ, zero, suc, ◌≡◌, refl, sym, ap, ◌∙◌, ◌++◌, false, none, some, Text, text, ◌==◌, ==_refl, lookup,
  if◌then◌else◌,
}
use uplinkmgr.Config.{UplinkConfig}
use uplinkmgr.Naming.{env_file_path, env_symlink_path}
use uplinkmgr.Generator.{env_file}
use uplinkmgr.Generator.Disk.{file, link, Disk, has_slash, resolve}
use uplinkmgr.Setup.Files.{write_env}
use uplinkmgr.Setup.Entries.{put_entry, lookup-put_entry}
use uplinkmgr.Setup.Kept.{target-env, resolve-step}

-- A link to itself leads nowhere, however many links are followed.
resolve-loop :
    (n : Text) (disk : Disk)
    → has_slash n ≡ false
    → lookup (env_file_path n) disk ≡ some (link (n ++ text ".env"))
    → (fuel : ℕ) → resolve fuel disk (env_file_path n) ≡ none
resolve-loop n disk plain h zero = unfold resolve in refl
resolve-loop n disk plain h (suc fuel) =
    resolve-step fuel disk (env_file_path n) h
    ∙ ap (resolve fuel disk) (target-env n n plain plain)
    ∙ resolve-loop n disk plain h fuel

-- The environment file of an uplink whose name is that of its interface is lost when it is written:
-- what stands under the name is a link to itself, which leads to no file, if the name has no slash.
pub write_env-lost :
    (u : UplinkConfig) (disk : Disk) (limit : ℕ)
    → u.name ≡ u.interface
    → has_slash u.name ≡ false
    → (lookup (env_file_path u.name) (write_env u false disk) ≡ some (link (u.name ++ text ".env")))
      × (resolve limit (write_env u false disk) (env_symlink_path u.interface) ≡ none)
unfolding write_env env_file_path env_symlink_path
write_env-lost u disk limit same plain =
    let written = put_entry (u.name, file (env_file u)) disk in
    let equal = ap (λ x. u.name == x) (sym same) ∙ ==_refl u.name in
    let stands : lookup (env_file_path u.name) (write_env u false disk)
        ≡ some (link (u.name ++ text ".env")) =
      lookup-put_entry u.interface (link (u.name ++ text ".env")) u.name written
      ∙ ap
          (λ b.
            if b
            then some (link (u.name ++ text ".env"))
            else lookup (env_file_path u.name) written)
          equal in
    (
      stands,
      ap (λ x. resolve limit (write_env u false disk) (env_file_path x)) (sym same)
          ∙ resolve-loop u.name (write_env u false disk) plain stands limit,
    )
