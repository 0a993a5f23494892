-- ===== src/Setup/Clean.antt =====
-- `_remove_stale` of bin/uplinkmgr-setup: the files and links of uplinks that are gone.
use uplinkmgr.Prelude.{
  ◌-◌, List, [], ◌∷◌, ◌++◌, Bool, ◌&&◌, not, Text, text, lookup, delete, contains, is_nonempty,
  is_some, length, take, drop, if◌then◌else◌,
}
use uplinkmgr.Hooks.{ends_with}
use uplinkmgr.Generator.Disk.{Disk, has_slash, resolve, link_limit, is_link}
use uplinkmgr.Generator.Stale.{starts_with, is_stale}

-- A path with its directory, which ends in a slash: the name, if the path is an entry of it.
abbrev name_in : (directory path : Text) → List Text
name_in directory path =
    let name = drop (length directory) path in
    if starts_with path directory && is_nonempty name && not (has_slash name) then name ∷ [] else []

-- os.listdir(directory)
unfoldable pub names_in : Text → Disk → List Text
names_in directory [] = []
names_in directory ((path, node) ∷ disk) = name_in directory path ++ names_in directory disk

-- `remove_stale_files`, over the entries of the directory.
unfoldable pub remove_stale_radvd :
    (directory prefix : Text) → List Text → (suffix : Text) → List Text → Disk → Disk
unfolding is_stale
remove_stale_radvd directory prefix current_names suffix [] disk = disk
remove_stale_radvd directory prefix current_names suffix (f ∷ names) disk =
    remove_stale_radvd directory prefix current_names suffix names
      (if is_stale prefix suffix current_names f then delete (directory ++ f) disk else disk)

abbrev pub radvd_dir : Text
radvd_dir = text "/etc/uplinkmgr/radvd/"

abbrev pub uplinks_dir : Text
uplinks_dir = text "/etc/uplinkmgr/uplinks/"

-- s[:-4]
abbrev pub strip_env : Text → Text
strip_env s = take (length s - 4) s

unfoldable pub is_stale_env : List Text → Disk → Text → Bool
unfolding ends_with
is_stale_env current_names disk fname =
    ends_with fname (text ".env")
    && not (is_link (lookup (uplinks_dir ++ fname) disk))
    && not (contains (strip_env fname) current_names)

unfoldable pub remove_stale_envs : List Text → List Text → Disk → Disk
unfolding is_stale_env
remove_stale_envs current_names [] disk = disk
remove_stale_envs current_names (fname ∷ names) disk =
    remove_stale_envs current_names names
      (if is_stale_env current_names disk fname then delete (uplinks_dir ++ fname) disk else disk)

unfoldable pub is_dangling : Disk → Text → Bool
unfolding resolve
is_dangling disk fpath =
    is_link (lookup fpath disk) && not (is_some (resolve link_limit disk fpath))

unfoldable pub remove_dangling : List Text → Disk → Disk
unfolding is_dangling
remove_dangling [] disk = disk
remove_dangling (fname ∷ names) disk =
    remove_dangling names
      (if is_dangling disk (uplinks_dir ++ fname) then delete (uplinks_dir ++ fname) disk else disk)

unfoldable pub remove_stale : List Text → Disk → Disk
unfolding names_in remove_stale_radvd remove_stale_envs remove_dangling
remove_stale current_names disk =
    let disk1 =
      remove_stale_radvd radvd_dir (text "radvd-uplinkmgr-") current_names (text ".conf")
        (names_in radvd_dir disk) disk in
    let disk2 = remove_stale_envs current_names (names_in uplinks_dir disk1) disk1 in
    remove_dangling (names_in uplinks_dir disk2) disk2
