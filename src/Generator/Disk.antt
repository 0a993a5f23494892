-- ===== src/Generator/Disk.antt =====
-- Writing files and links (`write_file` and `write_symlink` of src/uplinkmgr/generator.py), on a
-- disk of files and symbolic links. Directories are not part of it: the program makes those it needs.
-- Nor are errors of the operating system, and a temporary name is taken not to be a link.
use uplinkmgr.Prelude.{
  ℕ, zero, suc, [], ◌∷◌, ◌++◌, Bool, true, false, ◌||◌, Option, none, some, Text, text, Dict,
  lookup, insert, delete, eqb, if◌then◌else◌,
}

pub data Node : Type 0 where
  file : Text → Node
  link : Text → Node

-- The nodes by their paths.
abbrev pub Disk : Type 0
Disk = Dict Node

abbrev pub has_slash : Text → Bool
has_slash [] = false
has_slash (c ∷ s) = eqb c b'/' || has_slash s

-- A path up to its last slash.
abbrev pub parent : Text → Text
parent [] = []
parent (c ∷ s) = if has_slash (c ∷ s) then c ∷ parent s else []

abbrev pub is_absolute : Text → Bool
is_absolute [] = false
is_absolute (c ∷ s) = eqb c b'/'

-- Where the target of a link at a path leads.
abbrev pub target_path : (path target : Text) → Text
target_path path target = if is_absolute target then target else parent path ++ target

-- The text of the file at a path, through at most as many links as are given.
unfoldable pub resolve : ℕ → Disk → Text → Option Text
resolve zero disk path = none
resolve (suc n) disk path = elim (lookup path disk) [
  | none ↦ none
  | some (file content) ↦ some content
  | some (link target) ↦ resolve n disk (target_path path target)
]

-- Linux follows 40 links, and gives ELOOP at one more.
abbrev pub link_limit : ℕ
link_limit = 41

-- os.path.islink(path)
abbrev pub is_link : Option Node → Bool
is_link (some (link target)) = true
is_link _ = false

-- The path of the temporary file.
abbrev pub tmp_path : Text → Text
tmp_path path = path ++ text ".tmp"

-- The content goes to a temporary file, which then takes the place of the path.
unfoldable pub write_file : (path content : Text) → (dry_run : Bool) → Disk → Disk
write_file path content dry_run disk =
    let written = insert (tmp_path path) (file content) disk in
    let replaced = insert path (file content) (delete (tmp_path path) written) in
    if dry_run then disk else replaced

unfoldable pub write_symlink : (link_path target_name : Text) → (dry_run : Bool) → Disk → Disk
write_symlink link_path target_name dry_run disk =
    let linked = insert link_path (link target_name) (delete link_path disk) in
    if dry_run then disk else linked
