-- ===== src/Setup/Entries.antt =====
-- The directory /etc/uplinkmgr/uplinks, as the names in it, and what the writing leaves there.
use uplinkmgr.Prelude.{
  ==_of_ne, ◌≡◌, refl, ap, ◌∙◌, [], ◌∷◌, ◌++◌, ℕ, false, none, some, Text, text, ◌==◌, eq_of_==,
  Dict, lookup, lookup-insert, lookup-delete, Bool-cases, inl, inr, if◌then◌else◌, arith,
}
use uplinkmgr.Naming.{env_file_path}
use uplinkmgr.Naming.Paths.{env_file_path-==}
use uplinkmgr.Generator.Disk.{Node, file, link, Disk, tmp_path, write_file, write_symlink}

last : Text → ℕ
last [] = 0
last (c ∷ []) = c
last (c ∷ d ∷ s) = last (d ∷ s)

last-append : (s : Text) (c : ℕ) (t : Text) → last (s ++ c ∷ t) ≡ last (c ∷ t)
unfolding last
last-append [] c t = refl
last-append (b ∷ []) c t = refl
last-append (b ∷ d ∷ s) c t = last-append (d ∷ s) c t

-- A temporary file is no file of the directory.
env_file_path-ne-tmp : (n m : Text) → (env_file_path n == tmp_path (env_file_path m)) ≡ false
unfolding env_file_path last text
env_file_path-ne-tmp n m = ==_of_ne (env_file_path n) (tmp_path (env_file_path m)) (λ e.
    let before : last (env_file_path n) ≡ b'v' =
      last-append (text "/etc/uplinkmgr/uplinks/" ++ n) 46 (text "env") in
    let after : last (tmp_path (env_file_path m)) ≡ b'p' =
      last-append (env_file_path m) 46 (text "tmp") in
    omega (arith, before, after, ap last e))

abbrev pub put_entry : (Text × Node) → Disk → Disk
put_entry (n, file content) disk = write_file (env_file_path n) content false disk
put_entry (n, link target) disk = write_symlink (env_file_path n) target false disk

pub lookup-put_entry :
    (n : Text) (node : Node) (m : Text) (disk : Disk)
    → lookup (env_file_path m) (put_entry (n, node) disk)
      ≡ (if m == n then some node else lookup (env_file_path m) disk)
unfolding write_file write_symlink
lookup-put_entry n (file content) m disk =
    let no_tmp = env_file_path-ne-tmp m n in
    let same = env_file_path-== m n in
    rw (lookup-insert, lookup-delete, lookup-insert, no_tmp, same) refl
lookup-put_entry n (link target) m disk =
    let same = env_file_path-== m n in rw (lookup-insert, lookup-delete, same) (ground arith)

unfoldable pub puts : Dict Node → Disk → Disk
puts [] disk = disk
puts (entry ∷ entries) disk = puts entries (put_entry entry disk)

-- No name is written twice.
abbrev pub NodupKeys : Dict Node → Type 0
NodupKeys [] = Unit
NodupKeys ((n, node) ∷ entries) = (lookup n entries ≡ none) × NodupKeys entries

pub puts-append : (xs ys : Dict Node) (disk : Disk) → puts (xs ++ ys) disk ≡ puts ys (puts xs disk)
unfolding puts
puts-append [] ys disk = refl
puts-append (x ∷ xs) ys disk = puts-append xs ys (put_entry x disk)

lookup-puts_absent :
    (entries : Dict Node) (m : Text) (disk : Disk)
    → lookup m entries ≡ none
    → lookup (env_file_path m) (puts entries disk) ≡ lookup (env_file_path m) disk
unfolding puts lookup
lookup-puts_absent [] m disk absent = refl
lookup-puts_absent ((n, node) ∷ entries) m disk absent =
    lookup-puts_absent entries m (put_entry (n, node) disk) (ground arith)
    ∙ lookup-put_entry n node m disk
    ∙ ground arith

-- What was written under a name stands there in the end.
pub lookup-puts :
    (entries : Dict Node) (m : Text) (node : Node) (disk : Disk)
    → NodupKeys entries
    → lookup m entries ≡ some node
    → lookup (env_file_path m) (puts entries disk) ≡ some node
unfolding puts lookup
lookup-puts [] m node disk u at = cc
lookup-puts ((n, first) ∷ entries) m node disk (fresh, u) at = elim (Bool-cases (m == n)) [
  | inl e ↦
      let absent : lookup m entries ≡ none = ap (λ x. lookup x entries) (eq_of_== m n e) ∙ fresh in
      lookup-puts_absent entries m (put_entry (n, first) disk) absent
      ∙ lookup-put_entry n first m disk
      ∙ ground arith
  | inr e ↦ lookup-puts entries m node (put_entry (n, first) disk) u (ground arith)
]
