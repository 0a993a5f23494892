-- ===== src/State/Atomic.antt =====
-- `write_atomic` of src/uplinkmgr/state.py, on the disk of the generator.
use uplinkmgr.Prelude.{
  ◌≡◌, ◌≢◌, Bool, true, false, ◌&&◌, some, Text, ◌==◌, ==_iff, lookup, insert, delete,
  lookup-insert, lookup-delete, if◌then◌else◌, arith,
}
use uplinkmgr.Generator.Disk.{file, Disk, tmp_path}

-- Where an OSError comes up, which is only logged: at `open`, at writing, after a part of the content,
-- or at `os.replace`.
pub data Mishap : Type 0 where
  nothing at_open at_replace : Mishap
  at_write : Text → Mishap

unfoldable pub write_atomic : (path content : Text) → Mishap → Disk → Disk
write_atomic path content at_open disk = disk
write_atomic path content (at_write part) disk = insert (tmp_path path) (file part) disk
write_atomic path content at_replace disk = insert (tmp_path path) (file content) disk
write_atomic path content nothing disk =
    insert path (file content) (delete (tmp_path path) (insert (tmp_path path) (file content) disk))

abbrev pub is_whole : Mishap → Bool
is_whole nothing = true
is_whole _ = false

-- Whatever goes wrong, each path but that of the temporary file holds what it held, except that the
-- path that is written holds the whole content if nothing goes wrong.
pub lookup-write_atomic :
    (path content : Text) (how : Mishap) (disk : Disk) (other : Text)
    → other ≢ tmp_path path
    → lookup other (write_atomic path content how disk)
      ≡ (if other == path && is_whole how then some (file content) else lookup other disk)
unfolding write_atomic
lookup-write_atomic path content nothing disk other ne = ground (
  arith,
  ==_iff other (tmp_path path),
  lookup-insert path other (file content)
      (delete (tmp_path path) (insert (tmp_path path) (file content) disk)),
  lookup-delete (tmp_path path) other (insert (tmp_path path) (file content) disk),
  lookup-insert (tmp_path path) other (file content) disk,
)
lookup-write_atomic path content at_open disk other ne = ground arith
lookup-write_atomic path content at_replace disk other ne =
    ground
      (arith, ==_iff other (tmp_path path), lookup-insert (tmp_path path) other (file content) disk)
lookup-write_atomic path content (at_write part) disk other ne =
    ground
      (arith, ==_iff other (tmp_path path), lookup-insert (tmp_path path) other (file part) disk)
