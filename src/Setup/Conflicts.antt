-- ===== src/Setup/Conflicts.antt =====
-- What `check_rt_conflicts` of bin/uplinkmgr-setup rules out.
use uplinkmgr.Prelude.{
  ◌≡◌, List, ◌∷◌, true, ◌||◌, not, Option, none, some, Text, has_key, is_some, ℤ, is_nonempty,
  if◌then◌else◌,
}
use uplinkmgr.State.{strip, int_of}
use uplinkmgr.Config.{Config}
use uplinkmgr.Setup.Tables.{split, Existing, lookup_num, starts_with_hash}

abbrev entry_of_words : List Text → Option (ℤ × Text)
entry_of_words (num ∷ name ∷ rest) = elim (int_of num) [ none ↦ none | some n ↦ some (n, name) ]
entry_of_words _ = none

-- The number and the name that a line registers.
unfoldable pub entry_of : Text → Option (ℤ × Text)
entry_of raw =
    let line = strip raw in
    if not (is_nonempty line) || starts_with_hash line then none else entry_of_words (split line)

-- A number and a name are known.
record Knows (num : ℤ) (name : Text) (e : Existing) : Type 0 where
  number : is_some (lookup_num num e.nums) ≡ true
  named : has_key name e.names ≡ true
