-- ===== src/Setup/Tables.antt =====
-- `check_rt_conflicts` of bin/uplinkmgr-setup: the numbers and names of the routing tables that other
-- files register.
use uplinkmgr.Prelude.{
  List, [], ◌∷◌, ◌++◌, map, Bool, true, false, ◌||◌, not, Option, none, some, Text, text, Dict,
  lookup, insert, ℤ, eqb_ℤ, eqb, is_nonempty, if◌then◌else◌,
}
use uplinkmgr.State.{is_space, push, split_lines, strip, int_of}
use uplinkmgr.Hooks.{lt_text}
use uplinkmgr.Config.{Config}
use uplinkmgr.Naming.{ipv6_table_num, ipv6_table_name}
use uplinkmgr.Generator.Stale.{starts_with}
use uplinkmgr.Setup.Outcome.{Run, done, died, number_used, name_used, ◌>>=◌, Outside}

abbrev starts_word : Text → Bool
starts_word [] = true
starts_word (c ∷ s) = is_space c

-- s.split()
unfoldable pub split : Text → List Text
split [] = []
split (c ∷ s) =
    let rest = split s in
    if is_space c then rest else if starts_word s then (c ∷ []) ∷ rest else push c rest

-- part in s
unfoldable pub has_part : (part s : Text) → Bool
has_part part [] = not (is_nonempty part)
has_part part (c ∷ s) = starts_with (c ∷ s) part || has_part part s

unfoldable pub insert_sorted : Text → List Text → List Text
insert_sorted x [] = x ∷ []
insert_sorted x (y ∷ ys) =
    let rest = insert_sorted x ys in if lt_text y x then y ∷ rest else x ∷ y ∷ ys

-- sorted(xs)
unfoldable pub sorted : List Text → List Text
unfolding insert_sorted
sorted [] = []
sorted (x ∷ xs) = insert_sorted x (sorted xs)

-- The two dicts, with the path that each number and name was last found in. A dict with numbers as
-- keys is the list of its assignments, the newest first.
pub record Existing : Type 0 where
  pub nums : List (ℤ × Text)
  pub names : Dict Text

abbrev pub lookup_num : ℤ → List (ℤ × Text) → Option Text
lookup_num n [] = none
lookup_num n ((m, path) ∷ nums) = if eqb_ℤ n m then some path else lookup_num n nums

abbrev pub register : Text → (name : Text) → Option ℤ → Existing → Existing
register path name none e = e
register path name (some num) e = record {
  nums = (num, path) ∷ e.nums;
  names = insert name path e.names;
}

abbrev pub read_parts : Text → List Text → Existing → Existing
read_parts path (num ∷ name ∷ rest) e = register path name (int_of num) e
read_parts path _ e = e

abbrev pub starts_with_hash : Text → Bool
starts_with_hash [] = false
starts_with_hash (c ∷ s) = eqb c b'#'

-- The body of the loop over the lines.
unfoldable pub read_table_line : Text → Text → Existing → Existing
unfolding strip split int_of
read_table_line path raw e =
    let line = strip raw in
    if not (is_nonempty line) || starts_with_hash line then e else read_parts path (split line) e

unfoldable pub read_table_lines : Text → List Text → Existing → Existing
unfolding read_table_line
read_table_lines path [] e = e
read_table_lines path (line ∷ lines) e = read_table_lines path lines (read_table_line path line e)

-- The lines of a file; its own files and those that cannot be opened are passed over.
unfoldable pub lines_at : Outside → Text → List Text
unfolding has_part split_lines
lines_at env path = elim (has_part (text "uplinkmgr") path) [
  | true ↦ []
  | false ↦ elim (env.read path) [ none ↦ [] | some s ↦ split_lines s ]
]

unfoldable pub read_tables : Outside → List Text → Existing → Existing
unfolding read_table_lines lines_at
read_tables env [] e = e
read_tables env (path ∷ paths) e =
    read_tables env paths (read_table_lines path (lines_at env path) e)

-- The files that are read, in their order.
unfoldable pub table_files : Outside → List Text
unfolding sorted
table_files env =
    let files_of = λ (base : Text).
      sorted (env.glob (base ++ text "/rt_tables*") ++ env.glob (base ++ text "/rt_tables.d/*")) in
    files_of (text "/etc/iproute2/rt_tables.d") ++ files_of (text "/etc/iproute2")

-- The source walks over a set, in an order of its own; here it is that of the uplinks.
unfoldable pub check_nums : List (ℤ × Text) → List ℤ → Run (Unit {0})
check_nums nums [] = done tt
check_nums nums (num ∷ ours) = elim (lookup_num num nums) [
  | some path ↦ died (number_used num path)
  | none ↦ check_nums nums ours
]

unfoldable pub check_names : Dict Text → List Text → Run (Unit {0})
check_names names [] = done tt
check_names names (name ∷ ours) = elim (lookup name names) [
  | some path ↦ died (name_used name path)
  | none ↦ check_names names ours
]

unfoldable pub check_rt_conflicts : Outside → Config → Run (Unit {0})
unfolding read_tables table_files check_nums check_names
check_rt_conflicts env cfg =
    let our_nums = map (λ u. ipv6_table_num cfg.routing_table_start u.index) cfg.uplinks in
    let our_names = map (λ u. ipv6_table_name u.name) cfg.uplinks in
    let existing = read_tables env (table_files env) (record { nums = []; names = [] }) in
    check_nums existing.nums our_nums >>= λ _. check_names existing.names our_names
