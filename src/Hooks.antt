-- ===== src/Hooks.antt =====
-- The event hooks (src/uplinkmgr/hooks.py): which scripts run for an event, in which order, and
-- with which environment.
pub mod Candidates
pub mod Stems
pub mod Resolve
pub mod Order
pub mod Run
pub mod Queue
pub mod Fifo
pub mod Delivered
use Prim.Native.Nat.{bit_and}
use uplinkmgr.Prelude.{
  ℕ, zero, suc, ◌-◌, List, [], ◌∷◌, ◌++◌, map, Bool, true, false, ◌&&◌, ◌||◌, not, Option, none,
  some, Text, text, ◌==◌, Dict, insert, contains, ltb, leb, eqb, is_nonempty, length, drop,
  if◌then◌else◌,
}
use uplinkmgr.Prelude.Decimal.{is_digit}
use uplinkmgr.Effect.{Event}

-- What follows a run of digits and a hyphen.
unfoldable pub after_prefix : Text → Option Text
after_prefix [] = none
after_prefix (c ∷ s) =
    let rest = after_prefix s in if is_digit c then rest else if eqb c b'-' then some s else none

abbrev starts_with_digit : Text → Bool
starts_with_digit [] = false
starts_with_digit (c ∷ s) = is_digit c

abbrev pub or_else : Text → Option Text → Text
or_else s none = s
or_else s (some rest) = rest

unfoldable pub stem : Text → Text
unfolding after_prefix
stem filename =
    if starts_with_digit filename then or_else filename (after_prefix filename) else filename

-- s.endswith(suffix)
unfoldable pub ends_with : Text → Text → Bool
ends_with s suffix = leb (length suffix) (length s) && drop (length s - length suffix) s == suffix

unfoldable pub any_suffix : Text → List Text → Bool
unfolding ends_with
any_suffix s [] = false
any_suffix s (suffix ∷ suffixes) = ends_with s suffix || any_suffix s suffixes

abbrev pub backup_suffixes : List Text
backup_suffixes =
    text ".bak"
    ∷ text ".dpkg-old"
    ∷ text ".dpkg-new"
    ∷ text ".dpkg-dist"
    ∷ text ".dpkg-tmp"
    ∷ text ".rpmsave"
    ∷ text ".rpmnew"
    ∷ text ".rpmorig"
    ∷ text ".swp"
    ∷ text "~"
    ∷ []

abbrev starts_with_dot : Text → Bool
starts_with_dot [] = false
starts_with_dot (c ∷ s) = eqb c b'.'

unfoldable pub is_candidate : Text → Bool
unfolding any_suffix
is_candidate filename =
    if starts_with_dot filename
    then false
    else if any_suffix filename backup_suffixes
    then false
    else true

-- [x for x in xs if keep(x)]
unfoldable pub keep_if : (Text → Bool) → List Text → List Text
keep_if keep [] = []
keep_if keep (x ∷ xs) = let rest = keep_if keep xs in if keep x then x ∷ rest else rest

-- The entries of a directory, `none` where listing it raises OSError.
unfoldable pub list_dir : Option (List Text) → List Text
unfolding is_candidate keep_if
list_dir none = []
list_dir (some entries) = keep_if is_candidate entries

-- s < t, by code points
unfoldable pub lt_text : Text → Text → Bool
lt_text s [] = false
lt_text [] (d ∷ t) = true
lt_text (c ∷ s) (d ∷ t) = ltb c d || (eqb c d && lt_text s t)

abbrev pub Script : Type 0
Script = Text × Text

-- The stable sort by the second component: a script goes before those that are not less.
unfoldable pub insert_script : Script → List Script → List Script
insert_script x [] = x ∷ []
insert_script x (y ∷ ys) =
    let rest = insert_script x ys in if lt_text y.1 x.1 then y ∷ rest else x ∷ y ∷ ys

unfoldable pub sort_scripts : List Script → List Script
unfolding insert_script
sort_scripts [] = []
sort_scripts (x ∷ xs) = insert_script x (sort_scripts xs)

-- The survivors of the shadowing, as pairs of directory and filename, before they are sorted. A
-- directory is a function that lists it.
unfoldable pub survivors : (system_dir user_dir : Text) → (Text → Option (List Text)) → List Script
survivors system_dir user_dir listing =
    let user_entries = list_dir (listing user_dir) in
    let user_stems = map stem user_entries in
    let system_entries =
      keep_if (λ name. not (contains (stem name) user_stems)) (list_dir (listing system_dir)) in
    map (λ name. (user_dir, name)) user_entries ++ map (λ name. (system_dir, name)) system_entries

unfoldable pub resolve_hook_scripts :
    (system_dir user_dir : Text) → (Text → Option (List Text)) → List Script
resolve_hook_scripts system_dir user_dir listing =
    sort_scripts (survivors system_dir user_dir listing)

-- The mode of `path.stat()`, `none` where it raises OSError.
unfoldable pub is_eligible : Option ℕ → Bool
is_eligible none = false
is_eligible (some st_mode) =
    if not (eqb (bit_and st_mode 0o170000) 0o100000)
    then false
    else if eqb (bit_and st_mode 0o111) 0
    then false
    else if not (eqb (bit_and st_mode 0o022) 0)
    then false
    else if not (eqb (bit_and st_mode 0o6000) 0)
    then false
    else true

-- key.upper(), for the keys that the daemon passes
abbrev upper : ℕ → ℕ
upper c = if leb b'a' c && leb c b'z' then c - 32 else c

unfoldable pub add_extras : List (Text × Option Text) → Dict Text → Dict Text
add_extras [] env = env
add_extras ((key, none) ∷ extras) env = add_extras extras env
add_extras ((key, some value) ∷ extras) env =
    add_extras extras
      (if is_nonempty value then insert (text "UPLINKMGR_" ++ map upper key) value env else env)

abbrev pub hook_path : Text
hook_path = text "/usr/local/sbin:/usr/local/bin:/usr/sbin:/usr/bin:/sbin:/bin"

-- The environment of an event, at the time that `time.strftime` gives.
unfoldable pub build_env : Event → (timestamp state_dir config_path : Text) → Dict Text
unfolding add_extras
build_env e timestamp state_dir config_path =
    let env =
      (text "PATH", hook_path)
      ∷ (text "UPLINKMGR_EVENT", e.event)
      ∷ (text "UPLINKMGR_TIMESTAMP", timestamp)
      ∷ (text "UPLINKMGR_STATE_DIR", state_dir)
      ∷ (text "UPLINKMGR_CONFIG_PATH", config_path)
      ∷ [] in
    add_extras e.env_extra
      (if is_nonempty e.uplink then insert (text "UPLINKMGR_UPLINK") e.uplink env else env)

-- The scripts that `run_hooks_sync` executes for an event, in their order.
unfoldable pub scripts_to_run : (Script → Option ℕ) → List Script → List Script
unfolding is_eligible
scripts_to_run mode_of [] = []
scripts_to_run mode_of (s ∷ scripts) =
    let rest = scripts_to_run mode_of scripts in if is_eligible (mode_of s) then s ∷ rest else rest
