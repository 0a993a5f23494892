-- ===== src/Hooks/Run.antt =====
-- Running the scripts of one event (`run_hooks_sync` and `_run_one` of src/uplinkmgr/hooks.py).
use uplinkmgr.Prelude.{
  List, [], ◌∷◌, ◌++◌, Bool, true, false, not, Option, none, some, Text, text, Dict, ℕ, ℤ,
  if◌then◌else◌,
}
use uplinkmgr.Effect.{Event}
use uplinkmgr.Hooks.{Script, resolve_hook_scripts, is_eligible, build_env}

-- How the system treats a script: whether it can be executed, whether it ends within a timeout, and
-- whether its process group is found when it is to be killed.
pub record Child : Type 0 where
  pub starts : Bool
  pub ends_within : ℤ → Bool
  pub has_group : Bool

-- What is done with processes: `communicate` without a timeout is `reap`. A spawn that raises OSError
-- leaves no process.
pub data Act : Type 0 where
  spawn : (argv : List Text) → (env : Dict Text) → (starts : Bool) → Act
  communicate : (timeout : ℤ) → (ends : Bool) → Act
  kill_group : (found : Bool) → Act
  reap : Act

-- str(Path(directory) / name)
abbrev pub path_of : Script → Text
path_of (directory, name) = directory ++ text "/" ++ name

abbrev pub command_of : Event → Script → List Text
command_of e s = path_of s ∷ e.event ∷ e.uplink ∷ []

unfoldable pub run_one : Script → Event → Dict Text → (timeout : ℤ) → Child → List Act
run_one s e env timeout child =
    let killed = kill_group child.has_group ∷ reap ∷ [] in
    let waited =
      communicate timeout (child.ends_within timeout)
      ∷ (if child.ends_within timeout then [] else killed) in
    spawn (command_of e s) env child.starts ∷ (if child.starts then waited else [])

-- The loop over the scripts, with the modes that `stat` gives and the processes as they behave.
unfoldable pub run_scripts :
    Event
    → Dict Text
    → (timeout : ℤ) → (Script → Option ℕ)
    → (Script → Child)
    → List Script
    → List Act
unfolding is_eligible run_one
run_scripts e env timeout mode_of child_of [] = []
run_scripts e env timeout mode_of child_of (s ∷ scripts) =
    let rest = run_scripts e env timeout mode_of child_of scripts in
    if is_eligible (mode_of s) then run_one s e env timeout (child_of s) ++ rest else rest

module _ (system_dir user_dir state_dir config_path : Text) (listing : Text → Option (List Text))
    (mode_of : Script → Option ℕ) (child_of : Script → Child) where
  unfoldable pub run_hooks_sync : Event → (timestamp : Text) → (timeout : ℤ) → List Act
  unfolding build_env resolve_hook_scripts run_scripts
  run_hooks_sync e timestamp timeout =
      run_scripts e (build_env e timestamp state_dir config_path) timeout mode_of child_of
        (resolve_hook_scripts system_dir user_dir listing)

-- The commands that are tried, with their environments.
abbrev pub spawned : List Act → List (List Text × Dict Text)
spawned [] = []
spawned (spawn argv env starts ∷ acts) = (argv, env) ∷ spawned acts
spawned (_ ∷ acts) = spawned acts

-- Whether a process runs after some acts, from whether one did before; `none` if one is started or
-- waited for out of turn.
abbrev pub running : Bool → List Act → Option Bool
running b [] = some b
running false (spawn argv env starts ∷ acts) = running starts acts
running true (communicate timeout ends ∷ acts) = running (not ends) acts
running true (kill_group found ∷ acts) = running true acts
running true (reap ∷ acts) = running false acts
running b (a ∷ acts) = none
