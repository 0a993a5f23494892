-- ===== src/Procrun.antt =====
-- The line by which a command is logged (src/uplinkmgr/procrun.py). `shlex.quote` and `shlex.join` are
-- parameters.
use uplinkmgr.Prelude.{List, [], ◌∷◌, ◌++◌, map, Text, text, Dict}
use uplinkmgr.Generator.{join}

unfoldable pub format_command :
    (quote : Text → Text)
    → (shell_join : List Text → Text) → (cmd : List Text) → (env : Dict Text) → Text
unfolding join
format_command quote shell_join cmd env =
    let parts = map (λ (k, v). k ++ text "=" ++ quote v) env in
    join (text " ") (parts ++ shell_join cmd ∷ [])
