-- ===== src/Daemon/Process.antt =====
-- What the daemon tells other processes, and asks of them (src/uplinkmgr/daemon.py): its PID file, the
-- debug flag for the dhcpcd hook, and whether dhcpcd runs.
use uplinkmgr.Prelude.{
  ◌++◌, Bool, true, false, Option, none, some, Text, text, ℤ, insert, delete, if◌then◌else◌,
}
use uplinkmgr.Prelude.Decimal.{str_ℤ}
use uplinkmgr.State.{strip, int_of}
use uplinkmgr.State.Atomic.{Mishap, write_atomic}
use uplinkmgr.Naming.{hook_debug_env_path, hook_log_path}
use uplinkmgr.Generator.{newline}
use uplinkmgr.Generator.Disk.{Disk, file}

-- What `os.kill(pid, 0)` does: it returns, or raises one of the three.
pub data Kill : Type 0 where
  returns no_process no_permission other_error : Kill

abbrev answers : Kill → Bool
answers returns = true
answers no_process = false
answers no_permission = true
answers other_error = false

abbrev asks : (ℤ → Kill) → Option ℤ → Bool
asks kill none = false
asks kill (some pid) = answers (kill pid)

-- From the text of the PID file of dhcpcd, `none` where reading it raises OSError.
unfoldable pub dhcpcd_is_running : (ℤ → Kill) → Option Text → Bool
unfolding strip int_of
dhcpcd_is_running kill none = false
dhcpcd_is_running kill (some content) = asks kill (int_of (strip content))

unfoldable pub write_pid : (state_dir : Text) → (pid : ℤ) → Disk → Disk
unfolding str_ℤ
write_pid state_dir pid disk =
    insert (state_dir ++ text "/uplinkmgr.pid") (file (str_ℤ pid ++ newline)) disk

unfoldable pub write_hook_debug_flag : (state_dir : Text) → (debug : Bool) → Mishap → Disk → Disk
unfolding write_atomic hook_debug_env_path hook_log_path
write_hook_debug_flag state_dir debug how disk =
    let path = hook_debug_env_path state_dir in
    let flag = text "UPLINKMGR_HOOK_LOG=" ++ hook_log_path state_dir ++ newline in
    if debug then write_atomic path flag how disk else delete path disk
