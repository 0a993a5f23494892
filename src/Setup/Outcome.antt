-- ===== src/Setup/Outcome.antt =====
-- What surrounds a run of bin/uplinkmgr-setup, and how it ends.
use uplinkmgr.Prelude.{List, Bool, Option, none, some, Text, ℤ}
use uplinkmgr.Config.Yaml.{Failure, Result, ok, err}
use uplinkmgr.Naming.{Validation}
use uplinkmgr.Generator.Disk.{Disk}

-- The messages of the two `_die`, of config.py and of the script.
pub data Fault : Type 0 where
  bad_config : Failure → Fault
  bad_names : Validation → Fault
  number_used : ℤ → (path : Text) → Fault
  name_used : (name path : Text) → Fault

-- `raised` is an exception that nothing catches.
pub data Run {ℓ} (A : Type ℓ) : Type ℓ where
  done : A → Run A
  died : Fault → Run A
  raised : Run A

infixl 5 ◌>>=◌
abbrev pub ◌>>=◌ {ℓ κ} : {A : Type ℓ} {B : Type κ} → Run A → (A → Run B) → Run B
done a >>= f = f a
died c >>= f = died c
raised >>= f = raised

-- A ValueError that is not caught.
abbrev pub from_option {ℓ} : {A : Type ℓ} → Option A → Run A
from_option none = raised
from_option (some a) = done a

-- The script ends with the message that `load` dies with; its other exceptions are not caught.
abbrev pub from_result {ℓ} : {A : Type ℓ} → Result A → Run A
from_result (ok a) = done a
from_result (err (Failure.die c)) = died (bad_config (Failure.die c))
from_result (err other) = raised

-- What the program finds: the paths that a pattern of `glob` stands for, the text of a file outside
-- its own (`none` where `open` raises OSError), whether systemd runs, and what `list-units` prints
-- after the calls of systemctl so far.
pub record Outside : Type 0 where
  pub glob : Text → List Text
  pub read : Text → Option Text
  pub has_systemd : Bool
  pub list_units : List (List Text) → Text

-- What the program changes: the disk, and the calls of systemctl, the newest first.
pub record World : Type 0 where
  pub disk : Disk
  pub calls : List (List Text)

abbrev pub on_disk : (Disk → Disk) → World → World
on_disk f w = record w { disk = f w.disk }
