-- ===== src/Tests/Configs.antt =====
-- The configuration of the samples, loaded.
use uplinkmgr.Prelude.{refl, ◌≡◌, ◌==◌, [], text, contains, ◌+ℤ◌, Option, some, Text}
use uplinkmgr.Config.Yaml.{Yaml, ok, get, has}
use uplinkmgr.Config.Names.{is_name, is_iface, validate_iface}
use uplinkmgr.Naming.{chomp}
use uplinkmgr.Config.Load.{load, content}
use uplinkmgr.Config.Typed.{IsTypedSource, Decides}
use uplinkmgr.Config.Decided.{load-Decides}
use uplinkmgr.Config.Loaded.{IsValid, load-IsValid}
use uplinkmgr.Config.Render.{render, load-render}
use uplinkmgr.Tests.Samples.{home}

abbrev pub home_yaml : Text → Option Yaml
home_yaml s = some (render home)

abbrev pub no_repr : Yaml → Text
no_repr raw = []

pub home_loads : load home_yaml no_repr (content []) ≡ ok home
unfolding load text ◌==◌ get has is_name is_iface chomp validate_iface contains ◌+ℤ◌
home_loads = refl

load-IsValid_example : IsValid home
load-IsValid_example = load-IsValid no_repr home_yaml (content []) home home_loads

-- `home` is what `load` returns, whatever the text of the file.
pub home-IsValid : IsValid home
home-IsValid = load-IsValid no_repr home_yaml (content []) home home_loads

load-render_example : load home_yaml no_repr (content []) ≡ ok home
load-render_example = load-render no_repr home_yaml [] home refl home-IsValid

pub home-IsTypedSource : IsTypedSource home_yaml (content [])
unfolding text ◌==◌ get
home-IsTypedSource = (tt, tt, tt, tt, (tt, tt, tt, tt, tt, tt), (tt, tt, (tt, tt, tt)))

load-Decides_example : Decides (load home_yaml no_repr (content []))
load-Decides_example = load-Decides no_repr home_yaml (content []) home-IsTypedSource
