-- ===== src/Radvd/Lifetimes.antt =====
-- The lifetimes that a file of radvd shows (src/uplinkmgr/radvd.py, src/uplinkmgr/generator.py).
use uplinkmgr.Prelude.{
  ℕ, ◌≡◌, ◌∙◌, Bool, true, Option, none, some, Text, get_elem?, ℤ, pos, ◌≤ℤ◌, if◌then◌else◌, arith,
  int_laws, ◌-ℤ◌, max_ℤ, max_ℤ_bounds,
}
use uplinkmgr.Config.{Config, UplinkConfig}
use uplinkmgr.StateMachine.{UplinkState, is_down}
use uplinkmgr.State.{
  Ipv6RaState, Ipv6PdState, remaining, remaining_lifetime, remaining_vltime, remaining_pltime,
}
use uplinkmgr.Generator.Advert.{
  clamp_default_lifetime, initial_default_lifetime, initial_valid_lifetime,
  initial_preferred_lifetime,
}
use uplinkmgr.Generator.Lifetimes.{Allowed, clamp_default_lifetime-Allowed}
use uplinkmgr.Config.Loaded.{IsValid}
use uplinkmgr.Daemon.Booked.{IsNamed}
use uplinkmgr.Effect.{Trace}
use uplinkmgr.Naming.{radvd_conf_path}
use uplinkmgr.Radvd.{
  Ipaddress, RegenerateAction, left_of, is_secondary, advert_of, derive_prefixes, regenerate_all,
}
use uplinkmgr.Radvd.Files.{content_of, conf_of, regenerate_all-AreWritten}
use uplinkmgr.Radvd.Shown.{showing, conf_of-showing}

-- The delegation prefers the prefix for no longer than it is valid, as DHCPv6 demands.
abbrev pub IsOrdered : Option Ipv6PdState → Type 0
IsOrdered none = Unit
IsOrdered (some st) = st.pltime ≤ℤ st.vltime

-- Lifetimes that radvd takes: an AdvDefaultLifetime in its range, and a preferred lifetime from 0 to
-- the valid one.
pub record AreTaken (default valid preferred : ℤ) : Type 0 where
  pub router : Allowed default
  pub start : pos 0 ≤ℤ preferred
  pub order : preferred ≤ℤ valid

remaining-start : (l ts now : ℤ) → pos 0 ≤ℤ remaining l ts now
unfolding remaining
remaining-start l ts now = (max_ℤ_bounds (pos 0) (l -ℤ (now -ℤ ts))).0

remaining-order : (l m ts now : ℤ) → l ≤ℤ m → remaining l ts now ≤ℤ remaining m ts now
unfolding remaining max_ℤ
remaining-order l m ts now h = grind int_laws

-- Withdrawn from the clients or not.
withdrawn-order :
    (down secondary : Bool) (valid preferred : ℤ)
    → pos 0 ≤ℤ preferred
    → preferred ≤ℤ valid
    → (pos 0 ≤ℤ (if down then pos 0 else if secondary then pos 0 else preferred))
      × ((if down then pos 0 else if secondary then pos 0 else preferred)
          ≤ℤ (if down then pos 0 else valid))
withdrawn-order down secondary valid preferred h k = ground arith

module _ (cfg : Config) (states : Text → UplinkState) (now : ℤ) where
  abbrev pub valid_left : Option Ipv6PdState → ℤ
  valid_left pd_state =
      left_of cfg states (λ st. remaining_vltime st now) initial_valid_lifetime pd_state

  abbrev pub default_left : Option Ipv6RaState → ℤ
  default_left ra_state =
      left_of cfg states (λ st. remaining_lifetime st now) initial_default_lifetime ra_state

  abbrev pub preferred_left : Option Ipv6PdState → ℤ
  preferred_left pd_state =
      left_of cfg states (λ st. remaining_pltime st now) initial_preferred_lifetime pd_state

  -- What is left of a delegation, in order.
  left-order :
      (pd_state : Option Ipv6PdState)
      → IsOrdered pd_state
      → (pos 0 ≤ℤ preferred_left pd_state) × (preferred_left pd_state ≤ℤ valid_left pd_state)
  unfolding remaining_vltime remaining_pltime
  left-order none o = omega arith
  left-order (some st) o = (
    remaining-start st.pltime st.timestamp now,
    remaining-order st.pltime st.vltime st.timestamp now o,
  )

module _ (addresses : Ipaddress) (cfg : Config) (states : Text → UplinkState) (now : ℤ)
    (ra_of : Text → Option Ipv6RaState) (pd_of : Text → Option Ipv6PdState) where
  -- The file of an uplink in a trace shows lifetimes that radvd takes.
  pub record ShowsTaken (u : UplinkConfig) (after : Trace) : Type 0 where
    pub preference : Text
    pub default : ℤ
    pub valid : ℤ
    pub preferred : ℤ
    pub text_is :
        content_of (radvd_conf_path u.name) after
        ≡ showing cfg u
            (derive_prefixes addresses cfg u (pd_of u.name))
            preference
            default
            valid
            preferred
    pub taken : AreTaken default valid preferred

  conf_of-ShowsTaken :
      (u : UplinkConfig) (after : Trace)
      → IsOrdered (pd_of u.name)
      → content_of (radvd_conf_path u.name) after ≡ conf_of addresses cfg states now ra_of pd_of u
      → ShowsTaken u after
  unfolding advert_of
  conf_of-ShowsTaken u after o written =
      let a = advert_of cfg states now (ra_of u.name) (pd_of u.name) u in
      let default = if a.is_down then pos 0 else a.default_lifetime in
      let (start, order) = left-order cfg states now (pd_of u.name) o in
      let (start', order') =
        withdrawn-order (is_down (states u.name).ipv6) (is_secondary cfg states u)
          (valid_left cfg states now (pd_of u.name)) (preferred_left cfg states now (pd_of u.name))
          start order in
      record {
        preference = a.preference;
        default = clamp_default_lifetime default;
        valid = if a.is_down then pos 0 else a.valid_lifetime;
        preferred = if a.is_down then pos 0 else a.preferred_lifetime;
        text_is = written ∙ conf_of-showing addresses cfg states now ra_of pd_of u;
        taken = record {
          router = (clamp_default_lifetime-Allowed default).0;
          start = start';
          order = order';
        };
      }

  -- For a valid configuration whose networks have macvlan names of their own for every uplink, and an
  -- uplink of it with prefix delegation whose delegation prefers its prefix for no longer than it is
  -- valid: regenerating the files of radvd returns, and then the text of the file of this uplink
  -- shows lifetimes that radvd takes, as default lifetime 0 or from 300 to 9000, and a preferred
  -- lifetime that is at least 0 and no longer than the valid one.
  pub regenerate_all-AreTaken :
      IsValid cfg
      → IsNamed cfg
      → (action : RegenerateAction) (before : Trace) (i : ℕ) (u : UplinkConfig)
      → get_elem? cfg.uplinks i ≡ some u
      → u.ipv6_pd ≡ true
      → IsOrdered (pd_of u.name)
      → (after : Trace) × (regenerate_all addresses cfg states now ra_of pd_of action before
          ≡ some after)
        × ShowsTaken u after
  regenerate_all-AreTaken valid named action before i u at on o =
      let (after, e, w) =
        regenerate_all-AreWritten addresses cfg states now ra_of pd_of valid named action before in
      (after, e, conf_of-ShowsTaken u after o (w.own i u at on))
