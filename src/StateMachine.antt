-- ===== src/StateMachine.antt =====
-- The reachability state machine of one uplink (src/uplinkmgr/statemachine.py). The two families
-- have fields of the same shape in `UplinkState`; `getattr(state, proto)` and its `setattr` are
-- `link_of` and `with_link`, which read and write the three fields of one family.
pub mod Hysteresis
use uplinkmgr.Prelude.{ℕ, ◌+◌, Bool, true, false, ◌&&◌, if◌then◌else◌, Text, ℤ, pos, leb_ℤ}

pub data LinkState : Type 0 where
  up down : LinkState

pub LinkState-discrete : Discrete LinkState
LinkState-discrete = hlevel

-- current == LinkState.UP, current == LinkState.DOWN
abbrev pub is_up : LinkState → Bool
is_up up = true
is_up down = false

abbrev pub is_down : LinkState → Bool
is_down up = false
is_down down = true

pub data Family : Type 0 where
  ipv4 ipv6 : Family

pub record UplinkState : Type 0 where
  pub name : Text
  pub ipv4 : LinkState
  pub ipv6 : LinkState
  pub ipv4_consecutive_failures : ℕ
  pub ipv4_consecutive_successes : ℕ
  pub ipv6_consecutive_failures : ℕ
  pub ipv6_consecutive_successes : ℕ

-- UplinkState(name=...), with the defaults of the other fields
unfoldable pub initial : Text → UplinkState
initial n = record {
  name = n;
  ipv4 = up;
  ipv6 = up;
  ipv4_consecutive_failures = 0;
  ipv4_consecutive_successes = 0;
  ipv6_consecutive_failures = 0;
  ipv6_consecutive_successes = 0;
}

-- The attributes that `_update_link` reaches by the name of a family.
pub record Link : Type 0 where
  pub state : LinkState
  pub failures : ℕ
  pub successes : ℕ

unfoldable pub link_of : Family → UplinkState → Link
link_of ipv4 s = record {
  state = s.ipv4;
  failures = s.ipv4_consecutive_failures;
  successes = s.ipv4_consecutive_successes;
}
link_of ipv6 s = record {
  state = s.ipv6;
  failures = s.ipv6_consecutive_failures;
  successes = s.ipv6_consecutive_successes;
}

unfoldable pub with_link : Family → Link → UplinkState → UplinkState
with_link ipv4 l s = record s {
  ipv4 = l.state;
  ipv4_consecutive_failures = l.failures;
  ipv4_consecutive_successes = l.successes;
}
with_link ipv6 l s = record s {
  ipv6 = l.state;
  ipv6_consecutive_failures = l.failures;
  ipv6_consecutive_successes = l.successes;
}

module _ (failure_threshold recovery_threshold : ℤ) where
  -- The body of `_update_link` on the attributes of its family: the new ones, and the result.
  unfoldable pub step_link : Bool → Link → Link × Bool
  step_link true l =
      let successes = l.successes + 1 in
      if is_down l.state && leb_ℤ recovery_threshold (pos successes)
      then (record { state = up; failures = 0; successes = 0 }, true)
      else (record { state = l.state; failures = 0; successes = successes }, false)
  step_link false l =
      let failures = l.failures + 1 in
      if is_up l.state && leb_ℤ failure_threshold (pos failures)
      then (record { state = down; failures = 0; successes = 0 }, true)
      else (record { state = l.state; failures = failures; successes = 0 }, false)

  unfoldable pub update_link : UplinkState → Family → Bool → UplinkState × Bool
  unfolding link_of with_link step_link
  update_link s proto ok =
      let (l, changed) = step_link ok (link_of proto s) in (with_link proto l s, changed)

  -- The new state, ipv4_changed and ipv6_changed.
  unfoldable pub update : UplinkState → Bool → Bool → Bool → UplinkState × Bool × Bool
  unfolding update_link
  update s ipv4_ok ipv6_ok ipv6_enabled =
      let (s', ipv4_changed) = update_link s ipv4 ipv4_ok in
      let (s'', ipv6_changed) = update_link s' ipv6 ipv6_ok in
      if ipv6_enabled then (s'', ipv4_changed, ipv6_changed) else (s', ipv4_changed, false)
