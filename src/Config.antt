-- ===== src/Config.antt =====
-- The configuration that the components share (src/uplinkmgr/config.py, the dataclasses). The
-- source's `int` is ℤ; `index` is a position in a list, and so a natural number.
pub mod Yaml
pub mod Names
pub mod Load
pub mod Valid
pub mod Loaded
pub mod Accepting
pub mod Render
pub mod Typed
pub mod Decided
use uplinkmgr.Prelude.{ℕ, Bool, List, Text, ℤ}

pub record MonitorConfig : Type 0 where
  pub interval : ℤ
  pub failure_threshold : ℤ
  pub recovery_threshold : ℤ
  pub v4_hosts : List Text
  pub v6_hosts : List Text
  pub ping_count : ℤ

pub record NetworkConfig : Type 0 where
  pub name : Text
  pub interface : Text

pub record UplinkConfig : Type 0 where
  pub name : Text
  pub interface : Text
  pub ipv6_pd : Bool
  pub ipv6_pd_hint : ℤ
  pub ia_na : Bool
  pub metric : ℤ
  pub index : ℕ

pub record Config : Type 0 where
  pub routing_table_start : ℤ
  pub rule_priority_start : ℤ
  pub reject_wrong_pd_src : Bool
  pub exclusive_preferred_pd : Bool
  pub radvd_min_restart_interval : ℤ
  pub hook_timeout : ℤ
  pub monitor : MonitorConfig
  pub networks : List NetworkConfig
  pub uplinks : List UplinkConfig
