-- ===== src/Tests.antt =====
-- Concrete inputs: sample configurations and state files, and the theorems applied to them.
mod Samples
mod States
mod Names
mod Uplinks
mod Scripts
mod Adverts
mod Primaries
mod Configs
mod Daemons
mod Setups
