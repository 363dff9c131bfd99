-- ===== src/Examples.antt =====
-- Tests, and the theorems applied to concrete inputs.
mod World
mod Runs
mod Rounds
mod Elections
mod Documents
mod Updates
mod Keepers
mod Silence
mod Proxies
mod Checks
mod Specs
mod Commands
mod Settling
mod Publishers
mod Detours
