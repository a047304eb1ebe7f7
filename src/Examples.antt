-- ===== src/Examples.antt =====
-- A small registry, and the theorems at it.
mod Data
mod Chains
mod Runs
mod Death
mod Flows
mod Files
mod Edits
mod Startup
mod Saved
mod Pool
mod Probed
mod Reported
mod Opened
mod Hashes
