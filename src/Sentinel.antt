-- ===== src/Sentinel.antt =====
-- cmd/sentinel: from the registry to jobs, results, streaks and pull requests.
pub mod Jobs
pub mod Probe
pub mod Startup
pub mod Streaks
pub mod ChainDeath
pub mod Evidence
pub mod Flows
pub mod Workers
pub mod Summary
