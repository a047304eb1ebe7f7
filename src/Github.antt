-- ===== src/Github.antt =====
-- internal/github: the client of the GitHub API, the edits of registry files and the opening of pull
-- requests.
pub mod Outcome
pub mod Call
pub mod Client
pub mod Documents
pub mod Body
pub mod EditChain
pub mod EditAssets
pub mod Open
