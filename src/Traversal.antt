-- ===== src/Traversal.antt =====
-- The resumable crawl frontier of domain/traversal.py: `Target` and `Checkpoint` have the two
-- validated records. `Frontier`
-- adds and selects targets, and `Transitions` moves them through their statuses.
pub mod Target
pub mod Checkpoint
pub mod Frontier
pub mod Transitions
pub mod Lifecycle
pub mod Calls
