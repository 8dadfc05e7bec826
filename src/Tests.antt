-- ===== src/Tests.antt =====
-- Small inputs on which the model runs, and the theorems at such inputs.
pub mod Samples
mod Acquisition
mod Traversal
pub mod Robots
mod Gate
mod Wallet
mod Batching
mod Citations
mod Jobs
mod Lineage
pub mod Resolution
mod Documents
