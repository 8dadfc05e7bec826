-- ===== src/Crawl.antt =====
-- The policy gate of recursive crawling, with the rights decisions that it asks for.
pub mod Rights
pub mod Eligibility
pub mod Gate
pub mod Coordinator
