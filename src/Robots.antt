-- ===== src/Robots.antt =====
-- Robots rules and access decisions: domain/robots_rules.py and its users.
pub mod Patterns
pub mod Canonical
pub mod Rules
pub mod Access
pub mod Cache
