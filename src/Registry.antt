-- ===== src/Registry.antt =====
-- registry.py: the global registry of accounts, model profiles and projects.
pub mod Stored
pub mod Records
pub mod Projects
mod Lookup
pub mod Consistency
pub mod Edits
pub mod RoundTrip
pub mod Pools
mod ProjectLookup
mod Assignments
