-- ===== src/Service.antt =====
-- service.py: the background service.
pub mod Decisions
pub mod Delivery
pub mod Replay
pub mod System
pub mod Targets
pub mod Jobs
pub mod Notices
pub mod Reconcile
pub mod Outcomes
mod Claims
