-- ===== src/Graph/Watchdog.antt =====
-- How often the watchdog of reviews starts a review again.
pub mod Budget
mod Restarts
pub mod Inspection
