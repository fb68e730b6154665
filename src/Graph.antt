-- ===== src/Graph.antt =====
-- graph.py
pub mod State
pub mod World
pub mod Capacity
pub mod Routing
pub mod Spawn
pub mod Acquire
pub mod Watch
pub mod Review
pub mod Delivery
pub mod Run
pub mod Effects
pub mod Reservations
pub mod Pending
pub mod Approvals
pub mod Watchdog
pub mod Sanctions
pub mod Shadow
pub mod Locks
pub mod Termination
pub mod MergeSafety
pub mod MergeTrace
