-- ===== src/Tests.antt =====
-- Runs of the model, and the theorems at concrete inputs.
mod Setup
mod Graph
mod Acquisition
mod Locking
mod Policy
mod Service
mod Notices
mod Registry
mod Relay
mod AccountSwitch
