-- ===== src/Relay.antt =====
-- ao_relay.py: the relay from native AO workers to the orchestrators of their projects.
pub mod Store
pub mod Messages
pub mod Repeats
pub mod Rounds
pub mod Choice
pub mod Targets
