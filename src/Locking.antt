-- ===== src/Locking.antt =====
-- locking.py: the lock directory.
pub mod RoundTrip
pub mod Markers
pub mod Damage
pub mod Clearing
mod Contents
mod Records
mod Switch
unfoldable pub use Contents.*
unfoldable pub use Records.*
unfoldable pub use Switch.*
