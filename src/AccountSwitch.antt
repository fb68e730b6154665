-- ===== src/AccountSwitch.antt =====
-- account_switch.py: the helper that waits for a session to come to rest, and then switches the account.
pub mod Helper
pub mod Waiting
pub mod Cleanup
