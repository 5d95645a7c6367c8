-- ===== src/System.antt =====
-- src/system/system.service.ts: the accounts of the tablets at an organisation's doors.
pub mod Accounts
pub mod Sessions
pub mod Passwords
pub mod Exclusive
pub mod Release
pub mod Codes
pub mod Tests
