-- ===== src/Organization.antt =====
-- The organisations and what belongs to them: src/organization/organization.service.ts, and the
-- tables that it shares with src/system/system.service.ts.
pub mod Model
pub mod Manage
pub mod Subscriptions
pub mod Requests
pub mod Limits
pub mod Effects
pub mod Tests
