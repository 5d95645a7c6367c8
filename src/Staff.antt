-- ===== src/Staff.antt =====
-- src/staff/staff.service.ts: the members of an organisation's staff and their credentials.
pub mod Model
pub mod Codes
pub mod Add
pub mod Edit
pub mod Views
pub mod Authority
pub mod Onboarding
pub mod Bulk
pub mod Superadmin
pub mod Tests
