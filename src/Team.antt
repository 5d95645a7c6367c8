-- ===== src/Team.antt =====
-- src/team/team.service.ts: the teams of an organisation, their members, and who reports to whom.
pub mod Model
pub mod Access
pub mod Members
pub mod Reporting
pub mod Requests
pub mod Hierarchy
pub mod Tests
