-- ===== src/Attendance.antt =====
-- src/attendance/attendance.service.ts: sessions, their events and the five actions on them.
pub mod Model
pub mod Totals
pub mod Access
pub mod Sessions
pub mod Actions
pub mod Scan
pub mod Tests
