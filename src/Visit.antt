-- ===== src/Visit.antt =====
-- src/visit/visit.service.ts: the life of a visit, from the visitor's request to the check-out.
pub mod Model
pub mod Access
pub mod Start
pub mod Finish
pub mod Decide
pub mod Remind
pub mod Evolution
pub mod Requests
pub mod Listings
pub mod Analytics
pub mod Tests
