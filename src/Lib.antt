-- ===== src/Lib.antt =====
-- The services of the visitor and attendance management backend (NestJS over Prisma and PostgreSQL),
-- modelled from their TypeScript sources.
--
-- An HTTP request reaches a controller, passes the guards of src/guard, and calls one method of a
-- service; the services share the database, whose tables prisma/schema.prisma declares. The state
-- of a service's model is a record of the tables that it uses (Attendance.Model.Db, Visit.Model.Db,
-- and so on), a table is the list of its rows, and a method is an action: a function from the state
-- to a result and the next state, which throws an exception of @nestjs/common as a value. What was
-- written before a throw stays written, except inside `$transaction`, which rolls back.
--
-- Base           tests on numbers, identifiers, requests (Base.Request), the queries of the Prisma
--                client on lists of rows (Base.Table), strings (Base.Text), roles (Base.Role)
-- Attendance     src/attendance/attendance.service.ts: getStateForScan, recalcTotals, scan, action
--                and its five handlers, with one definition for each (get_state_for_scan,
--                recalc_totals, scan, action, handle_punch_in, ...). Each transaction is a definition
--                of its own. Totals, Actions and Scan have their theorems below them.
-- Visit          src/visit/visit.service.ts: startVisit, endVisit, endVisitQr, acceptVisit,
--                rejectVisit, resendVisitNotification, checkMeetingStatus. Visit.Requests joins those
--                that change the tables into one type of requests and runs sequences of them.
-- Team           src/team/team.service.ts: addTeam, editTeam, addMembers, removeMember, deleteTeam
--                (Team.Members), setReporting, setReportingBulk, removeReporting (Team.Reporting).
--                Team.Requests joins them into one type of requests; Team.Hierarchy says what the
--                checks are for. The rows that a foreign key's cascade deletes are deleted with
--                the row that they refer to.
-- Auth           src/auth/auth.service.ts: loginUser (Auth.Login), refreshAccessToken and logout
--                (Auth.Tokens), registerRootUser, forgotPassword, resetPassword and
--                changeOldPassword (Auth.Passwords); src/guard: AuthGuard and UserRoleGuard
--                (Auth.Guard). bcrypt's hash and compare, the signing and the verification of JSON
--                web tokens are inputs, and the theorems name what they suppose of them.
-- src/plan/plan.service.ts is in the module Plan: createPlan, updatePlan,
--                updatePlanFeatures and softDeletePlan.
-- Hours          the working hours of organisations and of staff, one row for each day of the week
--                (src/organization/organization.service.ts, src/staff/staff.service.ts).
-- Organization   src/organization/organization.service.ts: createOrganization,
--                editOrganizationDetails, deleteOrganization (Organization.Manage),
--                updateSubscription and the getters (Organization.Subscriptions).
--                Organization.Requests joins the requests to organisations and to system
--                accounts, which share their tables, and runs sequences of them.
-- System         src/system/system.service.ts: the accounts and their codes (System.Accounts), logins,
--                refreshes and logouts (System.Sessions), forgotPassword and resetPassword
--                (System.Passwords).
-- Catalog        src/department/department.service.ts and src/reason/reason.service.ts, whose
--                methods have the same shape; their common parts are definitions of Catalog.
-- Staff          src/staff/staff.service.ts: generateUniqueEmployeeCode and
--                generateOneTimePassword (Staff.Codes), addStaffMember and addStaffBulk
--                (Staff.Add), editStaffMemberDetails and deleteStaffMember (Staff.Edit), the
--                getters (Staff.Views). The loop of generateUniqueEmployeeCode runs over a list of
--                random draws, which is its fuel: a draw that finds no code is the loop still
--                running, and Staff.Codes.Termination says how many draws are enough.
-- Visit.Listings the requests of src/visit/visit.service.ts that read visits (from getVisitDetails to
--                allCompletedVisitsStaff, and getSelfVisit, getRejectedVisits, getPendingVisits).
-- Visit.Analytics src/visit/visit.analytics.service.ts, and getVisitorsPerDepartment: the objects that
--                its loops fill are lists of entries in the order of JavaScript's keys, the keys
--                that every object inherits being left out; the sort is stable; what Date's setters
--                give for the start of a period is a parameter.
-- Notification   src/notifications/notifications.service.ts, on the tables of Visit.Listings.
--
-- Conventions. An identifier, a token or a code is only compared by the program: it is a natural
-- number, and 0 stands for the empty string, which JavaScript takes for false. A time is a number of
-- milliseconds after the epoch. `new Date(text)` is a value of Attendance.Model.Date, a time or the
-- invalid date, so the parsing of dates is left to JavaScript. Names and e-mails are lists of code
-- units; lower case is that of ASCII. Identifiers that the database generates, the clock, luxon's
-- midnight in a time zone, the mail server, the picture store and the QR code are fields of the
-- environment of a request (Env), and no theorem assumes more of them than it states.
--
-- The result of a Prisma query is its documented meaning on the rows: `findFirst` and `findUnique` give
-- a row that fits, `update` by a unique key changes the row that `findUnique` gives, `updateMany` and
-- `deleteMany` reach all rows that fit. Where a query asks for no order, the order of the list stands
-- for the order that the database happens to return; the theorems hold for tables in any order.
-- Relations that a query includes are read from the other tables where the code uses them.
--
-- All functions are total by structural recursion. Loops are recursions over the
-- rows, the events or the requests.
--
-- Not modelled: the controllers, which pass fields of the request on; the module wiring; the mail
-- texts; the Excel exports, except for the totals that one of them computes; the web socket gateway
-- beyond the message that a service hands it; bcrypt, JSON web tokens, AWS S3 and luxon.
pub mod Base
pub mod Attendance
pub mod Visit
pub mod Team
pub mod Auth
pub mod Plan
pub mod Hours
pub mod Organization
pub mod System
pub mod Catalog
pub mod Staff
pub mod Notification
