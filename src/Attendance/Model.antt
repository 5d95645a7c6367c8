-- ===== src/Attendance/Model.antt =====
-- The tables of prisma/schema.prisma that the attendance service reads and writes, with the columns
-- that it uses, and its inputs (src/dto/attendance.dto.ts). A time is a number of milliseconds.
use vms_backend_testing.Base.{ℕ, Bool, Option, List, Ident}
use vms_backend_testing.Base.Text.{Text}

pub data EventType : Type 0 where
  punch_in punch_out break_start break_end late_punch_out : EventType

-- OPEN and CLOSED (`open` is a reserved word)
pub data SessionStatus : Type 0 where
  opened closed : SessionStatus

pub data ClosureType : Type 0 where
  normal late : ClosureType

pub record Event : Type 0 where
  pub id : Ident
  pub org_id : Ident
  pub staff_id : Ident
  pub session_id : Option Ident
  pub event_type : EventType
  pub timestamp : ℕ
  pub is_correction : Bool
  pub correction_note : Option Text

pub record Session : Type 0 where
  pub id : Ident
  pub org_id : Ident
  pub staff_id : Ident
  pub date : ℕ
  pub status : SessionStatus
  pub closure_type : Option ClosureType
  pub is_late_closure : Bool
  pub late_punch_out_reason : Option Text
  pub late_punch_out_recorded_at : Option ℕ
  pub first_punch_in_at : Option ℕ
  pub last_punch_out_at : Option ℕ
  pub total_work_seconds : ℕ
  pub total_break_seconds : ℕ

pub record Organization : Type 0 where
  pub id : Ident
  pub timezone : Option Ident

pub record SystemCredential : Type 0 where
  pub id : Ident
  pub org_id : Ident

pub record Staff : Type 0 where
  pub id : Ident
  pub org_id : Ident
  pub name : Text
  pub email : Ident
  pub employee_code : Option Ident
  pub badge_active : Bool

pub record Db : Type 0 where
  pub organizations : List Organization
  pub systems : List SystemCredential
  pub staff : List Staff
  pub sessions : List Session
  pub events : List Event

-- What `new Date(…)` makes of a text: a time, or the invalid date, whose `getTime` is NaN.
pub data Date : Type 0 where
  at : ℕ → Date
  invalid : Date

-- A request's own inputs: the clock, the identifiers that the database generates, and luxon's
-- midnight of a time in a zone and ISO date of a time in a zone.
pub record Env : Type 0 where
  pub now : ℕ
  pub uuid : ℕ → Ident
  pub start_of_day : Ident → ℕ → ℕ
  pub to_iso_date : Ident → ℕ → Text

pub data ActionName : Type 0 where
  punch_in break_start break_end punch_out late_punch_out_and_punch_in other : ActionName

-- The optional texts of a request, read by `new Date` where the code does so.
pub record AttendanceActionDto : Type 0 where
  pub employee_code : Ident
  pub action : ActionName
  pub session_id : Option Ident
  pub time : Option Date
  pub previous_session_id : Option Ident
  pub approx_punch_out_time : Option Date
  pub reason : Option Text
  pub current_punch_in_time : Option Date

pub record ScanAttendanceDto : Type 0 where
  pub employee_code : Option Ident
  pub email : Option Ident
  pub scan_time : Date
