-- ===== src/Attendance/Scan.antt =====
-- `getStateForScan` and `scan`: what a person may do next.
pub mod Allowed
pub mod Transitions
use vms_backend_testing.Base.{
  ℕ, String, Bool, true, false, ◌&&◌, Option, none, some, List, [], ◌∷◌, ltb, ◌==◌, if◌then◌else◌,
  Ident, present,
}
use vms_backend_testing.Base.Text.{Text}
use vms_backend_testing.Base.Request.{
  Action, bad_request, internal, ◌>>=◌, ◌>>◌, pure, gets, or_throw,
}
use vms_backend_testing.Base.Role.{Role}
use vms_backend_testing.Base.Table.{find_first, find_latest}
use vms_backend_testing.Attendance.Model.{
  EventType, SessionStatus, opened, closed, Event, Session, Staff, Db, Env, Date, ActionName,
  ScanAttendanceDto,
}
use vms_backend_testing.Attendance.Access.{
  find_organization, check_system, get_staff_by_employee_code,
}
use vms_backend_testing.Attendance.Sessions.{
  find_timezone, start_of_org_day, is_opened, is_open_before, last_event, valid_time,
}

pub data AttendanceState : Type 0 where
  no_session_today working on_break previous_session_open day_completed : AttendanceState

pub record ScanState : Type 0 where
  pub state : AttendanceState
  pub session : Option Session
  pub last_event : Option Event

abbrev no_session : AttendanceState → ScanState
no_session st = record { state = st; session = none; last_event = none }

-- The person's state by the last event of today's session.
state_after : Session → Option Event → ScanState
state_after s none = no_session no_session_today
state_after s (some e) = elim e.event_type [
  | EventType.break_start ↦ record { state = on_break; session = some s; last_event = some e }
  | EventType.punch_in ↦ record { state = working; session = some s; last_event = some e }
  | EventType.break_end ↦ record { state = working; session = some s; last_event = some e }
  | _ ↦ no_session no_session_today
]

state_today : Option Session → Db → ScanState
unfolding state_after last_event
state_today none db = no_session no_session_today
state_today (some s) db =
    if is_opened s.status then state_after s (last_event s.id db) else no_session day_completed

state_of : Option Session → Option Session → Db → ScanState
unfolding state_today
state_of (some old) today db = record {
  state = previous_session_open;
  session = some old;
  last_event = none;
}
state_of none today db = state_today today db

abbrev pub is_session_on : Ident → ℕ → Session → Bool
is_session_on staff_id today s = s.staff_id == staff_id && s.date == today

unfoldable pub find_open_old : Ident → ℕ → Db → Option Session
find_open_old staff_id today db =
    find_latest (λ s. s.date) (is_open_before staff_id today) db.sessions

unfoldable pub find_today : Ident → ℕ → Db → Option Session
find_today staff_id today db = find_first (is_session_on staff_id today) db.sessions

abbrev find_org_of : Option Staff → Db → Option Ident
unfolding find_timezone
find_org_of none db = none
find_org_of (some s) db = find_timezone s.org_id db

-- `staff?.organization?.timezone`
staff_timezone : Ident → Db → Option Ident
unfolding find_timezone
staff_timezone staff_id db = find_org_of (find_first (λ s. s.id == staff_id) db.staff) db

-- The state once the day in question is known.
unfoldable pub state_on : Ident → ℕ → Db → ScanState
unfolding state_of
state_on staff_id today db =
    state_of (find_open_old staff_id today db) (find_today staff_id today db) db

unfoldable pub get_state_for_scan : Env → Ident → ℕ → Action Db ScanState
unfolding staff_timezone start_of_org_day state_on
get_state_for_scan env staff_id now = do
  found ← gets (staff_timezone staff_id)
  tz ← or_throw found (bad_request "Organization timezone not configured")
  gets (state_on staff_id (start_of_org_day env now tz))

pub record ScanReply : Type 0 where
  pub staff_id : Ident
  pub staff_name : Text
  pub state : AttendanceState
  pub session_id : Option Ident
  pub previous_date : Option Text
  pub allowed_actions : List ActionName
  pub message : Option String

abbrev session_id_of : Option Session → Option Ident
session_id_of none = none
session_id_of (some s) = some s.id

abbrev pub allowed_actions_in : AttendanceState → List ActionName
allowed_actions_in no_session_today = ActionName.punch_in ∷ []
allowed_actions_in working = ActionName.break_start ∷ ActionName.punch_out ∷ []
allowed_actions_in on_break = ActionName.break_end ∷ []
allowed_actions_in previous_session_open = ActionName.late_punch_out_and_punch_in ∷ []
allowed_actions_in day_completed = []

abbrev reply_to : Staff → ScanState → Option Text → Option String → ScanReply
reply_to staff st previous_date message = record {
  staff_id = staff.id;
  staff_name = staff.name;
  state = st.state;
  session_id = session_id_of st.session;
  previous_date = previous_date;
  allowed_actions = allowed_actions_in st.state;
  message = message;
}

-- `DateTime.fromJSDate(session.date).setZone(tz).toISODate()`
abbrev previous_date_of : Env → Ident → Option Session → Option Text
previous_date_of env tz none = none
previous_date_of env tz (some s) = some (env.to_iso_date tz s.date)

reply_for : AttendanceState → Env → Option Ident → Staff → ScanState → Action Db ScanReply
reply_for previous_session_open env timezone staff st = do
  tz ← or_throw timezone (bad_request "Organization timezone not configured")
  pure (
      reply_to staff st (previous_date_of env tz st.session) (
        some
          "You forgot to punch out on previous day. Please enter your approximate punch-out time and reason."))
reply_for day_completed env timezone staff st =
    pure (reply_to staff st none (some "You have already completed attendance for today."))
reply_for _ env timezone staff st = pure (reply_to staff st none none)

-- A time of scan that is no time never reaches the database: Prisma refuses the query.
unfoldable pub scan : Env → Ident → Ident → Role → ScanAttendanceDto → Action Db ScanReply
unfolding reply_for
scan env org_id system_id role dto = do
  org ← check_system org_id system_id role
  staff ← get_staff_by_employee_code org_id dto.employee_code dto.email
  now ←
      valid_time dto.scan_time (internal "Invalid value for date: Provided Date object is invalid.")
  st ← get_state_for_scan env staff.id now
  reply_for st.state env (present org.timezone) staff st
