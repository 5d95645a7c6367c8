-- ===== src/Attendance/Actions.antt =====
-- `action` and its five handlers.
pub mod Outcome
pub mod OpenSessions
pub mod Shape
use vms_backend_testing.Base.{
  ℕ, String, Bool, true, false, not, ◌||◌, Option, none, some, List, [], ◌∷◌, ◌++◌, leb, ltb, ◌==◌,
  if◌then◌else◌, Ident, present, is_ident,
}
use vms_backend_testing.Base.Text.{Text}
use vms_backend_testing.Base.Request.{
  Action, Exception, ok, err, bad_request, not_found, ◌>>=◌, ◌>>◌, pure, gets, or_throw, throw,
  throw_if, modify, transaction,
}
use vms_backend_testing.Base.Role.{Role}
use vms_backend_testing.Base.Table.{
  any, find_first, find_latest, find_many, order_by, create, update,
}
use vms_backend_testing.Attendance.Model.{
  EventType, SessionStatus, opened, closed, ClosureType, normal, late, Event, Session, Organization,
  Staff, Db, Date, at, invalid, Env, ActionName, AttendanceActionDto,
}
use vms_backend_testing.Attendance.Totals.{recalc_totals}
use vms_backend_testing.Attendance.Sessions.{
  is_opened, time_of, valid_time, date_ge, timezone_of, find_timezone, start_of_org_day,
  find_session, owned_by, find_own_session, events_of, last_event, is_open_before, is_open_on,
  new_session, new_event, add_session, add_event, update_session, is_working, is_on_break,
}
use vms_backend_testing.Attendance.Access.{check_system, get_staff_by_employee_code}

pub data Reply : Type 0 where
  punched_in : Ident → ℕ → Reply
  break_started break_ended punched_out : ℕ → Reply
  late_punched_out_and_in : Ident → Ident → ℕ → ℕ → Reply

-- The transaction of `handlePunchIn`.
unfoldable pub punch_in_transaction : Env → Ident → Ident → ℕ → ℕ → Action Db Reply
punch_in_transaction env staff_id org_id today time = transaction (do
  open_old_session ← gets (λ db. any (is_open_before staff_id today) db.sessions)
  throw_if open_old_session (bad_request "Previous day session is still open. Use late punch flow.")
  open_today ← gets (λ db. any (is_open_on staff_id today) db.sessions)
  throw_if open_today (bad_request "Already punched in today.")
  modify (add_session (new_session (env.uuid 0) org_id staff_id today time))
  modify (add_event (new_event (env.uuid 1) org_id staff_id (env.uuid 0) EventType.punch_in time))
  pure (punched_in (env.uuid 0) time))

unfoldable pub handle_punch_in : Env → Ident → Ident → AttendanceActionDto → Action Db Reply
handle_punch_in env staff_id org_id dto = do
  time ← valid_time (time_of env dto.time) (bad_request "Invalid time")
  found ← gets (find_timezone org_id)
  tz ← or_throw found (bad_request "Organization timezone not configured")
  punch_in_transaction env staff_id org_id (start_of_org_day env time tz) time

-- The transactions of `handleBreakStart` and `handleBreakEnd`: they differ in the test of the last
-- event, in the event that they record and in what they say.
unfoldable pub break_transaction :
    (Option Event → Bool)
    → String
    → EventType
    → Reply
    → Env
    → Ident
    → Ident
    → Ident
    → ℕ
    → Action Db Reply
break_transaction fits refused kind reply env staff_id org_id id time = transaction (do
  found ← gets (find_own_session staff_id id)
  session ← or_throw found (not_found "Session not found.")
  throw_if (not (is_opened session.status)) (bad_request "Session is not open.")
  last ← gets (last_event session.id)
  throw_if (not (fits last)) (bad_request refused)
  modify (add_event (new_event (env.uuid 0) org_id staff_id session.id kind time))
  pure reply)

abbrev pub break_start_transaction : Env → Ident → Ident → Ident → ℕ → Action Db Reply
break_start_transaction env staff_id org_id id time =
    break_transaction is_working "Cannot start break – invalid state (must be working)."
      EventType.break_start (break_started time) env staff_id org_id id time

abbrev pub break_end_transaction : Env → Ident → Ident → Ident → ℕ → Action Db Reply
break_end_transaction env staff_id org_id id time =
    break_transaction is_on_break "Cannot end break – not currently on break." EventType.break_end
      (break_ended time) env staff_id org_id id time

unfoldable pub handle_break_start : Env → Ident → Ident → AttendanceActionDto → Action Db Reply
handle_break_start env staff_id org_id dto = do
  id ← or_throw (present dto.session_id) (bad_request "sessionId is required for BREAK_START")
  time ← valid_time (time_of env dto.time) (bad_request "Invalid time")
  break_start_transaction env staff_id org_id id time

unfoldable pub handle_break_end : Env → Ident → Ident → AttendanceActionDto → Action Db Reply
handle_break_end env staff_id org_id dto = do
  id ← or_throw (present dto.session_id) (bad_request "sessionId is required for BREAK_END")
  time ← valid_time (time_of env dto.time) (bad_request "Invalid time")
  break_end_transaction env staff_id org_id id time

abbrev pub close_session : ClosureType → ℕ → ℕ × ℕ → Session → Session
close_session kind time totals s = record s {
  status = closed;
  closure_type = some kind;
  last_punch_out_at = some time;
  total_work_seconds = totals.0;
  total_break_seconds = totals.1;
}

-- The totals of a session with its closing event.
abbrev pub totals_with : List Event → Event → ℕ × ℕ
totals_with events event = recalc_totals (events ++ event ∷ [])

-- The transaction of `handlePunchOut`.
unfoldable pub punch_out_transaction : Env → Ident → Ident → Ident → ℕ → Action Db Reply
punch_out_transaction env staff_id org_id id time = transaction (do
  found ← gets (find_own_session staff_id id)
  session ← or_throw found (not_found "Session not found.")
  throw_if (not (is_opened session.status)) (bad_request "Session is not open.")
  events ← gets (events_of session.id)
  let event = new_event (env.uuid 0) org_id staff_id session.id EventType.punch_out time
  modify (add_event event)
  let totals = totals_with events event
  modify (update_session session.id (close_session normal time totals))
  pure (punched_out time))

unfoldable pub handle_punch_out : Env → Ident → Ident → AttendanceActionDto → Action Db Reply
handle_punch_out env staff_id org_id dto = do
  id ← or_throw (present dto.session_id) (bad_request "sessionId is required for PUNCH_OUT")
  time ← valid_time (time_of env dto.time) (bad_request "Invalid time")
  punch_out_transaction env staff_id org_id id time

-- `text || null`
abbrev pub non_empty : Option Text → Option Text
non_empty (some (c ∷ s)) = some (c ∷ s)
non_empty _ = none

abbrev pub late_event : Ident → Ident → Ident → Ident → ℕ → Option Text → Event
late_event id org_id staff_id session_id time reason =
    record (new_event id org_id staff_id session_id EventType.late_punch_out time) {
      is_correction = true;
      correction_note = non_empty reason;
    }

abbrev pub close_late : ℕ → ℕ × ℕ → Option Text → ℕ → Session → Session
close_late time totals reason now s = record (close_session late time totals s) {
  is_late_closure = true;
  late_punch_out_reason = non_empty reason;
  late_punch_out_recorded_at = some now;
}

-- `session.firstPunchInAt && approxOut <= session.firstPunchInAt`
abbrev pub not_after : ℕ → Option ℕ → Bool
not_after t none = false
not_after t (some first) = leb t first

-- The transaction of `handleLatePunchOutAndPunchIn`.
unfoldable pub late_transaction :
    Env → Ident → Ident → Ident → ℕ → ℕ → ℕ → Option Text → Action Db Reply
late_transaction env staff_id org_id id approx_out punch_in_time today reason = transaction (do
  found ← gets (find_own_session staff_id id)
  prev ← or_throw found (not_found "Previous session not found.")
  throw_if (not (is_opened prev.status)) (bad_request "Previous session is not open.")
  throw_if (not_after approx_out prev.first_punch_in_at)
      (bad_request "Punch-out must be after the original punch-in time.")
  events ← gets (events_of prev.id)
  let event = late_event (env.uuid 0) org_id staff_id prev.id approx_out reason
  modify (add_event event)
  let totals = totals_with events event
  modify (update_session prev.id (close_late approx_out totals reason env.now))
  modify (add_session (new_session (env.uuid 1) org_id staff_id today punch_in_time))
  modify (
      add_event
        (new_event (env.uuid 2) org_id staff_id (env.uuid 1) EventType.punch_in punch_in_time))
  pure (late_punched_out_and_in prev.id (env.uuid 1) approx_out punch_in_time))

abbrev late_required : Exception
late_required =
    bad_request "previousSessionId, approxPunchOutTime and currentPunchInTime are required."

unfoldable pub handle_late_punch_out_and_punch_in :
    Env → Ident → Ident → AttendanceActionDto → Action Db Reply
handle_late_punch_out_and_punch_in env staff_id org_id dto = do
  id ← or_throw (present dto.previous_session_id) late_required
  approx ← or_throw dto.approx_punch_out_time late_required
  current ← or_throw dto.current_punch_in_time late_required
  found ← gets (find_timezone org_id)
  throw_if (date_ge approx current) (bad_request "Late punch-out must be before new punch-in time.")
  approx_out ← valid_time approx (bad_request "Invalid approx punch-out time")
  punch_in_time ← valid_time current (bad_request "Invalid current punch-in time")
  tz ← or_throw found (bad_request "Organization timezone not configured")
  late_transaction env staff_id org_id id approx_out punch_in_time
      (start_of_org_day env punch_in_time tz) dto.reason

-- The `switch` of `action`.
unfoldable pub perform : ActionName → Env → Ident → Ident → AttendanceActionDto → Action Db Reply
perform ActionName.punch_in = handle_punch_in
perform ActionName.break_start = handle_break_start
perform ActionName.break_end = handle_break_end
perform ActionName.punch_out = handle_punch_out
perform ActionName.late_punch_out_and_punch_in = handle_late_punch_out_and_punch_in
perform ActionName.other = λ env staff_id org_id dto. throw (bad_request "Invalid action")

unfoldable pub action : Env → Ident → Ident → Role → AttendanceActionDto → Action Db Reply
action env org_id system_id role dto = do
  check_system org_id system_id role
  staff ← get_staff_by_employee_code org_id (some dto.employee_code) none
  perform dto.action env staff.id staff.org_id dto
