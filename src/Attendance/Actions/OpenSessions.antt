-- ===== src/Attendance/Actions/OpenSessions.antt =====
-- That nobody has two sessions open, after every action.
use vms_backend_testing.Base.{
  ℕ, ◌≤◌, ◌≡◌, Bool, false, Option, some, List, [], ◌∷◌, String, inl, inr, arith, ◌==◌,
  if◌then◌else◌, Ident, Option-cases,
}
use vms_backend_testing.Base.Text.{Text}
use vms_backend_testing.Base.Table.{count, any, All, update}
use vms_backend_testing.Base.Table.Counts.{count-create, count-update}
use vms_backend_testing.Attendance.Model.{
  EventType, normal, Event, Session, Db, at, Env, ActionName, AttendanceActionDto,
}
use vms_backend_testing.Attendance.Sessions.{
  is_opened, is_open_before, is_open_on, new_session, new_event, events_of, find_timezone, time_of,
  start_of_org_day, Date-cases, find_own_session, find_own_session-found,
}
use vms_backend_testing.Attendance.Actions.{
  Reply, handle_punch_in, handle_break_start, handle_break_end, handle_punch_out,
  handle_late_punch_out_and_punch_in, perform, punch_in_transaction, break_transaction,
  punch_out_transaction, late_transaction, totals_with, close_session, close_late, late_event,
}

abbrev pub is_open_of : Ident → Session → Bool
is_open_of t s = if s.staff_id == t then is_opened s.status else false

-- The person `t` has at most one open session.
abbrev pub OneOpen : Ident → Db → Type 0
OneOpen t db = count (is_open_of t) db.sessions ≤ 1

-- The sessions of a table whose dates do not pass `today`: if the two searches of a punch-in find
-- nothing, then the person has none open.
none_open :
    (t : Ident) (today : ℕ) (xs : List Session)
    → any (is_open_before t today) xs ≡ false
    → any (is_open_on t today) xs ≡ false
    → All (λ s. s.date ≤ today) xs
    → count (is_open_of t) xs ≡ 0
none_open t today [] b o h = omega arith
none_open t today (s ∷ xs) b o h = ground (arith, none_open t today xs)

punch_in-OneOpen :
    (env : Env) (staff_id org_id t : Ident) (today time : ℕ) (db : Db)
    → All (λ s. s.date ≤ today) db.sessions
    → OneOpen t db
    → OneOpen t (punch_in_transaction env staff_id org_id today time db).1
unfolding punch_in_transaction
punch_in-OneOpen env staff_id org_id t today time db h one = ground (
  arith,
  none_open staff_id today db.sessions,
  none_open t today db.sessions,
  count-create (is_open_of t) (new_session (env.uuid 0) org_id staff_id today time) db.sessions,
)

break-OneOpen :
    (fits : Option Event → Bool) (refused : String) (kind : EventType) (reply : Reply) (env : Env)
    (staff_id org_id id t : Ident) (time : ℕ) (db : Db)
    → OneOpen t db
    → OneOpen t (break_transaction fits refused kind reply env staff_id org_id id time db).1
unfolding break_transaction
break-OneOpen fits refused kind reply env staff_id org_id id t time db one = ground arith

punch_out-OneOpen :
    (env : Env) (staff_id org_id id t : Ident) (time : ℕ) (db : Db)
    → OneOpen t db
    → OneOpen t (punch_out_transaction env staff_id org_id id time db).1
unfolding punch_out_transaction
punch_out-OneOpen env staff_id org_id id t time db one =
    elim (Option-cases (find_own_session staff_id id db)) [
      | inl missing ↦ ground arith
      | inr (s, e) ↦
          let event = new_event (env.uuid 0) org_id staff_id s.id EventType.punch_out time in
          let close = close_session normal time (totals_with (events_of s.id db) event) in
          ground (
            arith,
            count-update (is_open_of t) (λ r. r.id == s.id) close s db.sessions,
            find_own_session-found staff_id id db s e,
          )
    ]

late-OneOpen :
    (env : Env) (staff_id org_id id t : Ident) (out back today : ℕ) (reason : Option Text) (db : Db)
    → OneOpen t db
    → OneOpen t (late_transaction env staff_id org_id id out back today reason db).1
unfolding late_transaction
late-OneOpen env staff_id org_id id t out back today reason db one =
    elim (Option-cases (find_own_session staff_id id db)) [
      | inl missing ↦ ground arith
      | inr (s, e) ↦
          let event = late_event (env.uuid 0) org_id staff_id s.id out reason in
          let close = close_late out (totals_with (events_of s.id db) event) reason env.now in
          let closed_one = update (λ r. r.id == s.id) close db.sessions in
          ground (
            arith,
            count-update (is_open_of t) (λ r. r.id == s.id) close s db.sessions,
            count-create (is_open_of t) (new_session (env.uuid 1) org_id staff_id today back)
                closed_one,
            find_own_session-found staff_id id db s e,
          )
    ]

-- No session of the table is dated after the day of the request's time.
abbrev pub InOrder : Env → Ident → AttendanceActionDto → Db → Type 0
InOrder env org_id dto db =
    (tz time : ℕ)
    → find_timezone org_id db ≡ some tz
    → time_of env dto.time ≡ at time
    → All (λ s. s.date ≤ start_of_org_day env time tz) db.sessions

handle_punch_in-OneOpen :
    (env : Env) (staff_id org_id t : Ident) (dto : AttendanceActionDto) (db : Db)
    → InOrder env org_id dto db
    → OneOpen t db
    → OneOpen t (handle_punch_in env staff_id org_id dto db).1
unfolding handle_punch_in
handle_punch_in-OneOpen env staff_id org_id t dto db h one =
    elim (Date-cases (time_of env dto.time)) [
      | inr no_time ↦ ground arith
      | inl (time, e) ↦ elim (Option-cases (find_timezone org_id db)) [
        | inl no_zone ↦ ground arith
        | inr (tz, f) ↦
            let today = start_of_org_day env time tz in
            ground (arith, punch_in-OneOpen env staff_id org_id t today time db (h tz time f e) one)
      ]
    ]

-- If no session is dated after the day of the request, then an action of anybody leaves a person
-- who had at most one open session with at most one.
pub perform-OneOpen :
    (name : ActionName) (env : Env) (staff_id org_id t : Ident) (dto : AttendanceActionDto)
    (db : Db)
    → InOrder env org_id dto db
    → OneOpen t db
    → OneOpen t (perform name env staff_id org_id dto db).1
unfolding perform handle_break_start handle_break_end handle_punch_out
    handle_late_punch_out_and_punch_in
perform-OneOpen ActionName.punch_in env staff_id org_id t dto db h one =
    handle_punch_in-OneOpen env staff_id org_id t dto db h one
perform-OneOpen ActionName.break_start env staff_id org_id t dto db h one =
    grind (arith, break-OneOpen)
perform-OneOpen ActionName.break_end env staff_id org_id t dto db h one =
    grind (arith, break-OneOpen)
perform-OneOpen ActionName.punch_out env staff_id org_id t dto db h one =
    grind (arith, punch_out-OneOpen)
perform-OneOpen ActionName.late_punch_out_and_punch_in env staff_id org_id t dto db h one =
    grind (arith, late-OneOpen)
perform-OneOpen ActionName.other env staff_id org_id t dto db h one = one
