-- ===== src/Attendance/Actions/Outcome.antt =====
-- What each action does, on every path.
use vms_backend_testing.Base.{
  Bool, false, Option, String, ℕ, ◌==◌, ◌≡◌, refl, inl, inr, arith, Ident, Option-cases,
}
use vms_backend_testing.Base.Text.{Text}
use vms_backend_testing.Base.Request.{Exception, err}
use vms_backend_testing.Base.Table.{find_many}
use vms_backend_testing.Base.Table.Rows.{find_many-create_ne, find_many-update_ne}
use vms_backend_testing.Base.Role.{Role}
use vms_backend_testing.Attendance.Model.{
  EventType, normal, Event, Db, Env, ActionName, AttendanceActionDto,
}
use vms_backend_testing.Attendance.Access.{check_system, get_staff_by_employee_code}
use vms_backend_testing.Attendance.Sessions.{
  new_event, events_of, find_own_session, find_own_session-found,
}
use vms_backend_testing.Attendance.Actions.{
  Reply, handle_punch_in, handle_break_start, handle_break_end, handle_punch_out,
  handle_late_punch_out_and_punch_in, perform, action, punch_in_transaction, break_transaction,
  punch_out_transaction, late_transaction, totals_with, close_session, close_late, late_event,
}

-- What a request does: it throws and leaves the tables as they were, or it leaves the rows of `t`.
perform_failed :
    (name : ActionName) (env : Env) (staff_id org_id : Ident) (dto : AttendanceActionDto) (db : Db)
    (e : Exception)
    → (perform name env staff_id org_id dto db).0 ≡ err e
    → (perform name env staff_id org_id dto db).1 ≡ db
unfolding perform handle_punch_in handle_break_start handle_break_end handle_punch_out
    handle_late_punch_out_and_punch_in punch_in_transaction break_transaction punch_out_transaction
    late_transaction
perform_failed ActionName.punch_in env staff_id org_id dto db e h = ground arith
perform_failed ActionName.break_start env staff_id org_id dto db e h = ground arith
perform_failed ActionName.break_end env staff_id org_id dto db e h = ground arith
perform_failed ActionName.punch_out env staff_id org_id dto db e h = ground arith
perform_failed ActionName.late_punch_out_and_punch_in env staff_id org_id dto db e h = ground arith
perform_failed ActionName.other env staff_id org_id dto db e h = refl

-- A request for an action that ends in an error leaves every table as it was, whatever the error.
pub action_failed :
    (env : Env) (org_id system_id : Ident) (role : Role) (dto : AttendanceActionDto) (db : Db)
    (e : Exception)
    → (action env org_id system_id role dto db).0 ≡ err e
    → (action env org_id system_id role dto db).1 ≡ db
unfolding action check_system get_staff_by_employee_code
action_failed env org_id system_id role dto db e h = grind (arith, perform_failed)

-- The sessions and the events of the person `t` are the same in both states.
abbrev pub SameFor : Ident → Db → Db → Type 0
SameFor t db db' =
    (find_many (λ s. s.staff_id == t) db'.sessions ≡ find_many (λ s. s.staff_id == t) db.sessions)
    × (find_many (λ e. e.staff_id == t) db'.events ≡ find_many (λ e. e.staff_id == t) db.events)

module _ (env : Env) (staff_id org_id t : Ident) (ne : (t == staff_id) ≡ false) where
  punch_in_others :
      (today time : ℕ) (db : Db)
      → SameFor t db (punch_in_transaction env staff_id org_id today time db).1
  unfolding punch_in_transaction
  punch_in_others today time db = grind (arith, find_many-create_ne)

  break_others :
      (fits : Option Event → Bool) (refused : String) (kind : EventType) (reply : Reply)
      (id : Ident) (time : ℕ) (db : Db)
      → SameFor t db (break_transaction fits refused kind reply env staff_id org_id id time db).1
  unfolding break_transaction
  break_others fits refused kind reply id time db = grind (arith, find_many-create_ne)

  punch_out_others :
      (id : Ident) (time : ℕ) (db : Db)
      → SameFor t db (punch_out_transaction env staff_id org_id id time db).1
  unfolding punch_out_transaction
  punch_out_others id time db = elim (Option-cases (find_own_session staff_id id db)) [
    | inl missing ↦ ground arith
    | inr (s, e) ↦
        let event = new_event (env.uuid 0) org_id staff_id s.id EventType.punch_out time in
        let close = close_session normal time (totals_with (events_of s.id db) event) in
        grind (
          arith,
          find_many-create_ne,
          find_many-update_ne (λ r. r.staff_id == t) (λ r. r.id == s.id) close s db.sessions,
          find_own_session-found staff_id id db s e,
        )
  ]

  late_others :
      (id : Ident) (out back today : ℕ) (reason : Option Text) (db : Db)
      → SameFor t db (late_transaction env staff_id org_id id out back today reason db).1
  unfolding late_transaction
  late_others id out back today reason db = elim (Option-cases (find_own_session staff_id id db)) [
    | inl missing ↦ ground arith
    | inr (s, e) ↦
        let event = late_event (env.uuid 0) org_id staff_id s.id out reason in
        let close = close_late out (totals_with (events_of s.id db) event) reason env.now in
        grind (
          arith,
          find_many-create_ne,
          find_many-update_ne (λ r. r.staff_id == t) (λ r. r.id == s.id) close s db.sessions,
          find_own_session-found staff_id id db s e,
        )
  ]

  -- An action for one person leaves the sessions and the events of every other as they were.
  pub perform_others :
      (name : ActionName) (dto : AttendanceActionDto) (db : Db)
      → SameFor t db (perform name env staff_id org_id dto db).1
  unfolding perform handle_punch_in handle_break_start handle_break_end handle_punch_out
      handle_late_punch_out_and_punch_in
  perform_others ActionName.punch_in dto db = grind (arith, punch_in_others)
  perform_others ActionName.break_start dto db = grind (arith, break_others)
  perform_others ActionName.break_end dto db = grind (arith, break_others)
  perform_others ActionName.punch_out dto db = grind (arith, punch_out_others)
  perform_others ActionName.late_punch_out_and_punch_in dto db = grind (arith, late_others)
  perform_others ActionName.other dto db = (refl, refl)
