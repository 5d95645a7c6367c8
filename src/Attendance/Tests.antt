-- ===== src/Attendance/Tests.antt =====
-- Runs of the attendance service, and its theorems at concrete tables.
use vms_backend_testing.Base.{
  ℕ, ◌+◌, ◌*◌, ◌/◌, ◌-◌, ◌≤◌, ◌≡◌, refl, true, false, none, some, List, [], ◌∷◌, arith, ◌++◌,
}
use vms_backend_testing.Base.Request.{ok}
use vms_backend_testing.Base.Role
use vms_backend_testing.Attendance.Model.{
  EventType, opened, closed, normal, Event, Session, Db, at, Env, ActionName, AttendanceActionDto,
}
use vms_backend_testing.Attendance.Totals.{recalc_totals, recalc_totals_local}
use vms_backend_testing.Attendance.Totals.Bounds.{recalc_totals_bounds}
use vms_backend_testing.Attendance.Totals.Agreement.{recalc_totals-agree}
use vms_backend_testing.Attendance.Totals.Exact.{worked, rested, recalc_totals_exact}
use vms_backend_testing.Attendance.Access.{check_system, get_staff_by_employee_code}
use vms_backend_testing.Attendance.Sessions.{start_of_org_day, find_own_session, events_of}
use vms_backend_testing.Attendance.Actions.{
  punched_out, perform, action, handle_punch_out, punch_out_transaction,
}
use vms_backend_testing.Attendance.Actions.OpenSessions.{OneOpen, perform-OneOpen}
use vms_backend_testing.Attendance.Actions.Shape.{AllShaped, perform-AllShaped}

abbrev day : ℕ
day = 86400000

abbrev env : Env
env = record {
  now = 40000000;
  uuid = λ i. 100 + i;
  start_of_day = λ tz t. t / day * day;
  to_iso_date = λ tz t. [];
}

abbrev stamp : EventType → ℕ → Event
stamp kind t = record {
  id = t;
  org_id = 1;
  staff_id = 3;
  session_id = some 10;
  event_type = kind;
  timestamp = t;
  is_correction = false;
  correction_note = none;
}

abbrev in_at : Event
in_at = stamp EventType.punch_in 30000500

abbrev rest_of_day : List Event
rest_of_day =
    stamp EventType.break_start 31000700
    ∷ stamp EventType.break_end 32000000
    ∷ stamp EventType.punch_out 40000999
    ∷ []

totals : recalc_totals (in_at ∷ rest_of_day) ≡ (9000, 1000)
unfolding recalc_totals
totals = refl

-- The order in which the database returns the events does not matter to the sort.
totals_unsorted : recalc_totals (rest_of_day ++ in_at ∷ []) ≡ (9000, 1000)
unfolding recalc_totals
totals_unsorted = refl

recalc_totals_bounds_example :
    (recalc_totals (in_at ∷ rest_of_day)).0 + (recalc_totals (in_at ∷ rest_of_day)).1
    ≤ 40000999 / 1000 - 30000500 / 1000
recalc_totals_bounds_example =
    recalc_totals_bounds 30000500 40000999 (in_at ∷ rest_of_day) (omega arith) (omega arith)

recalc_totals-agree_example :
    recalc_totals_local (in_at ∷ rest_of_day) ≡ recalc_totals (in_at ∷ rest_of_day)
recalc_totals-agree_example = recalc_totals-agree (in_at ∷ rest_of_day)

recalc_totals_exact_example :
    (recalc_totals (in_at ∷ rest_of_day) ≡ (worked in_at rest_of_day, rested in_at rest_of_day))
    × (worked in_at rest_of_day + rested in_at rest_of_day ≡ 10000)
recalc_totals_exact_example = recalc_totals_exact in_at rest_of_day refl (omega arith)

abbrev session : Session
session = record {
  id = 10;
  org_id = 1;
  staff_id = 3;
  date = 0;
  status = opened;
  closure_type = none;
  is_late_closure = false;
  late_punch_out_reason = none;
  late_punch_out_recorded_at = none;
  first_punch_in_at = some 30000500;
  last_punch_out_at = none;
  total_work_seconds = 0;
  total_break_seconds = 0;
}

abbrev db_with : List Session → List Event → Db
db_with sessions events = record {
  organizations = record { id = 1; timezone = some 7 } ∷ [];
  systems = record { id = 2; org_id = 1 } ∷ [];
  staff =
      record {
        id = 3;
        org_id = 1;
        name = [];
        email = 5;
        employee_code = some 33;
        badge_active = true;
      }
      ∷ [];
  sessions = sessions;
  events = events;
}

abbrev at_work : Db
at_work = db_with (session ∷ []) (in_at ∷ [])

abbrev finished : Db
finished =
    db_with
      (record session {
        status = closed;
        closure_type = some normal;
        last_punch_out_at = some 40000999;
      }
        ∷ [])
      (in_at ∷ rest_of_day)

abbrev request : ActionName → AttendanceActionDto
request name = record {
  employee_code = 33;
  action = name;
  session_id = some 10;
  time = some (at 35000000);
  previous_session_id = none;
  approx_punch_out_time = none;
  reason = none;
  current_punch_in_time = none;
}

punch_out_runs :
    (action env 1 2 Role.system (request ActionName.punch_out) at_work).0
    ≡ ok (punched_out 35000000)
unfolding action check_system get_staff_by_employee_code perform handle_punch_out
    punch_out_transaction find_own_session events_of recalc_totals
punch_out_runs = refl

perform-OneOpen_example :
    OneOpen 3 (perform ActionName.punch_in env 3 1 (request ActionName.punch_in) finished).1
perform-OneOpen_example =
    perform-OneOpen ActionName.punch_in env 3 1 3 (request ActionName.punch_in) finished
      (λ tz time f e. (unfold start_of_org_day in omega arith, tt)) (omega arith)

perform-AllShaped_example :
    AllShaped (perform ActionName.punch_out env 3 1 (request ActionName.punch_out) at_work).1
perform-AllShaped_example =
    perform-AllShaped env 3 1 ActionName.punch_out (request ActionName.punch_out) at_work (tt, tt)
