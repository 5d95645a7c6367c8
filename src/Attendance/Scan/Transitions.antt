-- ===== src/Attendance/Scan/Transitions.antt =====
-- How the state that a scan shows moves with the actions.
use vms_backend_testing.Base.{
  ℕ, ◌<◌, ◌≡◌, refl, Bool, true, Option, none, some, List, [], ◌∷◌, arith, Ident, is_ident,
}
use vms_backend_testing.Base.Table.{create, find_latest}
use vms_backend_testing.Attendance.Model.{EventType, Event, Session, Db, Env}
use vms_backend_testing.Attendance.Sessions.{find_session, find_own_session, last_event, new_event}
use vms_backend_testing.Attendance.Actions.{
  break_transaction, break_start_transaction, break_end_transaction,
}
use vms_backend_testing.Attendance.Scan.{working, on_break, state_on, find_today, find_open_old}
use vms_backend_testing.Attendance.Scan.Allowed.{working_inv, on_break_inv, find_today-holds}

-- The event, if there is one, is before the time `t`.
abbrev pub Before : Option Event → ℕ → Type 0
Before none t = Unit
Before (some e) t = e.timestamp < t

Before-tail :
    (p : Event → Bool) (t : ℕ) (y : Event) (xs : List Event)
    → Before (find_latest (λ e. e.timestamp) p (y ∷ xs)) t
    → Before (find_latest (λ e. e.timestamp) p xs) t
Before-tail p t y xs b = ground arith

-- A row that is later than the latest one becomes the latest.
find_latest-create :
    (p : Event → Bool) (x : Event) (xs : List Event)
    → p x ≡ true
    → Before (find_latest (λ e. e.timestamp) p xs) x.timestamp
    → find_latest (λ e. e.timestamp) p (create x xs) ≡ some x
find_latest-create p x [] h later = ground arith
find_latest-create p x (y ∷ xs) h later =
    ground (arith, find_latest-create p x xs h (Before-tail p x.timestamp y xs later))

last_event-create :
    (id : Ident) (e : Event) (db : Db)
    → e.session_id ≡ some id
    → Before (last_event id db) e.timestamp
    → last_event id (record db { events = create e db.events }) ≡ some e
unfolding last_event
last_event-create id e db h b =
    find_latest-create (λ r. is_ident r.session_id id) e db.events (ground arith) b

module _ (env : Env) (staff_id org_id today time : ℕ) (db : Db) (s : Session) where
  -- If a scan finds the person working in a session whose events are all before `time`, then once
  -- the break has started at that time a scan finds the person on a break in the same session.
  pub scan_after_break_start :
      (state_on staff_id today db).state ≡ working
      → (state_on staff_id today db).session ≡ some s
      → find_session s.id db ≡ some s
      → Before (last_event s.id db) time
      → let db' = (break_start_transaction env staff_id org_id s.id time db).1 in
        ((state_on staff_id today db').state ≡ on_break)
        × ((state_on staff_id today db').session ≡ some s)
  unfolding break_transaction find_own_session state_on find_open_old find_today
  scan_after_break_start w e u b =
      let inv = working_inv staff_id today db s w e in
      let own = find_today-holds staff_id today db s inv.1 in
      let event = new_event (env.uuid 0) org_id staff_id s.id EventType.break_start time in
      let last = last_event-create s.id event db refl b in
      (ground (arith, inv, own, last), ground (arith, inv, own, last))

  -- And if the person is on a break, then once it has ended at that time the person is working.
  pub scan_after_break_end :
      (state_on staff_id today db).state ≡ on_break
      → (state_on staff_id today db).session ≡ some s
      → find_session s.id db ≡ some s
      → Before (last_event s.id db) time
      → let db' = (break_end_transaction env staff_id org_id s.id time db).1 in
        ((state_on staff_id today db').state ≡ working)
        × ((state_on staff_id today db').session ≡ some s)
  unfolding break_transaction find_own_session state_on find_open_old find_today
  scan_after_break_end w e u b =
      let inv = on_break_inv staff_id today db s w e in
      let own = find_today-holds staff_id today db s inv.1 in
      let event = new_event (env.uuid 0) org_id staff_id s.id EventType.break_end time in
      let last = last_event-create s.id event db refl b in
      (ground (arith, inv, own, last), ground (arith, inv, own, last))
