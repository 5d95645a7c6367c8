-- ===== src/Attendance/Sessions.antt =====
-- The queries on sessions and events that the actions and the scan share, and the rows that they
-- write.
use vms_backend_testing.Base.{
  ℕ, Bool, true, false, Option, none, some, List, leb, ltb, ◌==◌, if◌then◌else◌, Ident, present,
  is_ident, ◌≡◌, ==→eq, arith, sym, refl, ◌⊎◌, inl, inr,
}
use mathlib.Core.Path.{subst}
use vms_backend_testing.Base.Request.{Action, Exception, ok, err}
use vms_backend_testing.Base.Table.{find_first, find_latest, find_many, order_by, create, update}
use vms_backend_testing.Base.Table.Counts.{find_first-holds}
use vms_backend_testing.Attendance.Model.{
  EventType, SessionStatus, opened, closed, Event, Session, Organization, Db, Date, at, invalid,
  Env,
}
use vms_backend_testing.Attendance.Access.{find_organization}

abbrev pub is_opened : SessionStatus → Bool
is_opened opened = true
is_opened closed = false

-- `dto.time ? new Date(dto.time) : new Date()`
abbrev pub time_of : Env → Option Date → Date
time_of env none = at env.now
time_of env (some d) = d

pub Date-cases : (d : Date) → ((t : ℕ) × (d ≡ at t)) ⊎ (d ≡ invalid)
Date-cases (at t) = inl (t, refl)
Date-cases invalid = inr refl

-- `if (isNaN(date.getTime())) throw …`
abbrev pub valid_time : Date → Exception → Action Db ℕ
valid_time (at t) e db = (ok t, db)
valid_time invalid e db = (err e, db)

-- `approxOut >= punchIn`: false if either is not a time
abbrev pub date_ge : Date → Date → Bool
date_ge (at a) (at b) = leb b a
date_ge _ _ = false

abbrev pub timezone_of : Option Organization → Option Ident
timezone_of none = none
timezone_of (some o) = present o.timezone

-- `org.timezone`, if the organisation is there and has one
unfoldable pub find_timezone : Ident → Db → Option Ident
unfolding find_organization
find_timezone org_id db = timezone_of (find_organization org_id db)

-- `startOfOrgDay`; the computation is luxon's.
unfoldable pub start_of_org_day : Env → ℕ → Ident → ℕ
start_of_org_day env date timezone = env.start_of_day timezone date

abbrev pub find_session : Ident → Db → Option Session
find_session id db = find_first (λ s. s.id == id) db.sessions

abbrev pub owned_by : Ident → Option Session → Option Session
owned_by staff_id none = none
owned_by staff_id (some s) = if s.staff_id == staff_id then some s else none

owned_by-found :
    (staff_id : Ident) (o : Option Session) (s : Session)
    → owned_by staff_id o ≡ some s
    → o ≡ some s
owned_by-found staff_id o s h = ground arith

owned_by-own :
    (staff_id : Ident) (o : Option Session) (s : Session)
    → owned_by staff_id o ≡ some s
    → s.staff_id ≡ staff_id
owned_by-own staff_id o s h = ground arith

-- The session, if `!session || session.staffId !== staffId` is false.
unfoldable pub find_own_session : Ident → Ident → Db → Option Session
find_own_session staff_id id db = owned_by staff_id (find_session id db)

unfoldable pub events_of : Ident → Db → List Event
events_of id db = order_by (λ e. e.timestamp) (find_many (λ e. is_ident e.session_id id) db.events)

-- What `find_own_session` finds is the session of its identifier, and the person's.
pub find_own_session-found :
    (staff_id id : Ident) (db : Db) (s : Session)
    → find_own_session staff_id id db ≡ some s
    → (find_first (λ r. r.id == s.id) db.sessions ≡ some s) × (s.staff_id ≡ staff_id) × (s.id ≡ id)
unfolding find_own_session
find_own_session-found staff_id id db s h =
    let found : find_session id db ≡ some s = owned_by-found staff_id (find_session id db) s h in
    let same : s.id ≡ id = ==→eq _ _ (find_first-holds (λ r. r.id == id) db.sessions found) in
    (
      subst (λ (k : ℕ). find_first (λ r. r.id == k) db.sessions ≡ some s) (sym same) found,
      owned_by-own staff_id (find_session id db) s h,
      same,
    )

-- `events: { orderBy: { timestamp: 'desc' }, take: 1 }`
unfoldable pub last_event : Ident → Db → Option Event
last_event id db = find_latest (λ e. e.timestamp) (λ e. is_ident e.session_id id) db.events

abbrev pub is_open_before : Ident → ℕ → Session → Bool
is_open_before staff_id today s =
    if s.staff_id == staff_id
    then (if is_opened s.status then ltb s.date today else false)
    else false

abbrev pub is_open_on : Ident → ℕ → Session → Bool
is_open_on staff_id today s =
    if s.staff_id == staff_id
    then (if is_opened s.status then s.date == today else false)
    else false

abbrev pub new_session : Ident → Ident → Ident → ℕ → ℕ → Session
new_session id org_id staff_id today time = record {
  id = id;
  org_id = org_id;
  staff_id = staff_id;
  date = today;
  status = opened;
  closure_type = none;
  is_late_closure = false;
  late_punch_out_reason = none;
  late_punch_out_recorded_at = none;
  first_punch_in_at = some time;
  last_punch_out_at = none;
  total_work_seconds = 0;
  total_break_seconds = 0;
}

abbrev pub new_event : Ident → Ident → Ident → Ident → EventType → ℕ → Event
new_event id org_id staff_id session_id kind time = record {
  id = id;
  org_id = org_id;
  staff_id = staff_id;
  session_id = some session_id;
  event_type = kind;
  timestamp = time;
  is_correction = false;
  correction_note = none;
}

abbrev pub add_session : Session → Db → Db
add_session s db = record db { sessions = create s db.sessions }

abbrev pub add_event : Event → Db → Db
add_event e db = record db { events = create e db.events }

abbrev pub update_session : Ident → (Session → Session) → Db → Db
update_session id f db = record db { sessions = update (λ s. s.id == id) f db.sessions }

abbrev pub is_working : Option Event → Bool
is_working none = false
is_working (some e) = elim e.event_type [
  | EventType.punch_in ↦ true
  | EventType.break_end ↦ true
  | _ ↦ false
]

abbrev pub is_on_break : Option Event → Bool
is_on_break none = false
is_on_break (some e) = elim e.event_type [ EventType.break_start ↦ true | _ ↦ false ]
