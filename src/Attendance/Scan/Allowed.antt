-- ===== src/Attendance/Scan/Allowed.antt =====
-- What the scan offers is what the actions accept.
use vms_backend_testing.Base.{
  ℕ, ◌≡◌, refl, Bool, true, false, none, some, List, [], ◌∷◌, inl, inr, arith, Bool-cases,
}
use vms_backend_testing.Base.Request.{err, bad_request, is_ok}
use vms_backend_testing.Base.Table.{any, find_first, find_latest}
use vms_backend_testing.Base.Table.Counts.{find_first-holds}
use vms_backend_testing.Attendance.Model.{Session, Db, Env}
use vms_backend_testing.Attendance.Sessions.{
  find_session, find_own_session, last_event, is_opened, is_open_before, is_open_on, is_working,
  is_on_break,
}
use vms_backend_testing.Attendance.Actions.{
  punch_in_transaction, break_transaction, break_start_transaction, break_end_transaction,
  punch_out_transaction,
}
use vms_backend_testing.Attendance.Scan.{
  AttendanceState, working, on_break, day_completed, no_session_today, allowed_actions_in,
  is_session_on, state_on, find_today, find_open_old,
}

module _ (staff_id today : ℕ) (db : Db) (s : Session) where
  -- What a state with a session says of the tables.
  pub working_inv :
      (state_on staff_id today db).state ≡ working
      → (state_on staff_id today db).session ≡ some s
      → (find_open_old staff_id today db ≡ none)
        × (find_today staff_id today db ≡ some s)
        × (is_opened s.status ≡ true)
        × (is_working (last_event s.id db) ≡ true)
  unfolding state_on
  working_inv w e = ground arith

  pub on_break_inv :
      (state_on staff_id today db).state ≡ on_break
      → (state_on staff_id today db).session ≡ some s
      → (find_open_old staff_id today db ≡ none)
        × (find_today staff_id today db ≡ some s)
        × (is_opened s.status ≡ true)
        × (is_on_break (last_event s.id db) ≡ true)
  unfolding state_on
  on_break_inv w e = ground arith

any_of_find_first :
    (p q : Session → Bool) (xs : List Session) (s : Session)
    → find_first p xs ≡ some s
    → q s ≡ true
    → any q xs ≡ true
any_of_find_first p q [] s e h = cc
any_of_find_first p q (x ∷ xs) s e h = ground (arith, any_of_find_first p q xs s)

any-false_of_latest :
    (key : Session → ℕ) (p : Session → Bool) (xs : List Session)
    → find_latest key p xs ≡ none
    → any p xs ≡ false
any-false_of_latest key p [] e = refl
any-false_of_latest key p (x ∷ xs) e = ground (arith, any-false_of_latest key p xs)

pub find_today-holds :
    (staff_id today : ℕ) (db : Db) (s : Session)
    → find_today staff_id today db ≡ some s
    → (s.staff_id ≡ staff_id) × (s.date ≡ today)
unfolding find_today
find_today-holds staff_id today db s e =
    ground (arith, find_first-holds (is_session_on staff_id today) db.sessions e)

-- A day with an open session refuses a punch-in.
already_punched_in :
    (env : Env) (staff_id org_id today time : ℕ) (db : Db) (s : Session)
    → find_open_old staff_id today db ≡ none
    → find_today staff_id today db ≡ some s
    → is_opened s.status ≡ true
    → (punch_in_transaction env staff_id org_id today time db).0
      ≡ err (bad_request "Already punched in today.")
unfolding punch_in_transaction find_open_old find_today
already_punched_in env staff_id org_id today time db s o f h = ground (
  arith,
  any-false_of_latest (λ r. r.date) (is_open_before staff_id today) db.sessions o,
  find_first-holds (is_session_on staff_id today) db.sessions f,
  any_of_find_first (is_session_on staff_id today) (is_open_on staff_id today) db.sessions s f,
)

module _ (env : Env) (staff_id org_id today time : ℕ) (db : Db) (s : Session) where
  -- When a scan finds the person working in a session that its identifier finds, a break may start
  -- and a punch-out is accepted; the end of a break and a second punch-in are refused.
  pub working_answers :
      (state_on staff_id today db).state ≡ working
      → (state_on staff_id today db).session ≡ some s
      → find_session s.id db ≡ some s
      → (is_ok (break_start_transaction env staff_id org_id s.id time db).0 ≡ true)
        × (is_ok (punch_out_transaction env staff_id org_id s.id time db).0 ≡ true)
        × ((break_end_transaction env staff_id org_id s.id time db).0
            ≡ err (bad_request "Cannot end break – not currently on break."))
        × ((punch_in_transaction env staff_id org_id today time db).0
            ≡ err (bad_request "Already punched in today."))
  unfolding break_transaction punch_out_transaction find_own_session
  working_answers w e u =
      let inv = working_inv staff_id today db s w e in
      let own = find_today-holds staff_id today db s inv.1 in
      (
        ground (arith, inv.2, inv.3, own.0),
        ground (arith, inv.2, inv.3, own.0),
        ground (arith, inv.2, inv.3, own.0),
        already_punched_in env staff_id org_id today time db s inv.0 inv.1 inv.2,
      )

  -- When a scan finds the person on a break in such a session, the break may end; the start of
  -- another break and a second punch-in are refused.
  pub on_break_answers :
      (state_on staff_id today db).state ≡ on_break
      → (state_on staff_id today db).session ≡ some s
      → find_session s.id db ≡ some s
      → (is_ok (break_end_transaction env staff_id org_id s.id time db).0 ≡ true)
        × ((break_start_transaction env staff_id org_id s.id time db).0
            ≡ err (bad_request "Cannot start break – invalid state (must be working)."))
        × ((punch_in_transaction env staff_id org_id today time db).0
            ≡ err (bad_request "Already punched in today."))
  unfolding break_transaction find_own_session
  on_break_answers w e u =
      let inv = on_break_inv staff_id today db s w e in
      let own = find_today-holds staff_id today db s inv.1 in
      (
        ground (arith, inv.2, inv.3, own.0),
        ground (arith, inv.2, inv.3, own.0),
        already_punched_in env staff_id org_id today time db s inv.0 inv.1 inv.2,
      )

abbrev pub is_no_session : AttendanceState → Bool
is_no_session no_session_today = true
is_no_session _ = false

latest-none_of_any-false :
    (key : Session → ℕ) (p : Session → Bool) (xs : List Session)
    → any p xs ≡ false
    → find_latest key p xs ≡ none
latest-none_of_any-false key p [] e = refl
latest-none_of_any-false key p (x ∷ xs) e = ground (arith, latest-none_of_any-false key p xs)

any-false_of_today :
    (staff_id today : ℕ) (xs : List Session)
    → find_first (is_session_on staff_id today) xs ≡ none
    → any (is_open_on staff_id today) xs ≡ false
any-false_of_today staff_id today [] e = refl
any-false_of_today staff_id today (x ∷ xs) e = ground (arith, any-false_of_today staff_id today xs)

-- On a day without a session a punch-in succeeds exactly when the scan says that there is none.
pub punch_in_offered :
    (env : Env) (staff_id org_id today time : ℕ) (db : Db)
    → find_today staff_id today db ≡ none
    → is_ok (punch_in_transaction env staff_id org_id today time db).0
      ≡ is_no_session (state_on staff_id today db).state
unfolding punch_in_transaction state_on find_open_old find_today
punch_in_offered env staff_id org_id today time db f =
    elim (Bool-cases (any (is_open_before staff_id today) db.sessions)) [
      | inl old ↦
          ground
            (arith, any-false_of_latest (λ r. r.date) (is_open_before staff_id today) db.sessions)
      | inr fresh ↦ ground (
        arith,
        latest-none_of_any-false (λ r. r.date) (is_open_before staff_id today) db.sessions fresh,
        any-false_of_today staff_id today db.sessions f,
      )
    ]

-- A scan that says that the day is completed offers nothing. A punch-in is accepted all the same,
-- unless some session of that day is still open: the day then has one more session.
pub completed_day_accepts_punch_in :
    (env : Env) (staff_id org_id today time : ℕ) (db : Db)
    → (state_on staff_id today db).state ≡ day_completed
    → any (is_open_on staff_id today) db.sessions ≡ false
    → (allowed_actions_in (state_on staff_id today db).state ≡ [])
      × (is_ok (punch_in_transaction env staff_id org_id today time db).0 ≡ true)
unfolding punch_in_transaction state_on find_open_old
completed_day_accepts_punch_in env staff_id org_id today time db c o = (
  rw c,
  ground (arith, any-false_of_latest (λ r. r.date) (is_open_before staff_id today) db.sessions),
)
