-- ===== src/Attendance/Actions/Shape.antt =====
-- The shape of a session, and that every action keeps it.
use vms_backend_testing.Base.{
  ℕ, ◌<◌, ◌≡◌, Bool, true, false, Option, none, some, String, inl, inr, arith, ◌==◌, Ident,
  Option-cases, Bool-cases,
}
use vms_backend_testing.Base.Text.{Text}
use vms_backend_testing.Base.Table.{All, update}
use vms_backend_testing.Base.Table.Rows.{All-create, All-update, find_first-All}
use vms_backend_testing.Attendance.Model.{
  EventType, SessionStatus, opened, closed, ClosureType, normal, late, Event, Session, Db, Env,
  ActionName, AttendanceActionDto,
}
use vms_backend_testing.Attendance.Sessions.{
  is_opened, new_session, new_event, events_of, find_own_session, find_own_session-found,
}
use vms_backend_testing.Attendance.Actions.{
  Reply, handle_punch_in, handle_break_start, handle_break_end, handle_punch_out,
  handle_late_punch_out_and_punch_in, perform, punch_in_transaction, break_transaction,
  punch_out_transaction, late_transaction, totals_with, close_session, close_late, late_event,
  not_after,
}

-- The shape of a session: an open one has its punch-in and nothing else; a closed one has its
-- closure, and if that was late it is marked so and the punch-out is after the punch-in.
abbrev Shape : SessionStatus → Option ClosureType → Bool → Option ℕ → Option ℕ → Type 0
Shape opened none false (some first) none = Unit
Shape closed (some normal) false (some first) (some last) = Unit
Shape closed (some late) true (some first) (some last) = first < last
Shape _ _ _ _ _ = ⊥

abbrev pub HasShape : Session → Type 0
HasShape s = Shape s.status s.closure_type s.is_late_closure s.first_punch_in_at s.last_punch_out_at

-- Every session of the table has its shape.
abbrev pub AllShaped : Db → Type 0
AllShaped db = All HasShape db.sessions

close_session-HasShape :
    (time : ℕ) (totals : ℕ × ℕ) (s : Session)
    → HasShape s
    → is_opened s.status ≡ true
    → HasShape (close_session normal time totals s)
close_session-HasShape time totals s h o = ground arith

close_late-HasShape :
    (time : ℕ) (totals : ℕ × ℕ) (reason : Option Text) (now : ℕ) (s : Session)
    → HasShape s
    → is_opened s.status ≡ true
    → not_after time s.first_punch_in_at ≡ false
    → HasShape (close_late time totals reason now s)
close_late-HasShape time totals reason now s h o a = ground arith

module _ (env : Env) (staff_id org_id : Ident) where
  punch_in-AllShaped :
      (today time : ℕ) (db : Db)
      → AllShaped db
      → AllShaped (punch_in_transaction env staff_id org_id today time db).1
  unfolding punch_in_transaction
  punch_in-AllShaped today time db h = ground (
    arith,
    All-create HasShape (new_session (env.uuid 0) org_id staff_id today time) db.sessions h tt,
  )

  break-AllShaped :
      (fits : Option Event → Bool) (refused : String) (kind : EventType) (reply : Reply)
      (id : Ident) (time : ℕ) (db : Db)
      → AllShaped db
      → AllShaped (break_transaction fits refused kind reply env staff_id org_id id time db).1
  unfolding break_transaction
  break-AllShaped fits refused kind reply id time db h = ground arith

  punch_out-AllShaped :
      (id : Ident) (time : ℕ) (db : Db)
      → AllShaped db
      → AllShaped (punch_out_transaction env staff_id org_id id time db).1
  unfolding punch_out_transaction
  punch_out-AllShaped id time db h = elim (Option-cases (find_own_session staff_id id db)) [
    | inl missing ↦ ground arith
    | inr (s, e) ↦
        let event = new_event (env.uuid 0) org_id staff_id s.id EventType.punch_out time in
        let totals = totals_with (events_of s.id db) event in
        let found = (find_own_session-found staff_id id db s e).0 in
        let shaped = find_first-All HasShape (λ r. r.id == s.id) s db.sessions found h in
        elim (Bool-cases (is_opened s.status)) [
          | inr not_open ↦ ground arith
          | inl is_open ↦ ground (
            arith,
            All-update HasShape (λ r. r.id == s.id) (close_session normal time totals) s db.sessions
                found h (close_session-HasShape time totals s shaped is_open),
          )
        ]
  ]

  late-AllShaped :
      (id : Ident) (out back today : ℕ) (reason : Option Text) (db : Db)
      → AllShaped db
      → AllShaped (late_transaction env staff_id org_id id out back today reason db).1
  unfolding late_transaction
  late-AllShaped id out back today reason db h =
      elim (Option-cases (find_own_session staff_id id db)) [
        | inl missing ↦ ground arith
        | inr (s, e) ↦
            let event = late_event (env.uuid 0) org_id staff_id s.id out reason in
            let totals = totals_with (events_of s.id db) event in
            let found = (find_own_session-found staff_id id db s e).0 in
            let shaped = find_first-All HasShape (λ r. r.id == s.id) s db.sessions found h in
            let close = close_late out totals reason env.now in
            let closed_one = update (λ r. r.id == s.id) close db.sessions in
            elim (Bool-cases (is_opened s.status)) [
              | inr not_open ↦ ground arith
              | inl is_open ↦ elim (Bool-cases (not_after out s.first_punch_in_at)) [
                | inl early ↦ ground arith
                | inr after ↦ ground (
                  arith,
                  All-create HasShape (new_session (env.uuid 1) org_id staff_id today back)
                      closed_one
                      (All-update HasShape (λ r. r.id == s.id) close s db.sessions found h
                        (close_late-HasShape out totals reason env.now s shaped is_open after))
                      tt,
                )
              ]
            ]
      ]

  -- Whatever the action and its outcome, if every session has its shape then so it is afterwards.
  pub perform-AllShaped :
      (name : ActionName) (dto : AttendanceActionDto) (db : Db)
      → AllShaped db
      → AllShaped (perform name env staff_id org_id dto db).1
  unfolding perform handle_punch_in handle_break_start handle_break_end handle_punch_out
      handle_late_punch_out_and_punch_in
  perform-AllShaped ActionName.punch_in dto db h = grind (arith, punch_in-AllShaped)
  perform-AllShaped ActionName.break_start dto db h = grind (arith, break-AllShaped)
  perform-AllShaped ActionName.break_end dto db h = grind (arith, break-AllShaped)
  perform-AllShaped ActionName.punch_out dto db h = grind (arith, punch_out-AllShaped)
  perform-AllShaped ActionName.late_punch_out_and_punch_in dto db h = grind (arith, late-AllShaped)
  perform-AllShaped ActionName.other dto db h = h
