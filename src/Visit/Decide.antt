-- ===== src/Visit/Decide.antt =====
-- `acceptVisit` and `rejectVisit`: checks on a first reading of the tables, then a transaction that
-- tests the status once more.
pub mod Races
pub mod Authority
use vms_backend_testing.Base.{
  ℕ, Bool, true, false, not, ◌&&◌, Option, none, some, List, [], ◌∷◌, ◌==◌, if◌then◌else◌, Ident,
}
use vms_backend_testing.Base.Text.{Text}
use vms_backend_testing.Base.Request.{
  Action, unauthorized, not_found, conflict, internal, ◌>>=◌, ◌>>◌, pure, gets, or_throw, throw_if,
  modify, transaction,
}
use vms_backend_testing.Base.Role.{Role, super_admin, admin, staff, includes}
use vms_backend_testing.Base.Table.{count, find_first, update_many}
use vms_backend_testing.Visit.Model.{
  MeetingStatus, ongoing, rejected, Visit, NotificationAction, Notification, Mail, Db, Env,
}
use vms_backend_testing.Visit.Access.{
  is_pending, find_visit, visit_in, find_staff_of_user, send, attempt,
}

abbrev pub is_pending_visit : Ident → Visit → Bool
is_pending_visit id v = v.id == id && is_pending v.status

-- `visit.findFirst({ where: { id, status: 'PENDING' } })`, of this organisation
unfoldable pub find_pending : Ident → Ident → Db → Option Visit
find_pending visit_id org_id db = visit_in org_id (find_first (is_pending_visit visit_id) db.visits)

-- The checks before the transaction.
unfoldable pub check_decision : Ident → Ident → Role → Ident → Action Db Visit
check_decision org_id user_id role visit_id = do
  throw_if (not (includes (super_admin ∷ admin ∷ staff ∷ []) role))
      (unauthorized "Unauthorized role.")
  host ← gets (find_staff_of_user user_id org_id)
  host' ← or_throw host (not_found "Staff doesn't exists.")
  found ← gets (find_pending visit_id org_id)
  visit ← or_throw found (not_found "No such visit found.")
  throw_if (not (visit.staff_id == host'.id) && not (includes (super_admin ∷ admin ∷ []) role))
      (unauthorized "Unauthorised update attempt.")
  pure visit

abbrev pub mark_notifications : Ident → NotificationAction → Db → Db
mark_notifications visit_id action db = record db {
  notifications =
      update_many (λ n. n.visit_id == visit_id) (λ n. record n { action = action; is_read = true })
        db.notifications;
}

abbrev pub decide_visit : Ident → (Visit → Visit) → Db → Db
decide_visit visit_id f db = record db {
  visits = update_many (is_pending_visit visit_id) f db.visits;
}

-- The transaction, from the `updateMany` of the visit to the visit that it returns.
unfoldable pub commit_decision : Ident → (Visit → Visit) → NotificationAction → Action Db Visit
commit_decision visit_id f action = transaction (do
  updated ← gets (λ db. count (is_pending_visit visit_id) db.visits)
  modify (decide_visit visit_id f)
  throw_if (updated == 0) (conflict "Visit already processed or invalid.")
  modify (mark_notifications visit_id action)
  found ← gets (find_visit visit_id)
  or_throw found (internal "Visit updated but not found."))

abbrev pub accept : Env → Option Text → Visit → Visit
accept env reason v = record v {
  status = ongoing;
  remarks = reason;
  start_time = some env.now;
  updated_at = env.now;
}

abbrev pub reject : Env → Text → Visit → Visit
reject env reason v = record v { status = rejected; remarks = some reason; updated_at = env.now }

unfoldable pub accept_visit : Env → Ident → Ident → Role → Ident → Option Text → Action Db Unit
accept_visit env org_id user_id role visit_id reason = do
  check_decision org_id user_id role visit_id
  visit ← commit_decision visit_id (accept env reason) NotificationAction.accepted
  attempt (
      send env (Mail.visit_start_to_visitor visit.id env.qr_works)
      >> send env (Mail.visit_start_to_host visit.id env.qr_works))

unfoldable pub reject_visit : Env → Ident → Ident → Role → Ident → Text → Action Db Unit
reject_visit env org_id user_id role visit_id reason = do
  check_decision org_id user_id role visit_id
  visit ← commit_decision visit_id (reject env reason) NotificationAction.rejected
  attempt (send env (Mail.visit_reject_to_visitor visit.id))
