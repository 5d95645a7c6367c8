-- ===== src/Visit/Remind.antt =====
-- `resendVisitNotification` and `checkMeetingStatus`
pub mod Throttle
use vms_backend_testing.Base.{
  ℕ, ◌-◌, ◌*◌, Bool, true, false, not, ◌&&◌, ◌||◌, Option, none, some, List, [], ◌∷◌, ltb, leb,
  ◌==◌, if◌then◌else◌, Ident, present,
}
use vms_backend_testing.Base.Text.{Text, text_eq}
use vms_backend_testing.Base.Request.{
  Action, bad_request, unauthorized, not_found, ◌>>=◌, ◌>>◌, pure, gets, or_throw, throw_if, throw,
  modify,
}
use vms_backend_testing.Base.Role.{Role, system, role_eq}
use vms_backend_testing.Base.Table.{find_first, find_latest}
use vms_backend_testing.Visit.Model.{
  MeetingStatus, ongoing, completed, pending, rejected, accepted, Visit, NotificationType,
  NotificationAction, Notification, Staff, Db, Env,
}
use vms_backend_testing.Visit.Access.{
  is_pending, find_system, find_visit, visit_in, push_to, add_notification,
}

-- `5 * 60 * 1000` milliseconds
abbrev pub resend_interval : ℕ
resend_interval = 5 * 60 * 1000

abbrev is_request : NotificationType → Bool
is_request NotificationType.visit_request = true
is_request NotificationType.reminder = true
is_request NotificationType.system = false

abbrev pub asks_for : Ident → Notification → Bool
asks_for visit_id n = n.visit_id == visit_id && is_request n.type

unfoldable pub last_request : Ident → Db → Option Notification
last_request visit_id db = find_latest (λ n. n.created_at) (asks_for visit_id) db.notifications

-- `Date.now() - last.createdAt.getTime() < 5 * 60 * 1000`, also for a time in the future, where
-- the difference is negative
abbrev pub too_soon : ℕ → Option Notification → Bool
too_soon now none = false
too_soon now (some n) = ltb (now - n.created_at) resend_interval

abbrev pub reminder_of : Env → Ident → Visit → Notification
reminder_of env org_id v = record {
  id = env.uuid 0;
  org_id = org_id;
  staff_id = v.staff_id;
  visit_id = v.id;
  type = NotificationType.reminder;
  title = "Visitor waiting";
  message = (v.full_name, " is waiting for your approval.");
  is_read = false;
  action = NotificationAction.pending;
  created_at = env.now;
}

abbrev user_of : Option Staff → Option Ident
user_of none = none
user_of (some s) = present s.user_id

user_of_host : Ident → Db → Option Ident
user_of_host staff_id db = user_of (find_first (λ s. s.id == staff_id) db.staff)

unfoldable pub resend_visit_notification :
    Env → Ident → Role → Ident → Ident → Action Db Notification
unfolding push_to user_of_host
resend_visit_notification env system_id role org_id visit_id = do
  throw_if (not (role_eq role system)) (unauthorized "Invalid role.")
  account ← gets (find_system system_id)
  or_throw account (not_found "Invalid credentials.")
  found ← gets (λ db. visit_in org_id (find_visit visit_id db))
  visit ← or_throw found (not_found "Visit not found.")
  throw_if (not (is_pending visit.status))
      (bad_request "Notification can only be resent for pending visits.")
  last ← gets (last_request visit.id)
  throw_if (too_soon env.now last) (bad_request "Please wait before resending notification.")
  modify (add_notification (reminder_of env org_id visit))
  user ← gets (user_of_host visit.staff_id)
  modify (push_to user (env.uuid 0))
  pure (reminder_of env org_id visit)

abbrev is_today : ℕ → ℕ → Ident → Text → Visit → Bool
is_today from to org_id email v =
    text_eq v.email email && (v.org_id == org_id && (leb from v.created_at && leb v.created_at to))

-- The `switch` on the status: ACCEPTED has no case.
report : Visit → MeetingStatus → Action Db (MeetingStatus × Ident)
report v pending = pure (pending, v.id)
report v ongoing = pure (ongoing, v.id)
report v completed = pure (completed, v.id)
report v rejected = pure (rejected, v.id)
report v accepted = throw (bad_request "Invalid visit status.")

abbrev is_empty : Text → Bool
is_empty [] = true
is_empty (c ∷ s) = false

-- `from` and `to` are the first and the last millisecond of the server's day.
unfoldable pub check_meeting_status :
    ℕ → ℕ → Ident → Role → Ident → Text → Action Db (MeetingStatus × Ident)
unfolding report
check_meeting_status from to system_id role org_id email = do
  throw_if (not (role_eq role system)) (unauthorized "Invalid role.")
  account ← gets (find_system system_id)
  or_throw account (not_found "Invalid credentials.")
  throw_if (org_id == 0 || is_empty email) (bad_request "Invalid visit details.")
  found ← gets (λ db. find_latest (λ v. v.created_at) (is_today from to org_id email) db.visits)
  visit ← or_throw found (not_found "Visit not found.")
  report visit visit.status
