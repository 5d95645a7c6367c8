-- ===== src/Visit/Access.antt =====
-- The queries, checks and messages that the operations on visits share.
use vms_backend_testing.Base.{
  Bool, true, false, not, ◌&&◌, Option, none, some, ◌==◌, if◌then◌else◌, Ident, is_ident, ◌≡◌, refl,
  arith,
}
use vms_backend_testing.Base.Text.{Text, text_eq}
use vms_backend_testing.Base.Request.{
  Action, ok, err, bad_request, internal, ◌>>=◌, gets, or_throw, throw_if,
}
use vms_backend_testing.Base.Table.{create, find_first, update}
use vms_backend_testing.Visit.Model.{
  MeetingStatus, ongoing, completed, pending, rejected, accepted, Visit, Notification, Staff,
  SystemCredential, Mail, Db, Env,
}

-- `status: { in: ['PENDING', 'ACCEPTED', 'ONGOING'] }`
abbrev pub is_active : MeetingStatus → Bool
is_active pending = true
is_active accepted = true
is_active ongoing = true
is_active completed = false
is_active rejected = false

abbrev pub is_pending : MeetingStatus → Bool
is_pending pending = true
is_pending _ = false

abbrev pub is_ongoing : MeetingStatus → Bool
is_ongoing ongoing = true
is_ongoing _ = false

abbrev pub is_completed : MeetingStatus → Bool
is_completed completed = true
is_completed _ = false

abbrev pub is_rejected : MeetingStatus → Bool
is_rejected rejected = true
is_rejected _ = false

abbrev pub is_active_for : Ident → Text → Visit → Bool
is_active_for org_id email v = v.org_id == org_id && (text_eq v.email email && is_active v.status)

abbrev pub find_system : Ident → Db → Option SystemCredential
find_system id db = find_first (λ s. s.id == id) db.systems

abbrev pub find_visit : Ident → Db → Option Visit
find_visit id db = find_first (λ v. v.id == id) db.visits

abbrev pub visit_in : Ident → Option Visit → Option Visit
visit_in org_id none = none
visit_in org_id (some v) = if v.org_id == org_id then some v else none

-- The check of the system account that `startVisit` and `endVisit` begin with.
unfoldable pub check_system : Ident → Ident → Action Db Unit
check_system org_id system_id = do
  found ← gets (find_system system_id)
  credentials ← or_throw found (bad_request "Invalid user id.")
  throw_if (not (credentials.org_id == org_id)) (bad_request "Invalid credentials.")

-- `staff.findFirst({ where: { userId, orgId } })`
unfoldable pub find_staff_of_user : Ident → Ident → Db → Option Staff
find_staff_of_user user_id org_id db =
    find_first (λ s. is_ident s.user_id user_id && s.org_id == org_id) db.staff

-- A mail that the server refuses throws.
unfoldable pub send : Env → Mail → Action Db Unit
send env mail db =
    if env.mail_works mail
    then (ok tt, record db { mails = create mail db.mails })
    else (err (internal "mail"), db)

-- `try { … } catch (error) { console.error(…) }`
abbrev pub attempt : Action Db Unit → Action Db Unit
attempt m db = (ok tt, (m db).1)

-- `if (userId) notificationsGateway.sendToStaff(userId, notification)`
unfoldable pub push_to : Option Ident → Ident → Db → Db
push_to none id db = db
push_to (some user) id db = record db { pushes = create (user, id) db.pushes }

abbrev pub add_visit : Visit → Db → Db
add_visit v db = record db { visits = create v db.visits }

abbrev pub add_notification : Notification → Db → Db
add_notification n db = record db { notifications = create n db.notifications }

abbrev pub update_visit : Ident → (Visit → Visit) → Db → Db
update_visit id f db = record db { visits = update (λ v. v.id == id) f db.visits }

pub visits-send : (env : Env) (mail : Mail) (db : Db) → (send env mail db).1.visits ≡ db.visits
unfolding send
visits-send env mail db = ground arith

pub visits-push_to :
    (user : Option Ident) (id : Ident) (db : Db) → (push_to user id db).visits ≡ db.visits
unfolding push_to
visits-push_to none id db = refl
visits-push_to (some u) id db = refl
