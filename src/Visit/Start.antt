-- ===== src/Visit/Start.antt =====
-- `startVisit`
pub mod Stored
use vms_backend_testing.Base.{
  Bool, true, false, not, ◌&&◌, Option, none, some, ◌==◌, if◌then◌else◌, Ident, present,
}
use vms_backend_testing.Base.Text.{Text, trim, normalize}
use vms_backend_testing.Base.Request.{
  Action, Exception, ok, err, bad_request, unauthorized, internal, ◌>>=◌, ◌>>◌, pure, gets,
  or_throw, throw_if, modify,
}
use vms_backend_testing.Base.Table.{any, find_first, create}
use vms_backend_testing.Visit.Model
use vms_backend_testing.Visit.Model.{
  pending, Visit, NotificationType, Notification, NotificationAction, Staff, Mail, Db, Env,
  StartVisitDto,
}
use vms_backend_testing.Visit.Access.{
  is_active_for, check_system, send, push_to, add_visit, add_notification,
}

-- `staff.findUnique({ where: { id, orgId } })`
unfoldable pub find_host : Ident → Ident → Db → Option Staff
find_host staff_id org_id db = find_first (λ s. s.id == staff_id && s.org_id == org_id) db.staff

-- The URL of the picture, `null` where there is none.
upload_picture : Env → Option Ident → Action Db (Option Text)
upload_picture env none = pure none
upload_picture env (some file) = do
  url ← or_throw (env.upload file) (bad_request "Image upload failed")
  pure (some url)

unfoldable pub new_visit : Env → Ident → StartVisitDto → Option Text → Visit
new_visit env org_id dto image_url = record {
  id = env.uuid 0;
  org_id = org_id;
  full_name = trim dto.full_name;
  visitor_organization = dto.visitor_organization;
  email = normalize dto.email;
  reason_id = some dto.reason_id;
  staff_id = dto.staff_id;
  start_time = none;
  end_time = none;
  status = pending;
  check_in_picture = image_url;
  remarks = none;
  created_at = env.now;
  updated_at = env.now;
}

abbrev visit_request : Env → Ident → StartVisitDto → Notification
visit_request env org_id dto = record {
  id = env.uuid 1;
  org_id = org_id;
  staff_id = dto.staff_id;
  visit_id = env.uuid 0;
  type = NotificationType.visit_request;
  title = "New visitor";
  message = (dto.full_name, " is here to see you.");
  is_read = false;
  action = NotificationAction.pending;
  created_at = env.now;
}

-- The writes and the messages of a request that passed the checks. The database refuses a reason
-- that is not there; nothing is rolled back if a mail fails.
unfoldable pub request_visit : Env → Ident → StartVisitDto → Staff → Option Text → Action Db Ident
unfolding push_to
request_visit env org_id dto host image_url = do
  known ← gets (λ db. any (λ r. r == dto.reason_id) db.reasons)
  throw_if (not known) (internal "Foreign key constraint violated")
  modify (add_visit (new_visit env org_id dto image_url))
  modify (add_notification (visit_request env org_id dto))
  modify (push_to (present host.user_id) (env.uuid 1))
  send env (Mail.visit_request_to_host (env.uuid 0))
  send env (Mail.visit_request_to_visitor (env.uuid 0))
  pure (env.uuid 0)

unfoldable pub start_visit : Env → Ident → Ident → StartVisitDto → Option Ident → Action Db Ident
unfolding check_system upload_picture
start_visit env org_id system_id dto picture = do
  check_system org_id system_id
  found ← gets (find_host dto.staff_id org_id)
  host ←
      or_throw found (unauthorized "Invalid staff id or staff doesn't belong to your organization")
  active ← gets (λ db. any (is_active_for org_id (normalize dto.email)) db.visits)
  throw_if active (bad_request "Visitor already has an active visit.")
  image_url ← upload_picture env picture
  request_visit env org_id dto host image_url
