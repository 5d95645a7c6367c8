-- ===== src/Visit/Finish.antt =====
-- `endVisit` and `endVisitQr`
pub mod CheckOut
use vms_backend_testing.Base.{
  Bool, true, false, not, ◌&&◌, Option, none, some, List, [], ◌∷◌, ◌==◌, if◌then◌else◌, Ident,
  present,
}
use vms_backend_testing.Base.Text.{Text, text_eq, trim, normalize}
use vms_backend_testing.Base.Request.{
  Action, bad_request, unauthorized, not_found, ◌>>=◌, ◌>>◌, pure, gets, or_throw, throw_if, modify,
}
use vms_backend_testing.Base.Role.{Role, super_admin, admin, system, staff, includes}
use vms_backend_testing.Base.Table.{any, find_first}
use vms_backend_testing.Visit.Model.{completed, Visit, Mail, Db, Env}
use vms_backend_testing.Visit.Access.{
  is_ongoing, is_completed, find_visit, check_system, send, update_visit,
}

abbrev pub complete : Env → Visit → Visit
complete env v = record v { status = completed; end_time = some env.now; updated_at = env.now }

-- The update of a visit that is found, and the mails about it.
unfoldable pub complete_visit : Env → Ident → Action Db Unit
complete_visit env id = do
  modify (update_visit id (complete env))
  send env (Mail.visit_end_to_visitor id)
  send env (Mail.visit_end_to_host id)

-- `if (systemId) …`
check_if_system : Ident → Option Ident → Action Db Unit
unfolding check_system
check_if_system org_id none = pure tt
check_if_system org_id (some id) = check_system org_id id

-- `role && !allowedRoles.includes(role)`
abbrev refused_role : Option Role → Bool
refused_role none = false
refused_role (some r) = not (includes (super_admin ∷ admin ∷ system ∷ staff ∷ []) r)

abbrev is_visit_of : Text → Ident → Text → Visit → Bool
is_visit_of name org_id email v =
    text_eq v.full_name name
    && (v.org_id == org_id && (text_eq v.email email && is_ongoing v.status))

-- The visit that the visitor who gives this name and e-mail has going on.
unfoldable pub find_ongoing : Text → Ident → Text → Db → Option Visit
find_ongoing name org_id email db = find_first (is_visit_of name org_id email) db.visits

unfoldable pub end_visit : Env → Ident → Text → Text → Option Ident → Option Role → Action Db Unit
unfolding check_if_system
end_visit env org_id full_name email system_id role = do
  check_if_system org_id (present system_id)
  found ← gets (find_ongoing (trim full_name) org_id (normalize email))
  visit ← or_throw found (bad_request "No such visit is on-going.")
  throw_if (refused_role role) (bad_request "You are not allowed to end this visit.")
  complete_visit env visit.id

-- The visit, if `!visit || visit.status === 'COMPLETED'` is false.
abbrev unfinished : Option Visit → Option Visit
unfinished none = none
unfinished (some v) = if is_completed v.status then none else some v

unfoldable pub find_unfinished : Ident → Db → Option Visit
find_unfinished id db = unfinished (find_visit id db)

unfoldable pub end_visit_qr : Env → Ident → Role → Ident → Action Db Unit
end_visit_qr env org_id role visit_id = do
  throw_if (org_id == 0) (bad_request "Provide valid orgId.")
  throw_if (visit_id == 0) (bad_request "Please scan a valid checkout QR code.")
  throw_if (not (includes (system ∷ []) role))
      (unauthorized "Unauthorized checkout attempt. Invalid role.")
  org_exists ← gets (λ db. any (λ o. o == org_id) db.organizations)
  throw_if (not org_exists) (not_found "Organization does not exists.")
  found ← gets (find_unfinished visit_id)
  visit ← or_throw found (bad_request "Please scan a valid checkout QR code.")
  throw_if (not (visit.org_id == org_id)) (unauthorized "Unauthorized checkout attempt.")
  complete_visit env visit.id
