-- ===== src/Attendance/Access.antt =====
-- Who may use the attendance endpoints, and for whom: the checks at the head of `scan` and `action`,
-- and `getStaffByEmployeeCode`.
use vms_backend_testing.Base.{
  Bool, false, not, Option, none, some, [], ◌∷◌, ◌==◌, Ident, present, is_ident,
}
use vms_backend_testing.Base.Request.{
  Action, bad_request, not_found, ◌>>=◌, ◌>>◌, pure, gets, or_throw, throw_if,
}
use vms_backend_testing.Base.Role.{Role, system, includes}
use vms_backend_testing.Base.Table.{find_first}
use vms_backend_testing.Attendance.Model.{Db, Organization, SystemCredential, Staff}

unfoldable pub find_organization : Ident → Db → Option Organization
find_organization id db = find_first (λ o. o.id == id) db.organizations

unfoldable pub find_system : Ident → Db → Option SystemCredential
find_system id db = find_first (λ s. s.id == id) db.systems

abbrev belongs_to : Option SystemCredential → Ident → Bool
belongs_to none org_id = false
belongs_to (some s) org_id = s.org_id == org_id

-- The checks that `scan` and `action` begin with.
unfoldable pub check_system : Ident → Ident → Role → Action Db Organization
unfolding find_organization find_system
check_system org_id system_id role = do
  throw_if (not (includes (system ∷ []) role))
      (bad_request "Invalid role, only System can do this action.")
  found ← gets (find_organization org_id)
  org ← or_throw found (not_found "Invalid organization id.")
  system_exists ← gets (find_system system_id)
  throw_if (not (belongs_to system_exists org_id))
      (bad_request "Invalid credentials, system account belongs to different organization.")
  pure org

find_by_email : Option Ident → Db → Option Staff
find_by_email none db = none
find_by_email (some e) db = find_first (λ s. s.email == e) db.staff

find_staff : Option Ident → Option Ident → Db → Option Staff
unfolding find_by_email
find_staff none email db = find_by_email email db
find_staff (some c) email db = find_first (λ s. is_ident s.employee_code c) db.staff

unfoldable pub get_staff_by_employee_code : Ident → Option Ident → Option Ident → Action Db Staff
unfolding find_organization find_staff
get_staff_by_employee_code org_id employee_code email = do
  org_exists ← gets (find_organization org_id)
  org ← or_throw org_exists (not_found "Invalid org id.")
  found ← gets (find_staff (present employee_code) (present email))
  staff ← or_throw found (not_found "No employee found for these credentials.")
  throw_if (not staff.badge_active) (bad_request "This badge is deactivated.")
  throw_if (not (org.id == staff.org_id))
      (bad_request "Employee belongs to different organization.")
  pure staff
