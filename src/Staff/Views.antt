-- ===== src/Staff/Views.antt =====
-- The requests that read members of the staff.
use vms_backend_testing.Base.{
  ℕ, Bool, false, not, ◌&&◌, ◌||◌, Option, none, some, List, [], ◌∷◌, map, ◌==◌, ltb, leb,
  if◌then◌else◌, Ident, is_ident,
}
use mathlib.Core.List.{reverse}
use vms_backend_testing.Base.Request.{
  Action, bad_request, unauthorized, not_found, ◌>>=◌, ◌>>◌, gets, or_throw, throw_if,
}
use vms_backend_testing.Base.Role.{Role, root, super_admin, admin, system, role_eq, includes}
use vms_backend_testing.Base.Table.{find_first, find_many, order_by}
use vms_backend_testing.Hours.{WorkingHours}
use vms_backend_testing.Auth.Model.{UserCredential}
use vms_backend_testing.Attendance.Model.{Event, Session}
use vms_backend_testing.Staff.Model.{
  Department, Staff, Db, Env, chosen, find_organization, find_staff, target_organization,
}

abbrev pub department_of : Option Ident → Db → Option Department
department_of none db = none
department_of (some id) db = find_first (λ d. d.id == id) db.departments

-- `gte: startOfToday, lt: startOfTomorrow`
abbrev pub is_today : Env → ℕ → Bool
is_today env t = leb env.start_of_today t && ltb t env.start_of_tomorrow

-- A member with the rows that the query includes.
pub record StaffDetails : Type 0 where
  pub staff : Staff
  pub department : Option Department
  pub attendance_events : List Event
  pub attendance_session : Option Session
  pub organization_hours : List WorkingHours
  pub working_hours : List WorkingHours

abbrev or_else : {A : Type 0} → Option A → Option A → Option A
or_else none b = b
or_else (some a) b = some a

-- `orderBy: { createdAt: 'desc' }, take: 1`: a row that was created later stands later.
abbrev pub find_last : {A : Type 0} → (A → Bool) → List A → Option A
find_last p [] = none
find_last p (x ∷ xs) = or_else (find_last p xs) (if p x then some x else none)

abbrev pub details : Env → Db → Staff → StaffDetails
details env db s = record {
  staff = s;
  department = department_of s.department_id db;
  attendance_events = reverse (
      order_by (λ e. e.timestamp)
        (find_many (λ e. e.staff_id == s.id && is_today env e.timestamp) db.events));
  attendance_session = find_last (λ e. e.staff_id == s.id && is_today env e.date) db.sessions;
  organization_hours = find_many (λ h. is_ident h.org_id s.org_id) db.working_hours;
  working_hours = find_many (λ h. is_ident h.staff_id s.id) db.working_hours;
}

-- This one does not include the hours.
abbrev pub without_hours : StaffDetails → StaffDetails
without_hours d = record d { organization_hours = []; working_hours = [] }

unfoldable pub get_all_staff_member_details :
    Env → Option Ident → Role → Option Ident → Action Db (List StaffDetails)
get_all_staff_member_details env org_id role q_org_id = do
  throw_if (not (includes (root ∷ super_admin ∷ admin ∷ system ∷ []) role)) (
      unauthorized
        "Only root, superadmin, and admin can access the staff members of an organization.")
  org ← target_organization (role_eq root role || role_eq system role) q_org_id org_id
  gets (λ db.
      map (λ s. without_hours (details env db s)) (find_many (λ s. s.org_id == org.id) db.staff))

unfoldable pub get_staff_member_details :
    Env → Option Ident → Role → Ident → Option Ident → Action Db StaffDetails
get_staff_member_details env org_id role staff_id q_org_id = do
  throw_if (not (includes (root ∷ super_admin ∷ admin ∷ system ∷ Role.staff ∷ []) role)) (
      unauthorized
        "Only root, superadmin, and admin can access the staff members of an organization.")
  org ← target_organization (role_eq root role) q_org_id org_id
  found ← gets (find_staff staff_id)
  s ← or_throw found (not_found "Staff member doesn't exist.")
  throw_if (not (s.org_id == org.id))
      (bad_request "This staff member does not belong to the specified organization.")
  gets (λ db. details env db s)

-- This one includes no attendance.
abbrev pub without_attendance : StaffDetails → StaffDetails
without_attendance d = record d { attendance_events = []; attendance_session = none }

unfoldable pub get_staff_member_details_user_id :
    Env → Option Ident → Role → Ident → Action Db StaffDetails
get_staff_member_details_user_id env org_id role user_id = do
  throw_if (not (includes (super_admin ∷ admin ∷ Role.staff ∷ []) role))
      (unauthorized "Only superadmin, and admin can access the staff members of an organization.")
  org ← target_organization false none org_id
  found ← gets (λ db. find_first (λ s. is_ident s.user_id user_id) db.staff)
  s ← or_throw found (not_found "Staff member doesn't exist.")
  throw_if (not (s.org_id == org.id))
      (unauthorized "This staff member does not belong to the specified organization.")
  gets (λ db. without_attendance (details env db s))

abbrev pub is_user_of : Ident → Option UserCredential → Bool
is_user_of org_id none = false
is_user_of org_id (some u) = is_ident u.org_id org_id

abbrev with_department : Db → Option Staff → Option (Staff × Option Department)
with_department db none = none
with_department db (some s) = some (s, department_of s.department_id db)

unfoldable pub get_super_admin_details :
    Option Ident → Role → Ident → Option Ident → Action Db (Option (Staff × Option Department))
get_super_admin_details org_id role user_id q_org_id = do
  throw_if (not (includes (super_admin ∷ root ∷ []) role)) (unauthorized "Invalid role.")
  target ←
      or_throw (chosen (role_eq root role) q_org_id org_id)
        (bad_request "Organization ID is required.")
  found_org ← gets (find_organization target)
  or_throw found_org (not_found "Invalid organization.")
  user ← gets (λ db. find_first (λ u. u.id == user_id) db.users)
  throw_if (not (role_eq root role) && not (is_user_of target user))
      (unauthorized "Credentials mismatch.")
  found ← gets (λ db. find_first (λ s. s.org_id == target && role_eq super_admin s.role) db.staff)
  gets (λ db. with_department db found)
