-- ===== src/Staff/Edit.antt =====
-- `editStaffMemberDetails` and `deleteStaffMember`
use vms_backend_testing.Base.{
  Bool, true, false, not, ◌&&◌, ◌||◌, Option, none, some, List, ◌==◌, if◌then◌else◌, Ident, present,
  is_ident,
}
use vms_backend_testing.Base.Text.{Text, text_eq}
use vms_backend_testing.Base.Request.{
  Action, bad_request, unauthorized, not_found, internal, ◌>>=◌, ◌>>◌, pure, gets, or_throw,
  throw_if, modify, transaction,
}
use vms_backend_testing.Base.Role.{Role, root, super_admin, admin, role_eq, includes}
use vms_backend_testing.Base.Table.{any, find_first, create, update, delete, delete_many}
use vms_backend_testing.Hours.{WorkingHoursDto, of_staff, store_hours, no_start_before_end, no_day}
use vms_backend_testing.Auth.Model.{UserCredential, AccountStatus, active, disabled}
use vms_backend_testing.Staff.Model.{
  Organization, Department, Staff, Db, Env, find_staff, target_organization,
}
use vms_backend_testing.Staff.Codes.{generate_one_time_password}
use vms_backend_testing.Staff.Add.{editors, new_user, linked}

pub record EditStaffMemberDto : Type 0 where
  pub name : Option Text
  pub email : Option Text
  pub role : Option Role
  pub department_id : Option Ident
  pub designation : Option Text
  pub account_status : Option AccountStatus
  pub working_hours : Option WorkingHoursDto

abbrev pub given : {A : Type 0} → Option A → A → A
given none a = a
given (some b) a = b

abbrev pub or_old : {A : Type 0} → Option A → Option A → Option A
or_old none old = old
or_old (some a) old = some a

abbrev pub is_role : Role → Option Role → Bool
is_role r none = false
is_role r (some q) = role_eq r q

unfoldable pub edit_hours : Env → Ident → Option WorkingHoursDto → Action Db Unit
edit_hours env staff_id none = pure tt
edit_hours env staff_id (some dto) = do
  throw_if (no_start_before_end dto)
      (bad_request "Working hours start time must be before end time")
  throw_if (no_day dto) (bad_request "At least one working day must be selected")
  modify (λ db. record db {
    working_hours = store_hours env.uuid (of_staff staff_id) dto db.working_hours;
  })

abbrev pub is_super_admin_of : Ident → UserCredential → Bool
is_super_admin_of org_id u = is_ident u.org_id org_id && role_eq super_admin u.role

-- `include: { staff: true }`
abbrev pub staff_of : Option UserCredential → Db → Option Staff
staff_of none db = none
staff_of (some u) db = find_first (λ s. is_ident s.user_id u.id) db.staff

abbrev pub user_id_of : Option UserCredential → Ident
user_id_of none = 0
user_id_of (some u) = u.id

abbrev pub as_admin : UserCredential → UserCredential
as_admin u = record u { role = admin }

abbrev pub staff_as_admin : Staff → Staff
staff_as_admin s = record s { role = admin }

abbrev pub demote : Ident → Ident → Option UserCredential → Option Staff → Db → Db
demote org_id staff_id (some u) (some s) db = if s.id == staff_id then db else record db {
  users = update (λ x. x.id == u.id) as_admin db.users;
  staff = update (λ x. x.id == s.id) staff_as_admin db.staff;
}
demote org_id staff_id _ _ db = db

-- The superadmin that there is makes room for another one.
unfoldable pub make_room : Ident → Option Role → Staff → Db → Db
make_room org_id role s db =
    let existing = find_first (is_super_admin_of org_id) db.users in
    if is_role super_admin role && not (role_eq super_admin s.role)
    then demote org_id s.id existing (staff_of existing db) db
    else db

abbrev pub edited : EditStaffMemberDto → Staff → Staff
edited dto s = record s {
  name = given dto.name s.name;
  email = given dto.email s.email;
  role = given dto.role s.role;
  department_id = or_old dto.department_id s.department_id;
  designation = given dto.designation s.designation;
}

abbrev pub is_email_of_other : Option Text → Ident → Ident → Text → Bool
is_email_of_other none own id email = false
is_email_of_other (some e) own id email = not (id == own) && text_eq email e

abbrev pub is_missing : Option Ident → List Department → Bool
is_missing none departments = false
is_missing (some id) departments = not (any (λ d. d.id == id) departments)

abbrev pub is_given : Option AccountStatus → Bool
is_given none = false
is_given (some s) = true

-- `tx.staff.update`: the database has no column `accountStatus` in this table, refuses an e-mail that
-- somebody else of the staff has, and a department that there is not.
unfoldable pub update_staff : Ident → EditStaffMemberDto → Action Db Unit
update_staff staff_id dto = do
  throw_if (is_given dto.account_status) (internal "Unknown argument `accountStatus`.")
  taken ← gets (λ db. any (λ s. is_email_of_other dto.email staff_id s.id s.email) db.staff)
  throw_if taken (internal "Unique constraint failed")
  missing ← gets (λ db. is_missing dto.department_id db.departments)
  throw_if missing (internal "Foreign key constraint violated")
  modify (λ db. record db { staff = update (λ s. s.id == staff_id) (edited dto) db.staff })

abbrev pub status_after : Role → Option Role → AccountStatus → AccountStatus
status_after old new status =
    if (role_eq Role.staff old && is_role admin new) || is_role super_admin new
    then active
    else if (role_eq admin old || role_eq super_admin old) && is_role Role.staff new
    then disabled
    else status

abbrev pub user_edited : Role → EditStaffMemberDto → UserCredential → UserCredential
user_edited old dto u = record u {
  role = given dto.role u.role;
  email = given dto.email u.email;
  account_status = status_after old dto.role u.account_status;
}

-- `tx.userCredential.update`
unfoldable pub update_user : Ident → Role → EditStaffMemberDto → Action Db Unit
update_user user_id old dto = do
  there ← gets (λ db. any (λ u. u.id == user_id) db.users)
  throw_if (not there) (internal "Record to update not found.")
  taken ← gets (λ db. any (λ u. is_email_of_other dto.email user_id u.id u.email) db.users)
  throw_if taken (internal "Unique constraint failed")
  modify (λ db. record db { users = update (λ u. u.id == user_id) (user_edited old dto) db.users })

-- The credential of a member who has none; the mail goes to the address that the row had.
unfoldable pub create_user : Env → Organization → Staff → EditStaffMemberDto → Action Db Unit
create_user env org s dto = do
  let password = generate_one_time_password org.name (env.digits 0)
  email ← or_throw dto.email (internal "Argument `email` is missing.")
  role ← or_throw dto.role (internal "Argument `role` is missing.")
  taken ← gets (λ db. any (λ u. text_eq u.email email) db.users)
  throw_if taken (internal "Unique constraint failed")
  modify (λ db. record db {
    users = create (new_user env (env.uuid 0) org.id email password role) db.users;
    staff = update (λ x. x.id == s.id) (linked (env.uuid 0)) db.staff;
  })
  throw_if (not env.mail_works) (internal "mail")
  modify (λ db. record db { mails = create (s.email, password) db.mails })

unfoldable pub store_user :
    Env → Organization → Staff → EditStaffMemberDto → Option Ident → Action Db Unit
unfolding update_user create_user
store_user env org s dto none = create_user env org s dto
store_user env org s dto (some id) = update_user id s.role dto

-- The transaction, for the member as it was found before it.
unfoldable pub store_edit : Env → Organization → Staff → EditStaffMemberDto → Action Db Unit
store_edit env org s dto = do
  edit_hours env s.id dto.working_hours
  modify (make_room org.id dto.role s)
  update_staff s.id dto
  store_user env org s dto (present s.user_id)

unfoldable pub edit_staff_member_details :
    Env → Option Ident → Role → Ident → EditStaffMemberDto → Option Ident → Action Db Unit
edit_staff_member_details env org_id role staff_id dto q_org_id = do
  throw_if (not (includes editors role)) (unauthorized "You are not allowed to edit staff.")
  org ← target_organization (role_eq root role) q_org_id org_id
  found ← gets (find_staff staff_id)
  s ← or_throw found (not_found "Staff member doesn't exist.")
  throw_if (not (s.org_id == org.id)) (unauthorized "Staff does not belong to this organization.")
  transaction (store_edit env org s dto)

-- The row, with the rows of these tables that refer to it (`onDelete: Cascade`),
abbrev pub drop_staff : Ident → Db → Db
drop_staff id db = record db {
  staff = delete (λ s. s.id == id) db.staff;
  working_hours = delete_many (λ h. is_ident h.staff_id id) db.working_hours;
  events = delete_many (λ e. e.staff_id == id) db.events;
  sessions = delete_many (λ e. e.staff_id == id) db.sessions;
}

-- and its credential.
unfoldable pub drop_user : Option Ident → Action Db Unit
drop_user none = pure tt
drop_user (some id) = do
  there ← gets (λ db. any (λ u. u.id == id) db.users)
  throw_if (not there) (internal "Record to delete does not exist.")
  modify (λ db. record db { users = delete (λ u. u.id == id) db.users })

-- Who deletes whom
abbrev pub check_authority : Role → Role → Action Db Unit
check_authority role target = do
  throw_if (role_eq super_admin role && role_eq super_admin target)
      (unauthorized "SuperAdmin cannot delete another SuperAdmin.")
  throw_if (role_eq admin role && not (role_eq Role.staff target))
      (unauthorized "Admin can only delete Staff.")

unfoldable pub delete_staff_member : Option Ident → Role → Ident → Option Ident → Action Db Unit
unfolding drop_user
delete_staff_member org_id role staff_id q_org_id = do
  throw_if (not (includes editors role)) (unauthorized "You are not allowed to delete staff.")
  org ← target_organization (role_eq root role) q_org_id org_id
  found ← gets (find_staff staff_id)
  s ← or_throw found (not_found "Staff member doesn't exist.")
  throw_if (not (role_eq root role) && not (s.org_id == org.id))
      (unauthorized "Staff does not belong to this organization.")
  check_authority role s.role
  modify (drop_staff staff_id)
  drop_user (present s.user_id)
