-- ===== src/Staff/Add.antt =====
-- `addStaffMember` and `addStaffBulk`
use vms_backend_testing.Base.{
  suc, Bool, true, false, not, ◌&&◌, ◌||◌, Option, none, some, List, [], ◌∷◌, ◌==◌, if◌then◌else◌,
  Ident,
}
use vms_backend_testing.Base.Text.{Text, text_eq, normalize}
use vms_backend_testing.Base.Request.{
  Action, bad_request, unauthorized, internal, ◌>>=◌, ◌>>◌, pure, gets, or_throw, throw_if, modify,
  transaction,
}
use vms_backend_testing.Base.Role.{Role, root, super_admin, admin, role_eq, includes}
use vms_backend_testing.Base.Table.{any, find_first, create}
use vms_backend_testing.Auth.Model.{UserCredential, active}
use vms_backend_testing.Staff.Model.{
  Organization, Department, Staff, Db, Env, chosen, target_organization,
}
use vms_backend_testing.Staff.Codes.{
  has_code, generate_unique_employee_code, generate_one_time_password,
}

pub record AddStaffMemberDto : Type 0 where
  pub name : Text
  pub email : Text
  pub designation : Text
  pub department_id : Ident

-- In a bulk the field `departmentId` holds the name of the department.
pub record BulkDto : Type 0 where
  pub name : Text
  pub email : Text
  pub designation : Text
  pub department_name : Text

abbrev pub editors : List Role
editors = root ∷ super_admin ∷ admin ∷ []

abbrev pub new_staff : Ident → Ident → Text → Text → Text → Ident → Text → Staff
new_staff id org_id name email designation department_id code = record {
  id = id;
  org_id = org_id;
  user_id = none;
  name = name;
  email = email;
  designation = designation;
  department_id = some department_id;
  role = Role.staff;
  employee_code = some code;
}

abbrev pub new_user : Env → Ident → Ident → Text → Text → Role → UserCredential
new_user env id org_id email password role = record {
  id = id;
  org_id = some org_id;
  email = email;
  password = env.hash password;
  role = role;
  first_time_login = true;
  account_status = active;
}

-- `connect`
abbrev pub linked : Ident → Staff → Staff
linked user_id s = record s { user_id = some user_id }

-- The row and its credential. The database refuses an e-mail or a code that somebody has, of
-- whichever organisation, and a department that there is not.
unfoldable pub store_staff : Env → Staff → Ident → Text → Action Db Unit
store_staff env s department_id code = do
  taken ← gets (λ db.
      any (λ x. text_eq x.email s.email || has_code code x.employee_code) db.staff
      || any (λ u. text_eq u.email s.email) db.users)
  throw_if taken (internal "Unique constraint failed")
  there ← gets (λ db. any (λ d. d.id == department_id) db.departments)
  throw_if (not there) (internal "Foreign key constraint violated")
  modify (λ db. record db { staff = create s db.staff })

-- A code that the loop has not found stands for a loop that has not ended.
unfoldable pub add_row : Env → Organization → Text → Text → Text → Ident → Action Db (Staff × Text)
unfolding store_staff
add_row env org name email designation department_id = do
  found ← gets (λ db. generate_unique_employee_code org (env.draws 0) db.staff)
  code ← or_throw found (internal "loop")
  let password = generate_one_time_password org.name (env.digits 0)
  let s =
      linked (env.uuid 1) (new_staff (env.uuid 0) org.id name email designation department_id code)
  store_staff env s department_id code
  modify (λ db. record db {
    users = create (new_user env (env.uuid 1) org.id email password Role.staff) db.users;
  })
  pure (s, password)

-- A mail that fails is logged.
abbrev pub mail_registration : Env → Text → Text → Db → Db
mail_registration env email password db =
    if env.mail_works then record db { mails = create (email, password) db.mails } else db

abbrev is_none : Option Ident → Bool
is_none none = true
is_none (some i) = false

unfoldable pub add_staff_member :
    Env → Option Ident → Role → AddStaffMemberDto → Option Ident → Action Db Staff
add_staff_member env org_id role dto q_org_id = do
  throw_if (is_none (chosen (role_eq root role) q_org_id org_id))
      (bad_request "Organization ID is required.")
  throw_if (not (includes editors role))
      (unauthorized "Only root, superadmin and admin can add employee")
  org ← target_organization (role_eq root role) q_org_id org_id
  exists ←
      gets (λ db. any (λ s. text_eq s.email (normalize dto.email) && s.org_id == org.id) db.staff)
  throw_if exists (bad_request "Member already exist.")
  added ←
      transaction (add_row env org dto.name (normalize dto.email) dto.designation dto.department_id)
  modify (mail_registration env added.0.email added.1)
  pure added.0

-- What a bulk says of a row.
pub data Imported : Type 0 where
  added : Staff → Text → Imported
  already no_department : Text → Imported

abbrev pub later : Env → Env
later env = record env {
  uuid = λ k. env.uuid (suc (suc k));
  draws = λ k. env.draws (suc k);
  digits = λ k. env.digits (suc k);
}

unfoldable pub with_department :
    Env → Organization → BulkDto → Option Department → Action Db Imported
with_department env org dto none = pure (no_department dto.email)
with_department env org dto (some d) = do
  row ← add_row env org dto.name (normalize dto.email) dto.designation d.id
  pure (added row.0 row.1)

-- One turn of the loop: here an e-mail of any organisation is an obstacle.
unfoldable pub import_one : Env → Organization → BulkDto → Action Db Imported
unfolding with_department
import_one env org dto = do
  exists ← gets (λ db. any (λ s. text_eq s.email (normalize dto.email)) db.staff)
  department ← gets (λ db.
      find_first (λ d. text_eq d.name dto.department_name && d.org_id == org.id) db.departments)
  if exists then pure (already dto.email) else with_department env org dto department

unfoldable pub import_all : Env → Organization → List BulkDto → Action Db (List Imported)
import_all env org [] = pure []
import_all env org (dto ∷ dtos) = do
  first ← import_one env org dto
  rest ← import_all (later env) org dtos
  pure (first ∷ rest)

-- The mails are sent after the answer, each by itself.
unfoldable pub mail_all : Env → List Imported → Db → Db
mail_all env [] db = db
mail_all env (added s password ∷ rest) db =
    mail_all env rest (mail_registration env s.email password db)
mail_all env (already email ∷ rest) db = mail_all env rest db
mail_all env (no_department email ∷ rest) db = mail_all env rest db

unfoldable pub add_staff_bulk :
    Env → Option Ident → Role → List BulkDto → Option Ident → Action Db (List Imported)
add_staff_bulk env org_id role dtos q_org_id = do
  throw_if (is_none (chosen (role_eq root role) q_org_id org_id))
      (bad_request "Organization ID is required.")
  throw_if (not (includes editors role))
      (unauthorized "Only root, superadmin and admin can add employee")
  org ← target_organization (role_eq root role) q_org_id org_id
  results ← transaction (import_all env org dtos)
  modify (mail_all env results)
  pure results
