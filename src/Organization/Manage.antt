-- ===== src/Organization/Manage.antt =====
-- `createOrganization`, `editOrganizationDetails` and `deleteOrganization`.
use vms_backend_testing.Base.{
  ℕ, Bool, true, false, not, ◌||◌, ◌&&◌, Option, none, some, List, [], ◌∷◌, ◌==◌, ltb, leb,
  if◌then◌else◌, Ident, is_ident,
}
use vms_backend_testing.Base.Text.{Text, text_eq, normalize, trim}
use vms_backend_testing.Base.Request.{
  Action, bad_request, unauthorized, not_found, internal, ◌>>=◌, ◌>>◌, pure, gets, or_throw,
  throw_if, modify, transaction,
}
use vms_backend_testing.Base.Role.{Role, root, super_admin, role_eq, includes}
use vms_backend_testing.Base.Table.{any, find_first, create, update, delete, delete_many}
use vms_backend_testing.Hours.{
  WorkingHours, WorkingHoursDto, of_org, store_hours, no_start_before_end, no_day,
}
use vms_backend_testing.Plan.{active}
use vms_backend_testing.Auth.Login.{provided}
use vms_backend_testing.Auth.Passwords.{is_empty}
use vms_backend_testing.Organization.Model.{
  Organization, Subscription, organization_registration, Db, Env, find_organization, find_user,
}
use vms_backend_testing.System.Accounts.{accounts_of}

-- The dates as `new Date` reads them: none is the invalid date.
pub record CreateOrganizationDto : Type 0 where
  pub name : Text
  pub email : Text
  pub timezone : Text
  pub address : Text
  pub contact_number : Text
  pub contact_person : Text
  pub gst : Option Text
  pub setting_code : Text
  pub account_limit : ℕ
  pub plan_id : Ident
  pub starts_at : Option ℕ
  pub ends_at : Option ℕ

pub record EditOrganizationDto : Type 0 where
  pub name : Option Text
  pub email : Option Text
  pub timezone : Text
  pub address : Option Text
  pub contact_number : Option Text
  pub contact_person : Option Text
  pub gst : Option Text
  pub setting_code : Option Text
  pub account_limit : Option ℕ
  pub working_hours : Option WorkingHoursDto

-- `if (logo)`, with the address that the store answers
unfoldable pub upload_logo : Env → Bool → Action Db (Option Text)
upload_logo env false = pure none
upload_logo env true = do
  url ← or_throw env.upload (bad_request "Image upload failed")
  pure (some url)

abbrev pub new_organization : Env → CreateOrganizationDto → Option Text → Text → Organization
new_organization env dto logo code = record {
  id = env.uuid 0;
  logo = logo;
  name = dto.name;
  email = normalize dto.email;
  address = dto.address;
  contact_number = dto.contact_number;
  contact_person = dto.contact_person;
  gst = provided dto.gst;
  account_limit = dto.account_limit;
  setting_code_encrypted = some code;
  timezone = some dto.timezone;
}

abbrev pub new_subscription : Ident → Ident → ℕ → ℕ → Subscription
new_subscription org_id plan_id from to = record {
  org_id = org_id;
  plan_id = plan_id;
  status = active;
  starts_at = from;
  ends_at = to;
}

abbrev pub add_organization : Organization → Subscription → Db → Db
add_organization o s db = record db {
  organizations = create o db.organizations;
  subscriptions = create s db.subscriptions;
}

-- `OrganizationRegistration`
unfoldable pub mail_registration : Env → Text → Action Db Unit
mail_registration env email = do
  throw_if (not env.mail_works) (internal "mail")
  modify (λ db. record db { mails = create (organization_registration email) db.mails })

unfoldable pub create_organization :
    Env → Role → CreateOrganizationDto → Bool → Action Db Organization
unfolding upload_logo mail_registration
create_organization env role dto has_logo = do
  throw_if (not (role_eq root role)) (unauthorized "Only root user can create an organization.")
  exists ← gets (λ db. any (λ o. text_eq o.email (normalize dto.email)) db.organizations)
  throw_if exists (bad_request "Organization already exist.")
  logo ← upload_logo env has_logo
  key ←
      or_throw (provided env.encryption_key)
        (internal "Encryption key is not set in environment variables")
  from ← or_throw dto.starts_at (bad_request "Invalid start or end date")
  to ← or_throw dto.ends_at (bad_request "Invalid start or end date")
  throw_if (leb to from) (bad_request "End date must be after start date")
  found ← gets (λ db. find_first (λ p. p.id == dto.plan_id) db.plans)
  or_throw found (bad_request "Invalid plan selected")
  let organization = new_organization env dto logo (env.encrypt dto.setting_code key)
  modify (add_organization organization (new_subscription (env.uuid 0) dto.plan_id from to))
  mail_registration env organization.email
  pure organization

-- A superadmin edits the own organisation only.
unfoldable pub check_super_admin : Ident → Ident → Action Db Unit
check_super_admin user_id org_id = do
  found ← gets (find_user user_id)
  user ← or_throw found (bad_request "Invalid request. SuperAdmin does not exist.")
  throw_if (not (is_ident user.org_id org_id))
      (unauthorized "Unauthorized update attempt. SuperAdmin belongs to a different organization.")

unfoldable pub check_editor : Role → Ident → Ident → Action Db Unit
unfolding check_super_admin
check_editor role user_id org_id =
    if role_eq super_admin role then check_super_admin user_id org_id else pure tt

-- `accountLimit` as it is left when a superadmin's has been deleted
abbrev pub limit_given : Role → Option ℕ → Option ℕ
limit_given role limit = if role_eq super_admin role then none else limit

abbrev pub too_low : Option ℕ → ℕ → Bool
too_low none n = false
too_low (some limit) n = ltb limit n

abbrev pub given : {A : Type 0} → Option A → A → A
given none a = a
given (some b) a = b

abbrev pub or_old : {A : Type 0} → Option A → Option A → Option A
or_old none old = old
or_old (some a) old = some a

-- `typeof settingCode === 'string' && settingCode.trim() !== ''`
unfoldable pub code_given : Option Text → Option Text
code_given none = none
code_given (some code) = if is_empty (trim code) then none else some code

abbrev pub encrypted : Env → Text → Option Text → Option Text
encrypted env key none = none
encrypted env key (some code) = some (env.encrypt code key)

abbrev pub edited :
    Env → Text → Option ℕ → Option Text → EditOrganizationDto → Organization → Organization
edited env key limit logo dto o = record o {
  name = given dto.name o.name;
  email = given dto.email o.email;
  timezone = some dto.timezone;
  address = given dto.address o.address;
  contact_number = given dto.contact_number o.contact_number;
  contact_person = given dto.contact_person o.contact_person;
  gst = or_old dto.gst o.gst;
  account_limit = given limit o.account_limit;
  setting_code_encrypted =
      or_old (encrypted env key (code_given dto.setting_code)) o.setting_code_encrypted;
  logo = or_old (provided logo) o.logo;
}

abbrev pub hours_invalid : (WorkingHoursDto → Bool) → Option WorkingHoursDto → Bool
hours_invalid p none = false
hours_invalid p (some dto) = p dto

abbrev pub with_hours :
    (ℕ → Ident) → Ident → Option WorkingHoursDto → List WorkingHours → List WorkingHours
with_hours fresh org_id none rows = rows
with_hours fresh org_id (some dto) rows = store_hours fresh (of_org org_id) dto rows

-- The database refuses an e-mail that another organisation has.
abbrev pub is_email_of_other : Option Text → Ident → Organization → Bool
is_email_of_other none id o = false
is_email_of_other (some email) id o = not (o.id == id) && text_eq o.email email

abbrev pub store_edit : Env → Ident → Text → Option ℕ → Option Text → EditOrganizationDto → Db → Db
store_edit env org_id key limit logo dto db = record db {
  organizations = update (λ o. o.id == org_id) (edited env key limit logo dto) db.organizations;
  working_hours = with_hours env.uuid org_id dto.working_hours db.working_hours;
}

-- From the tests of the working hours on.
unfoldable pub store_details :
    Env → Ident → Text → Option ℕ → Option Text → EditOrganizationDto → Action Db Unit
store_details env org_id key limit logo dto = do
  throw_if (hours_invalid no_start_before_end dto.working_hours)
      (bad_request "Working hours start time must be before end time")
  throw_if (hours_invalid no_day dto.working_hours)
      (bad_request "At least one working day must be selected")
  transaction (do
    taken ← gets (λ db. any (is_email_of_other dto.email org_id) db.organizations)
    throw_if taken (internal "Unique constraint failed")
    modify (store_edit env org_id key limit logo dto))

unfoldable pub edit_organization_details :
    Env → Ident → Role → EditOrganizationDto → Ident → Bool → Action Db Unit
edit_organization_details env org_id role dto user_id has_logo = do
  throw_if (not (includes (root ∷ super_admin ∷ []) role))
      (unauthorized "Only root and superadmin are allowed to edit organization details.")
  throw_if (org_id == 0) (bad_request "Organization ID is required.")
  found ← gets (find_organization org_id)
  or_throw found (not_found "Organization doesn't exist.")
  check_editor role user_id org_id
  accounts ← gets (accounts_of org_id)
  throw_if (too_low (limit_given role dto.account_limit) accounts)
      (bad_request "Account limit too low.")
  logo ← upload_logo env has_logo
  key ←
      or_throw (provided env.encryption_key)
        (internal "ENCRYPTION_KEY is not set in environment variables")
  store_details env org_id key (limit_given role dto.account_limit) logo dto

abbrev pub of_organization : Ident → Db → Option Ident → Option Ident → Bool
of_organization org_id db user_id system_id =
    any (λ u. is_ident u.org_id org_id && is_ident user_id u.id) db.users
    || any (λ s. s.org_id == org_id && is_ident system_id s.id) db.systems

-- The row, and the rows of these tables that refer to it or to one of them with
-- `onDelete: Cascade`.
abbrev pub drop_organization : Ident → Db → Db
drop_organization org_id db = record db {
  organizations = delete (λ o. o.id == org_id) db.organizations;
  users = delete_many (λ u. is_ident u.org_id org_id) db.users;
  systems = delete_many (λ s. s.org_id == org_id) db.systems;
  refresh_tokens =
      delete_many (λ r. of_organization org_id db r.user_id r.system_id) db.refresh_tokens;
  reset_tokens =
      delete_many (λ r. of_organization org_id db none (some r.system_id)) db.reset_tokens;
  subscriptions = delete_many (λ s. s.org_id == org_id) db.subscriptions;
  working_hours = delete_many (λ h. is_ident h.org_id org_id) db.working_hours;
}

unfoldable pub delete_organization : Ident → Role → Action Db Unit
delete_organization org_id role = do
  throw_if (not (role_eq root role)) (unauthorized "Only root user can delete organization.")
  found ← gets (find_organization org_id)
  or_throw found (not_found "Organization doesn't exist.")
  modify (drop_organization org_id)
