-- ===== src/System/Accounts.antt =====
-- `registerSystemUser`, `editSystemAccount`, `deleteSystemAccount`, and the requests that read an
-- account or check a code.
use vms_backend_testing.Base.{
  ℕ, Bool, false, not, ◌||◌, Option, none, some, List, map, ◌==◌, leb, Ident, is_ident,
}
use vms_backend_testing.Base.Text.{Text, text_eq, normalize}
use vms_backend_testing.Base.Request.{
  Action, bad_request, unauthorized, not_found, internal, ◌>>=◌, ◌>>◌, pure, gets, or_throw,
  throw_if, modify,
}
use vms_backend_testing.Base.Role.{Role, super_admin, system, role_eq}
use vms_backend_testing.Base.Table.{count, any, find_many, create, update, delete, delete_many}
use vms_backend_testing.Auth.Login.{provided}
use vms_backend_testing.Auth.Guard.{SystemCredential, LoginStatus, logged_out}
use vms_backend_testing.Organization.Model.{Db, Env, find_organization, find_user, find_account}

pub record RegisterSystemUserDto : Type 0 where
  pub email : Text
  pub password : Text
  pub secret_code : Text

abbrev pub new_account : Env → Ident → RegisterSystemUserDto → SystemCredential
new_account env org_id dto = record {
  id = env.uuid 0;
  org_id = org_id;
  email = normalize dto.email;
  password = env.hash dto.password;
  secret_code = some dto.secret_code;
  activity_status = logged_out;
  session_id = none;
}

-- the rows of `systemCredential` in an organisation
abbrev pub accounts_of : Ident → Db → ℕ
accounts_of org_id db = count (λ s. s.org_id == org_id) db.systems

unfoldable pub register_system_user :
    Env → Ident → Ident → Role → RegisterSystemUserDto → Action Db SystemCredential
register_system_user env org_id user_id role dto = do
  throw_if (not (role_eq super_admin role)) (bad_request "Only superadmin can add system accounts.")
  found ← gets (find_organization org_id)
  organization ← or_throw found (bad_request "Organization doesn't exists.")
  found_user ← gets (find_user user_id)
  user ← or_throw found_user (bad_request "User doesn't exists.")
  throw_if (not (is_ident user.org_id org_id)) (unauthorized "Unauthenticated addition attempt.")
  accounts ← gets (accounts_of org_id)
  throw_if (leb organization.account_limit accounts)
      (bad_request "Maximum number of system account limit have been exceeded.")
  exists ← gets (λ db. any (λ s. text_eq s.email (normalize dto.email)) db.systems)
  throw_if exists (bad_request "System account already exists.")
  modify (λ db. record db { systems = create (new_account env org_id dto) db.systems })
  pure (new_account env org_id dto)

abbrev pub set_secret_code : Ident → Text → Db → Db
set_secret_code id code db = record db {
  systems = update (λ s. s.id == id) (λ s. record s { secret_code = some code }) db.systems;
}

unfoldable pub edit_system_account : Ident → Role → Ident → Text → Action Db Unit
edit_system_account org_id role system_id secret_code = do
  throw_if (not (role_eq super_admin role))
      (unauthorized "Only superadmin can update system account details!")
  found ← gets (find_account system_id)
  account ← or_throw found (not_found "Invalid systemId")
  throw_if (not (account.org_id == org_id)) (unauthorized "Unauthorized update attempt")
  modify (set_secret_code account.id secret_code)

unfoldable pub fetch_system_details : Ident → Role → Ident → Action Db (Option Text)
fetch_system_details org_id role system_id = do
  throw_if (not (role_eq super_admin role)) (unauthorized "Unauthorized fetch attempt.")
  found ← gets (find_account system_id)
  account ← or_throw found (not_found "Invalid system credentials.")
  throw_if (not (account.org_id == org_id))
      (unauthorized "Unauthorized fetch attempt. Mismatch in orgId.")
  pure account.secret_code

-- An empty role, of which the first test complains too, is one of the other roles.
unfoldable pub fetch_system_activity_status : Ident → Role → Ident → Action Db LoginStatus
fetch_system_activity_status org_id role system_id = do
  throw_if (org_id == 0 || system_id == 0) (bad_request "Invalid token!")
  throw_if (not (role_eq system role)) (unauthorized "Unauthorized fetch attempt.")
  found ← gets (find_account system_id)
  account ← or_throw found (not_found "Invalid system credentials.")
  throw_if (not (account.org_id == org_id))
      (unauthorized "nauthorized fetch attempt. Mismatch in orgId.")
  pure account.activity_status

-- `select: { id, email, secretCode, activityStatus }`
pub record AccountSummary : Type 0 where
  pub id : Ident
  pub email : Text
  pub secret_code : Option Text
  pub activity_status : LoginStatus

abbrev pub summary : SystemCredential → AccountSummary
summary s = record {
  id = s.id;
  email = s.email;
  secret_code = s.secret_code;
  activity_status = s.activity_status;
}

unfoldable pub get_all_sytem_user : Ident → Role → Action Db (List AccountSummary)
get_all_sytem_user org_id role = do
  found ← gets (find_organization org_id)
  or_throw found (not_found "Organization not found")
  throw_if (not (role_eq super_admin role))
      (unauthorized "Only superadmin can view all system users in the organization.")
  gets (λ db. map summary (find_many (λ s. s.org_id == org_id) db.systems))

abbrev pub is_code : Option Text → Text → Bool
is_code none code = false
is_code (some c) code = text_eq c code

unfoldable pub verify_secret_code : Ident → Role → Ident → Text → Action Db Unit
verify_secret_code org_id role system_id secret_code = do
  throw_if (not (role_eq system role)) (unauthorized "Unauthorized")
  found ← gets (find_account system_id)
  account ← or_throw found (not_found "Invalid system ID")
  throw_if (not (account.org_id == org_id)) (unauthorized "Unauthorized")
  throw_if (not (is_code account.secret_code secret_code)) (unauthorized "Incorrect secret code")

-- The code that an organisation has stored: none if it has none; the cipher throws on a text that
-- it has not made.
unfoldable pub settings_code : Env → Option Text → Action Db (Option Text)
settings_code env none = pure none
settings_code env (some stored) = do
  key ←
      or_throw (provided env.encryption_key)
        (internal "ENCRYPTION_KEY is not set in environment variables")
  code ← or_throw (env.decrypt stored key) (internal "decrypt")
  pure (some code)

unfoldable pub verify_settings_code : Env → Ident → Role → Ident → Text → Action Db Unit
unfolding settings_code
verify_settings_code env org_id role system_id secret_code = do
  throw_if (not (role_eq system role)) (unauthorized "Unauthorized")
  found ← gets (find_account system_id)
  account ← or_throw found (not_found "Invalid system ID")
  found_org ← gets (find_organization org_id)
  organization ← or_throw found_org (bad_request "Invalid organization.")
  throw_if (not (account.org_id == org_id)) (bad_request "Unauthorized")
  code ← settings_code env (provided organization.setting_code_encrypted)
  throw_if (not (is_code code secret_code)) (bad_request "Secret code mismatch.")

-- The row, and those that refer to it with `onDelete: Cascade`.
abbrev pub drop_account : Ident → Db → Db
drop_account id db = record db {
  systems = delete (λ s. s.id == id) db.systems;
  refresh_tokens = delete_many (λ r. is_ident r.system_id id) db.refresh_tokens;
  reset_tokens = delete_many (λ r. r.system_id == id) db.reset_tokens;
}

unfoldable pub delete_system_account : Ident → Ident → Ident → Role → Action Db Unit
delete_system_account system_id org_id user_id role = do
  throw_if (not (role_eq super_admin role))
      (bad_request "Only superadmin can delete system accounts.")
  found ← gets (find_organization org_id)
  or_throw found (bad_request "Organization doesn't exists.")
  found_user ← gets (find_user user_id)
  or_throw found_user (bad_request "User doesn't exists.")
  found_account ← gets (find_account system_id)
  or_throw found_account (not_found "System account does not exists.")
  modify (drop_account system_id)
