-- ===== src/System/Sessions.antt =====
-- `loginSystemUser`, `refreshSystemAccessToken`, and the three ways to log an account out.
use vms_backend_testing.Base.{
  ℕ, ◌+◌, Bool, not, ◌&&◌, Option, none, some, List, ◌==◌, ltb, Ident, is_ident,
}
use vms_backend_testing.Base.Text.{Text, normalize}
use vms_backend_testing.Base.Request.{
  Action, bad_request, unauthorized, not_found, ◌>>=◌, ◌>>◌, pure, gets, or_throw, throw_if, modify,
}
use vms_backend_testing.Base.Role.{Role, super_admin, system, other, role_eq}
use vms_backend_testing.Base.Table.{
  length, any, find_first, find_many, create, update, update_many, delete_many,
}
use vms_backend_testing.Auth.Model.{RefreshToken, refresh_lifetime}
use vms_backend_testing.Auth.Guard.{
  SystemCredential, logged_in, logged_out, is_logged_in, JwtPayload,
}
use vms_backend_testing.Organization.Model.{
  Db, Env, find_organization, find_user, find_account, find_account_by_email,
}

-- The access token and the refresh token.
abbrev pub Tokens : Type 0
Tokens = Text × Ident

abbrev pub session_payload : SystemCredential → Ident → JwtPayload
session_payload s session = record {
  org_id = some s.org_id;
  user_id = none;
  role = system;
  system_id = some s.id;
  session_id = some session;
}

abbrev pub new_refresh_token : Env → Ident → RefreshToken
new_refresh_token env system_id = record {
  id = env.uuid 2;
  token = env.uuid 1;
  user_id = none;
  system_id = some system_id;
  expiry_date = env.now + refresh_lifetime;
}

abbrev pub enter : Ident → SystemCredential → SystemCredential
enter session s = record s { activity_status = logged_in; session_id = some session }

abbrev pub leave : SystemCredential → SystemCredential
leave s = record s { activity_status = logged_out; session_id = none }

abbrev pub add_refresh_token : RefreshToken → Db → Db
add_refresh_token r db = record db { refresh_tokens = create r db.refresh_tokens }

abbrev pub set_account : Ident → (SystemCredential → SystemCredential) → Db → Db
set_account id f db = record db { systems = update (λ s. s.id == id) f db.systems }

unfoldable pub login_system_user : Env → Text → Text → Action Db Tokens
login_system_user env email password = do
  found ← gets (find_account_by_email (normalize email))
  account ← or_throw found (not_found "System user doesn't exists.")
  throw_if (not (env.compare password account.password)) (unauthorized "Invalid credentials.")
  throw_if (is_logged_in account.activity_status)
      (unauthorized "User already logged in on another device. Please log out first.")
  modify (add_refresh_token (new_refresh_token env account.id))
  modify (set_account account.id (enter (env.uuid 0)))
  pure (env.sign (session_payload account (env.uuid 0)), env.uuid 1)

-- A token of a user is found too: then there is no account, and nothing is known of it.
abbrev pub refreshed_payload : Option SystemCredential → JwtPayload
refreshed_payload none = record {
  org_id = none;
  user_id = none;
  role = other;
  system_id = none;
  session_id = none;
}
refreshed_payload (some s) = record {
  org_id = some s.org_id;
  user_id = none;
  role = system;
  system_id = some s.id;
  session_id = none;
}

-- `include: { systemCredentials: true }`
abbrev pub account_of : Option Ident → Db → Option SystemCredential
account_of none db = none
account_of (some id) db = find_account id db

abbrev pub find_live_token : Ident → ℕ → Db → Option RefreshToken
find_live_token token now db =
    find_first (λ r. r.token == token && not (ltb r.expiry_date now)) db.refresh_tokens

abbrev pub rotate : Env → RefreshToken → RefreshToken
rotate env r = record r { token = env.uuid 0; expiry_date = env.now + refresh_lifetime }

unfoldable pub refresh_system_access_token : Env → Ident → Action Db Tokens
refresh_system_access_token env token = do
  found ← gets (find_live_token token env.now)
  row ← or_throw found (not_found "Refresh token doesn't exists.")
  account ← gets (account_of row.system_id)
  modify (λ db. record db {
    refresh_tokens = update (λ r. r.id == row.id) (rotate env) db.refresh_tokens;
  })
  pure (env.sign (refreshed_payload account), env.uuid 0)

abbrev pub drop_refresh_tokens : Ident → Db → Db
drop_refresh_tokens id db = record db {
  refresh_tokens = delete_many (λ r. is_ident r.system_id id) db.refresh_tokens;
}

unfoldable pub logout_system_account : Ident → Ident → Role → Action Db Unit
logout_system_account org_id system_id role = do
  throw_if (not (role_eq system role)) (unauthorized "Access denied based on role.")
  found ← gets (find_organization org_id)
  or_throw found (bad_request "Invalid organization.")
  found_account ← gets (find_account system_id)
  account ← or_throw found_account (bad_request "Invalid system credentials.")
  throw_if (not (account.org_id == org_id)) (unauthorized "Unauthorized attempt")
  throw_if (not (is_logged_in account.activity_status)) (bad_request "User not loggedIn.")
  modify (set_account system_id leave)
  modify (drop_refresh_tokens system_id)

unfoldable pub logout_system_account_web : Ident → Ident → Ident → Role → Action Db Unit
logout_system_account_web system_id org_id user_id role = do
  throw_if (not (role_eq super_admin role))
      (bad_request "Only superadmin can logout system account.")
  found ← gets (find_organization org_id)
  or_throw found (bad_request "Organization doesn't exists.")
  found_user ← gets (find_user user_id)
  user ← or_throw found_user (bad_request "User doesn't exists.")
  throw_if (not (is_ident user.org_id org_id)) (bad_request "Invalid credentials.")
  found_account ← gets (find_account system_id)
  account ← or_throw found_account (not_found "System account does not exists.")
  throw_if (not (is_logged_in account.activity_status))
      (bad_request "Account is already logged out.")
  modify (set_account system_id leave)

abbrev pub is_active_of : Ident → SystemCredential → Bool
is_active_of org_id s = s.org_id == org_id && is_logged_in s.activity_status

-- `systemId: { in: activeSystemAccounts.map((x) => x.id) }`
abbrev pub is_of_one : List SystemCredential → Option Ident → Bool
is_of_one accounts id = any (λ s. is_ident id s.id) accounts

unfoldable pub logout_all_system_accounts : Ident → Role → Ident → Action Db Unit
logout_all_system_accounts org_id role user_id = do
  throw_if (not (role_eq super_admin role)) (unauthorized "Unauthorized update attempt.")
  found ← gets (find_organization org_id)
  or_throw found (not_found "Invalid organization.")
  found_user ← gets (find_user user_id)
  user ← or_throw found_user (not_found "Invalid user credentials.")
  throw_if (not (is_ident user.org_id org_id)) (unauthorized "Unauthorized update attempt.")
  active ← gets (λ db. find_many (is_active_of org_id) db.systems)
  throw_if (length active == 0) (not_found "All accounts are logged out")
  modify (λ db. record db {
    refresh_tokens = delete_many (λ r. is_of_one active r.system_id) db.refresh_tokens;
  })
  modify (λ db. record db { systems = update_many (is_active_of org_id) leave db.systems })
