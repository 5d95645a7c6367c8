-- ===== src/Organization/Requests.antt =====
-- Every request that writes an organisation or a system account, as one type, and runs of them.
use vms_backend_testing.Base.{Bool, List, [], ◌∷◌, Ident}
use vms_backend_testing.Base.Text.{Text}
use vms_backend_testing.Base.Role.{Role}
use vms_backend_testing.Organization.Model.{Db, Env}
use vms_backend_testing.Organization.Manage.{
  CreateOrganizationDto, EditOrganizationDto, create_organization, edit_organization_details,
  delete_organization,
}
use vms_backend_testing.Organization.Subscriptions.{UpdateSubscriptionDto, update_subscription}
use vms_backend_testing.System.Accounts.{
  RegisterSystemUserDto, register_system_user, edit_system_account, delete_system_account,
}
use vms_backend_testing.System.Sessions.{
  login_system_user, refresh_system_access_token, logout_system_account, logout_system_account_web,
  logout_all_system_accounts,
}
use vms_backend_testing.System.Passwords.{forgot_password, reset_password}

-- The organisation, the user and the role are those of the token that the request carries.
pub data Request : Type 0 where
  create_org : Role → CreateOrganizationDto → Bool → Request
  edit_org : Ident → Role → EditOrganizationDto → Ident → Bool → Request
  drop_org : Ident → Role → Request
  subscribe : Ident → Role → Ident → UpdateSubscriptionDto → Request
  register : Ident → Ident → Role → RegisterSystemUserDto → Request
  set_code : Ident → Role → Ident → Text → Request
  drop_account : Ident → Ident → Ident → Role → Request
  login : Text → Text → Request
  refresh : Ident → Request
  logout : Ident → Ident → Role → Request
  logout_web : Ident → Ident → Ident → Role → Request
  logout_all : Ident → Role → Ident → Request
  forgot : Text → Request
  reset : Text → Text → Text → Request

-- What a request does to the tables, whatever it answers.
unfoldable pub handle : Env → Request → Db → Db
handle env (create_org role dto has_logo) db = (create_organization env role dto has_logo db).1
handle env (edit_org org_id role dto user_id has_logo) db =
    (edit_organization_details env org_id role dto user_id has_logo db).1
handle env (drop_org org_id role) db = (delete_organization org_id role db).1
handle env (subscribe user_id role org_id dto) db =
    (update_subscription user_id role org_id dto db).1
handle env (register org_id user_id role dto) db =
    (register_system_user env org_id user_id role dto db).1
handle env (set_code org_id role system_id code) db =
    (edit_system_account org_id role system_id code db).1
handle env (drop_account system_id org_id user_id role) db =
    (delete_system_account system_id org_id user_id role db).1
handle env (login email password) db = (login_system_user env email password db).1
handle env (refresh token) db = (refresh_system_access_token env token db).1
handle env (logout org_id system_id role) db = (logout_system_account org_id system_id role db).1
handle env (logout_web system_id org_id user_id role) db =
    (logout_system_account_web system_id org_id user_id role db).1
handle env (logout_all org_id role user_id) db =
    (logout_all_system_accounts org_id role user_id db).1
handle env (forgot email) db = (forgot_password env email db).1
handle env (reset email otp new) db = (reset_password env email otp new db).1

unfoldable pub run : List (Env × Request) → Db → Db
run [] db = db
run ((env, r) ∷ rest) db = run rest (handle env r db)
