-- ===== src/Auth/Passwords.antt =====
-- `registerRootUser`, `forgotPassword`, `resetPassword` and `changeOldPassword`
pub mod Reset
use vms_backend_testing.Base.{
  Bool, true, false, not, Option, none, some, List, [], ◌∷◌, ◌==◌, if◌then◌else◌, Ident,
}
use vms_backend_testing.Base.Text.{Text, text_eq, normalize}
use vms_backend_testing.Base.Request.{
  Action, bad_request, unauthorized, not_found, internal, ◌>>=◌, ◌>>◌, pure, gets, or_throw,
  throw_if, modify,
}
use vms_backend_testing.Base.Role.{Role, root, role_eq}
use vms_backend_testing.Base.Table.{any, find_first, create, update, delete}
use vms_backend_testing.Auth.Model.{
  Hash, active, UserCredential, ResetToken, Db, Env, is_disabled, find_user, find_by_email,
}
use vms_backend_testing.Auth.Login.{set_password}

abbrev pub is_root : UserCredential → Bool
is_root u = role_eq root u.role

abbrev pub new_root : Env → Text → Text → UserCredential
new_root env email password = record {
  id = env.uuid 0;
  org_id = none;
  email = email;
  password = env.hash password;
  role = root;
  first_time_login = false;
  account_status = active;
}

unfoldable pub register_root_user : Env → Text → Text → Action Db UserCredential
register_root_user env email password = do
  root_exists ← gets (λ db. any is_root db.users)
  throw_if root_exists (bad_request "Root user already exists.")
  email_in_use ← gets (λ db. any (λ u. text_eq u.email (normalize email)) db.users)
  throw_if email_in_use (bad_request "Email currently in use.")
  let user = new_root env (normalize email) password
  modify (λ db. record db { users = create user db.users })
  pure user

-- `user && user.accountStatus === 'Active'`
abbrev pub if_active : Option UserCredential → Option UserCredential
if_active none = none
if_active (some u) = if is_disabled u.account_status then none else some u

abbrev pub find_active : Text → Db → Option UserCredential
find_active email db = if_active (find_by_email email db)

abbrev pub find_reset : Ident → Db → Option ResetToken
find_reset user_id db = find_first (λ r. r.user_id == user_id) db.reset_tokens

abbrev pub upsert : ResetToken → List ResetToken → List ResetToken
upsert t ts =
    if any (λ r. r.user_id == t.user_id) ts
    then update (λ r. r.user_id == t.user_id) (λ r. record r { token = t.token }) ts
    else create t ts

abbrev pub is_empty : Text → Bool
is_empty [] = true
is_empty (c ∷ s) = false

unfoldable pub mail_otp : Env → Text → Action Db Unit
mail_otp env email = do
  throw_if (not env.mail_works) (internal "mail")
  modify (λ db. record db { mails = create (email, env.otp) db.mails })

abbrev pub new_reset_token : Env → UserCredential → ResetToken
new_reset_token env user = record { id = env.uuid 0; token = env.hash env.otp; user_id = user.id }

unfoldable pub forgot_password : Env → Text → Action Db Unit
forgot_password env email = do
  throw_if (is_empty email) (bad_request "Provide a valid email address.")
  found ← gets (find_active (normalize email))
  user ← or_throw found (not_found "No active user found with this email.")
  modify (λ db. record db { reset_tokens = upsert (new_reset_token env user) db.reset_tokens })
  mail_otp env (normalize email)

abbrev pub drop_reset : Ident → Db → Db
drop_reset id db = record db { reset_tokens = delete (λ r. r.id == id) db.reset_tokens }

unfoldable pub reset_password : Env → Text → Text → Text → Action Db Unit
reset_password env email otp new = do
  found ← gets (find_active (normalize email))
  user ← or_throw found (not_found "No active user found with this email.")
  token_found ← gets (find_reset user.id)
  token ← or_throw token_found (bad_request "Token doesnt exists.")
  throw_if (not (env.compare otp token.token)) (bad_request "Invalid OTP!")
  modify (set_password user.id (env.hash new))
  modify (drop_reset token.id)

unfoldable pub change_old_password : Env → Ident → Text → Text → Action Db Unit
change_old_password env user_id old new = do
  found ← gets (find_user user_id)
  user ← or_throw found (not_found "Invalid user credentials.")
  throw_if (not (env.compare old user.password)) (unauthorized "Invalid credentials!")
  modify (set_password user_id (env.hash new))
