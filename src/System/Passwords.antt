-- ===== src/System/Passwords.antt =====
-- `forgotPassword` and `resetPassword` of a system account.
pub mod Reset
use vms_backend_testing.Base.{
  Bool, true, false, not, Option, none, some, List, [], ◌∷◌, ◌==◌, if◌then◌else◌, Ident,
}
use vms_backend_testing.Base.Text.{Text, normalize}
use vms_backend_testing.Base.Request.{
  Action, bad_request, not_found, internal, ◌>>=◌, ◌>>◌, gets, or_throw, throw_if, modify,
}
use vms_backend_testing.Base.Table.{any, find_first, create, update, delete}
use vms_backend_testing.Auth.Model.{Hash}
use vms_backend_testing.Auth.Passwords.{is_empty}
use vms_backend_testing.Auth.Guard.{SystemCredential}
use vms_backend_testing.Organization.Model.{
  ResetTokenSystem, Mail, forgot_password_otp, Db, Env, find_account_by_email,
}
use vms_backend_testing.System.Sessions.{set_account}

abbrev pub upsert_reset : ResetTokenSystem → List ResetTokenSystem → List ResetTokenSystem
upsert_reset t ts =
    if any (λ r. r.system_id == t.system_id) ts
    then update (λ r. r.system_id == t.system_id) (λ r. record r { token = t.token }) ts
    else create t ts

abbrev pub new_reset_token : Env → Ident → ResetTokenSystem
new_reset_token env id = record { id = env.uuid 0; token = env.hash env.otp; system_id = id }

abbrev pub find_reset : Ident → Db → Option ResetTokenSystem
find_reset id db = find_first (λ r. r.system_id == id) db.reset_tokens

-- `sendForgotPasswordOTPSystem`
unfoldable pub mail_otp : Env → Text → Action Db Unit
mail_otp env email = do
  throw_if (not env.mail_works) (internal "mail")
  modify (λ db. record db { mails = create (forgot_password_otp email env.otp) db.mails })

unfoldable pub forgot_password : Env → Text → Action Db Unit
forgot_password env email = do
  throw_if (is_empty email) (bad_request "Provide a valid email address.")
  found ← gets (find_account_by_email (normalize email))
  account ← or_throw found (not_found "No account found with this email.")
  modify (λ db. record db {
    reset_tokens = upsert_reset (new_reset_token env account.id) db.reset_tokens;
  })
  mail_otp env (normalize email)

abbrev pub set_password : Hash → SystemCredential → SystemCredential
set_password hash s = record s { password = hash }

abbrev pub drop_reset : Ident → Db → Db
drop_reset id db = record db { reset_tokens = delete (λ r. r.id == id) db.reset_tokens }

unfoldable pub reset_password : Env → Text → Text → Text → Action Db Unit
reset_password env email otp new = do
  found ← gets (find_account_by_email (normalize email))
  account ← or_throw found (not_found "No system account found with this email.")
  token_found ← gets (find_reset account.id)
  token ← or_throw token_found (bad_request "Token doesnt exists.")
  throw_if (not (env.compare otp token.token)) (bad_request "Invalid OTP!")
  modify (set_account account.id (set_password (env.hash new)))
  modify (drop_reset token.id)
