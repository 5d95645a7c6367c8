-- ===== src/Auth/Login.antt =====
-- `loginUser` and `changePassword`
pub mod Effects
use vms_backend_testing.Base.{
  ◌+◌, Bool, true, false, not, Option, none, some, List, [], ◌∷◌, ◌==◌, if◌then◌else◌, Ident,
}
use vms_backend_testing.Base.Text.{Text}
use vms_backend_testing.Base.Request.{
  Action, bad_request, unauthorized, not_found, ◌>>=◌, ◌>>◌, pure, gets, or_throw, throw_if, modify,
}
use vms_backend_testing.Base.Role.{Role}
use vms_backend_testing.Base.Table.{create, update}
use vms_backend_testing.Auth.Model.{
  Hash, UserCredential, RefreshToken, Db, Env, Claims, is_disabled, find_user, find_by_email,
  refresh_lifetime,
}

-- What a login answers if it does not throw.
pub data LoginReply : Type 0 where
  new_password_wanted : LoginReply
  logged_in : Text → Ident → Role → LoginReply

abbrev pub claims_of : UserCredential → Claims
claims_of u = record { user_id = u.id; org_id = u.org_id; role = u.role }

abbrev pub set_password : Ident → Hash → Db → Db
set_password id hash db = record db {
  users = update (λ u. u.id == id) (λ u. record u { password = hash }) db.users;
}

abbrev pub new_refresh_token : Env → Ident → RefreshToken
new_refresh_token env user_id = record {
  id = env.uuid 0;
  token = env.uuid 1;
  user_id = some user_id;
  system_id = none;
  expiry_date = env.now + refresh_lifetime;
}

-- The two tokens, of which the database keeps the second.
unfoldable pub issue : Env → UserCredential → Action Db LoginReply
issue env user = do
  modify (λ db. record db {
    refresh_tokens = create (new_refresh_token env user.id) db.refresh_tokens;
  })
  pure (logged_in (env.sign (claims_of user)) (env.uuid 1) user.role)

-- `if (!newPassword)`
abbrev pub provided : Option Text → Option Text
provided none = none
provided (some []) = none
provided (some (c ∷ s)) = some (c ∷ s)

abbrev pub end_first_time : Ident → Db → Db
end_first_time id db = record db {
  users = update (λ u. u.id == id) (λ u. record u { first_time_login = false }) db.users;
}

-- The new password is stored before the account is known to be enabled.
unfoldable pub replace_password : Env → Ident → Option Text → Action Db LoginReply
replace_password env id none = pure new_password_wanted
replace_password env id (some new) = do
  modify (set_password id (env.hash new))
  modify (end_first_time id)
  found ← gets (find_user id)
  user ← or_throw found (not_found "User doesn't exist")
  throw_if (is_disabled user.account_status)
      (unauthorized "You don't have permission to access dashboard")
  throw_if (not (env.compare new user.password)) (bad_request "Password update failed.")
  issue env user

unfoldable pub first_login : Env → UserCredential → Text → Option Text → Action Db LoginReply
first_login env user password new = do
  throw_if (not (env.compare password user.password)) (bad_request "Invalid credentials.")
  replace_password env user.id (provided new)

unfoldable pub later_login : Env → UserCredential → Text → Action Db LoginReply
later_login env user password = do
  throw_if (is_disabled user.account_status)
      (unauthorized "You don't have permission to access dashboard")
  throw_if (not (env.compare password user.password)) (bad_request "Invalid credentials.")
  issue env user

unfoldable pub login_user : Env → Text → Text → Option Text → Action Db LoginReply
login_user env email password new = do
  found ← gets (find_by_email email)
  user ← or_throw found (not_found "User doesn't exist.")
  if user.first_time_login then first_login env user password new else later_login env user password
