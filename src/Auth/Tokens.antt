-- ===== src/Auth/Tokens.antt =====
-- `refreshAccessToken` and `logout`
pub mod Rotation
use vms_backend_testing.Base.{
  ◌+◌, Bool, true, false, not, Option, none, some, List, [], ◌∷◌, ltb, ◌==◌, Ident, present,
  is_ident,
}
use vms_backend_testing.Base.Request.{
  Action, bad_request, unauthorized, not_found, ◌>>=◌, ◌>>◌, pure, gets, or_throw, throw_if, modify,
}
use vms_backend_testing.Base.Text.{Text}
use vms_backend_testing.Base.Role.{Role, root, super_admin, admin, includes}
use vms_backend_testing.Base.Table.{find_first, update, delete_many}
use vms_backend_testing.Auth.Model.{
  UserCredential, RefreshToken, Db, Env, Claims, find_user, refresh_lifetime,
}
use vms_backend_testing.Auth.Login.{claims_of}

-- The access token, the refresh token that replaces the old one, and the role.
pub record Refreshed : Type 0 where
  pub access_token : Text
  pub new_refresh_token : Ident
  pub new_role : Role

abbrev pub find_token : Ident → Db → Option RefreshToken
find_token token db = find_first (λ r. r.token == token) db.refresh_tokens

abbrev pub rotate : Env → RefreshToken → RefreshToken
rotate env r = record r { token = env.uuid 0; expiry_date = env.now + refresh_lifetime }

abbrev pub rotate_row : Env → Ident → Db → Db
rotate_row env id db = record db {
  refresh_tokens = update (λ r. r.id == id) (rotate env) db.refresh_tokens;
}

unfoldable pub refresh_access_token : Env → Ident → Action Db Refreshed
refresh_access_token env token = do
  found ← gets (find_token token)
  row ← or_throw found (bad_request "Invalid refresh token.")
  throw_if (ltb row.expiry_date env.now) (bad_request "Refresh token expired.")
  user_id ← or_throw (present row.user_id) (bad_request "User ID must exist.")
  found_user ← gets (find_user user_id)
  user ← or_throw found_user (bad_request "User not found.")
  modify (rotate_row env row.id)
  pure (record {
    access_token = env.sign (claims_of user);
    new_refresh_token = env.uuid 0;
    new_role = user.role;
  })

abbrev pub revoke : Ident → Db → Db
revoke user_id db = record db {
  refresh_tokens = delete_many (λ r. is_ident r.user_id user_id) db.refresh_tokens;
}

unfoldable pub logout : Ident → Role → Action Db Unit
logout user_id role = do
  throw_if (not (includes (root ∷ super_admin ∷ admin ∷ []) role)) (unauthorized "Invalid role.")
  found ← gets (find_user user_id)
  or_throw found (not_found "User doesn't exists.")
  modify (revoke user_id)
