-- ===== src/Auth/Tests.antt =====
-- Runs of authentication on small tables, with toy versions of bcrypt and of the JWT library.
use vms_backend_testing.Base.{
  ℕ, ◌+◌, ◌*◌, ◌-◌, Bool, true, false, Option, none, some, [], ◌∷◌, ◌==◌, if◌then◌else◌, Ident, ◌≡◌,
  ◌≢◌, refl, ==-refl, arith,
}
use vms_backend_testing.Base.Text.{Text, text_eq, normalize, trim}
use vms_backend_testing.Base.Request.{ok, err, bad_request}
use vms_backend_testing.Base.Role.{Role, root, super_admin, admin, staff, system, other}
use vms_backend_testing.Auth.Model.{
  Hash, active, disabled, UserCredential, RefreshToken, ResetToken, Db, Claims, Env, find_by_email,
}
use vms_backend_testing.Auth.Login.{claims_of, login_user, later_login, issue}
use vms_backend_testing.Auth.Login.Effects.{UserIds, is_logged_in, may_enter, login_user_iff}
use vms_backend_testing.Auth.Tokens.{Refreshed, refresh_access_token}
use vms_backend_testing.Auth.Tokens.Rotation.{TokenKeys, refresh_rotates}
use vms_backend_testing.Auth.Passwords.{reset_password}
use vms_backend_testing.Auth.Passwords.Reset.{reset_password_once}
use vms_backend_testing.Auth.Guard.{JwtPayload, Verified, valid, malformed, can_activate}
use vms_backend_testing.Auth.Guard.Sessions.{
  has_no_space, payload_of, bearer, identity_of, login_then_guard,
}

abbrev pub toy_hash : Text → Hash
toy_hash [] = 7
toy_hash (c ∷ s) = c + 131 * toy_hash s

abbrev pub toy_compare : Text → Hash → Bool
toy_compare p h = toy_hash p == h

pub toy_compare_hash : (p : Text) → toy_compare p (toy_hash p) ≡ true
toy_compare_hash p = ==-refl (toy_hash p)

abbrev pub role_code : Role → ℕ
role_code root = 1
role_code super_admin = 2
role_code admin = 3
role_code staff = 4
role_code system = 5
role_code other = 6

abbrev pub role_at : ℕ → Role
role_at n =
    if n == 1
    then root
    else if n == 2
    then super_admin
    else if n == 3
    then admin
    else if n == 4
    then staff
    else if n == 5
    then system
    else other

abbrev pub org_code : Option Ident → ℕ
org_code none = 100
org_code (some o) = 101 + o

abbrev pub org_at : ℕ → Option Ident
org_at n = if n == 0 then none else some (n - 1)

abbrev toy_sign : Claims → Text
toy_sign c = (100 + c.user_id) ∷ org_code c.org_id ∷ role_code c.role ∷ []

abbrev toy_verify : Text → Verified
toy_verify (u ∷ o ∷ r ∷ []) = valid (record {
  org_id = org_at (o - 100);
  user_id = some (u - 100);
  role = role_at r;
  system_id = none;
  session_id = none;
})
toy_verify _ = malformed

pub org_at_code : (o : Option Ident) → org_at (org_code o - 100) ≡ o
org_at_code none = refl
org_at_code (some i) = ground arith

pub role_at_code : (r : Role) → role_at (role_code r) ≡ r
role_at_code root = refl
role_at_code super_admin = refl
role_at_code admin = refl
role_at_code staff = refl
role_at_code system = refl
role_at_code other = refl

toy_verify_sign : (c : Claims) → toy_verify (toy_sign c) ≡ valid (payload_of c)
toy_verify_sign c =
    let user : (100 + c.user_id) - 100 ≡ c.user_id = omega arith in
    rw (user, org_at_code c.org_id, role_at_code c.role)

toy_sign_word : (c : Claims) → has_no_space (toy_sign c) ≡ true
toy_sign_word c = ground arith

toy_sign_filled : (c : Claims) → toy_sign c ≢ []
toy_sign_filled c = ground arith

abbrev env_at : ℕ → ℕ → Env
env_at now base = record {
  now = now;
  uuid = λ i. base + i;
  hash = toy_hash;
  compare = toy_compare;
  otp = b'1' ∷ b'2' ∷ [];
  sign = toy_sign;
  mail_works = true;
}

abbrev mail_address : Text
mail_address = b'a' ∷ b'@' ∷ b'x' ∷ []

abbrev old_password : Text
old_password = b'o' ∷ b'l' ∷ b'd' ∷ []

abbrev new_password : Text
new_password = b'n' ∷ b'e' ∷ b'w' ∷ []

abbrev ann : UserCredential
ann = record {
  id = 5;
  org_id = some 1;
  email = mail_address;
  password = toy_hash old_password;
  role = admin;
  first_time_login = false;
  account_status = active;
}

abbrev a_token : RefreshToken
a_token = record { id = 70; token = 71; user_id = some 5; system_id = none; expiry_date = 9000 }

abbrev a_reset : ResetToken
a_reset = record { id = 80; token = toy_hash (b'1' ∷ b'2' ∷ []); user_id = 5 }

abbrev with_ann : Db
with_ann = record {
  users = ann ∷ [];
  refresh_tokens = a_token ∷ [];
  reset_tokens = a_reset ∷ [];
  mails = [];
}

one_user : UserIds with_ann
one_user i = ground arith

one_token : TokenKeys with_ann
one_token = record { ids = λ i. ground arith; tokens = λ i. ground arith }

login_user_iff_example :
    is_logged_in (login_user (env_at 1000 50) mail_address old_password none with_ann).0
    ≡ may_enter (env_at 1000 50) old_password none (find_by_email mail_address with_ann)
login_user_iff_example =
    login_user_iff (env_at 1000 50) mail_address old_password none with_ann one_user
      toy_compare_hash

abbrev new_bob : UserCredential
new_bob = record ann { first_time_login = true; account_status = disabled }

abbrev with_bob : Db
with_bob = record with_ann { users = new_bob ∷ [] }

one_bob : UserIds with_bob
one_bob i = ground arith

abbrev refreshed : Refreshed
refreshed = record {
  access_token = toy_sign (claims_of ann);
  new_refresh_token = 50;
  new_role = admin;
}

refresh_rotates_example :
    (refresh_access_token
      (env_at 2000 60)
      71
      (refresh_access_token (env_at 1000 50) 71 with_ann).1).0
    ≡ err (bad_request "Invalid refresh token.")
unfolding refresh_access_token
refresh_rotates_example =
    refresh_rotates (env_at 1000 50) (env_at 2000 60) 71 refreshed with_ann one_token refl
      (ground arith)

reset_password_once_example :
    (reset_password
      (env_at 2000 60)
      mail_address
      (b'1' ∷ b'2' ∷ [])
      old_password
      (reset_password (env_at 1000 50) mail_address (b'1' ∷ b'2' ∷ []) new_password with_ann).1).0
    ≡ err (bad_request "Token doesnt exists.")
unfolding reset_password normalize trim text_eq
reset_password_once_example =
    reset_password_once (env_at 1000 50) (env_at 2000 60) mail_address (b'1' ∷ b'2' ∷ [])
      (b'1' ∷ b'2' ∷ []) new_password old_password with_ann (λ i. ground arith) (λ i. ground arith)
      one_user refl

login_then_guard_example :
    can_activate toy_verify (some (bearer (toy_sign (claims_of ann)))) [] ≡ ok (identity_of ann)
unfolding login_user later_login issue text_eq
login_then_guard_example =
    login_then_guard (env_at 1000 50) toy_verify mail_address old_password none ann
      (toy_sign (claims_of ann)) 51 admin with_ann [] toy_verify_sign toy_sign_word toy_sign_filled
      one_user (ground arith) refl refl

abbrev of_gate : JwtPayload
of_gate = record {
  org_id = some 1;
  user_id = none;
  role = system;
  system_id = some 9;
  session_id = some 89;
}
