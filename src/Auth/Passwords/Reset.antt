-- ===== src/Auth/Passwords/Reset.antt =====
-- What a change of a password has done, by the old one or by a one-time password.
use vms_backend_testing.Base.{
  ◌≤◌, true, false, none, some, List, [], ◌∷◌, ◌==◌, Ident, ◌≡◌, Option-cases, Bool-cases, inl, inr,
  ==-refl, arith,
}
use mathlib.Core.Option
use vms_backend_testing.Base.Text.{Text, normalize}
use vms_backend_testing.Base.Request.{err, bad_request, is_ok}
use vms_backend_testing.Base.Table.{count, any, find_first, update}
use vms_backend_testing.Base.Table.Counts.{
  count-delete, find_first-holds, find_first_of_count_zero, find_first_of_unique,
}
use vms_backend_testing.Base.Table.Rows.{find_first-create_new}
use vms_backend_testing.Auth.Model.{
  Hash, UserCredential, ResetToken, Db, Env, is_disabled, find_by_email,
}
use vms_backend_testing.Auth.Login.{login_user, set_password}
use vms_backend_testing.Auth.Login.Effects.{
  UserIds, found_by_id, is_logged_in, with_password, login_user-accepts, find_by_email-set_password,
}
use vms_backend_testing.Auth.Passwords.{
  find_reset, drop_reset, reset_password, change_old_password, forgot_password, mail_otp,
  new_reset_token,
}

-- After a reset the new password lets the owner of the account in, if the account does not wait
-- for a first login, the identifiers of users are unique and bcrypt accepts the password that it
-- hashed.
pub reset_then_login :
    (env env' : Env) (email otp password : Text) (user : UserCredential) (db : Db)
    → UserIds db
    → find_by_email (normalize email) db ≡ some user
    → user.first_time_login ≡ false
    → env'.compare password (env.hash password) ≡ true
    → is_ok (reset_password env email otp password db).0 ≡ true
    → is_logged_in
        (login_user env'
          (normalize email)
          password
          none
          (reset_password env email otp password db).1).0
      ≡ true
unfolding reset_password
reset_then_login env env' email otp password user db ids e later bcrypt good =
    elim (Option-cases (find_reset user.id db)) [
      | inl none_left ↦ absurd (ground arith)
      | inr (token, f) ↦ elim (Bool-cases (is_disabled user.account_status)) [
        | inl off ↦ absurd (ground arith)
        | inr on ↦
            let k =
              login_user-accepts env' (normalize email) password none
                (with_password (env.hash password) user)
                (drop_reset token.id (set_password user.id (env.hash password) db))
                (find_by_email-set_password (normalize email) (env.hash password) user db ids e)
                later on bcrypt in
            ground (arith, k)
      ]
    ]

-- An old password that fits can be changed, and then the new one lets its owner in, if the account
-- is enabled and does not wait for a first login, under the same conditions.
pub change_then_login :
    (env env' : Env) (email old password : Text) (user : UserCredential) (db : Db)
    → UserIds db
    → find_by_email email db ≡ some user
    → user.first_time_login ≡ false
    → is_disabled user.account_status ≡ false
    → env'.compare password (env.hash password) ≡ true
    → env.compare old user.password ≡ true
    → is_logged_in
        (login_user env' email password none (change_old_password env user.id old password db).1).0
      ≡ true
unfolding change_old_password
change_then_login env env' email old password user db ids e later on bcrypt good = ground (
  arith,
  found_by_id email user db ids e,
  login_user-accepts env' email password none (with_password (env.hash password) user)
      (set_password user.id (env.hash password) db)
      (find_by_email-set_password email (env.hash password) user db ids e) later on bcrypt,
)

dropped-missing :
    (user : Ident) (token : ResetToken) (db : Db)
    → ((i : Ident) → count (λ r. r.id == i) db.reset_tokens ≤ 1)
    → ((i : Ident) → count (λ r. r.user_id == i) db.reset_tokens ≤ 1)
    → find_reset user db ≡ some token
    → find_reset user (drop_reset token.id db) ≡ none
dropped-missing user token db keys one f =
    let first =
      find_first_of_unique (λ r. r.user_id == user) (λ r. r.id == token.id) token db.reset_tokens
        (keys token.id) f (==-refl token.id) in
    find_first_of_count_zero (λ r. r.user_id == user) (drop_reset token.id db).reset_tokens
      (ground (
        arith,
        one user,
        count-delete (λ r. r.user_id == user) (λ r. r.id == token.id) token db.reset_tokens first
            (find_first-holds (λ r. r.user_id == user) db.reset_tokens f),
      ))

pub reset_password_once :
    (env env' : Env) (email otp otp' password password' : Text) (db : Db)
    → ((i : Ident) → count (λ r. r.id == i) db.reset_tokens ≤ 1)
    → ((i : Ident) → count (λ r. r.user_id == i) db.reset_tokens ≤ 1)
    → UserIds db
    → is_ok (reset_password env email otp password db).0 ≡ true
    → (reset_password env' email otp' password' (reset_password env email otp password db).1).0
      ≡ err (bad_request "Token doesnt exists.")
unfolding reset_password
reset_password_once env env' email otp otp' password password' db keys one ids good =
    elim (Option-cases (find_by_email (normalize email) db)) [
      | inl nobody ↦ absurd (ground arith)
      | inr (user, e) ↦ elim (Option-cases (find_reset user.id db)) [
        | inl none_left ↦ absurd (ground arith)
        | inr (token, f) ↦
            let found =
              find_by_email-set_password (normalize email) (env.hash password) user db ids e in
            let gone : find_reset user.id (drop_reset token.id db) ≡ none =
              dropped-missing user.id token db keys one f in
            ground (arith, found, gone)
      ]
    ]

abbrev token_of : ResetToken → Hash
token_of r = r.token

token_of-upsert :
    (t : ResetToken) (ts : List ResetToken)
    → any (λ r. r.user_id == t.user_id) ts ≡ true
    → Option.map token_of (
        find_first
          (λ r. r.user_id == t.user_id)
          (update (λ r. r.user_id == t.user_id) (λ r. record r { token = t.token }) ts))
      ≡ some t.token
token_of-upsert t [] h = cc
token_of-upsert t (r ∷ ts) h = ground (arith, token_of-upsert t ts)

-- A code that was mailed for an enabled account serves to reset its password, if bcrypt accepts
-- the code that it hashed.
pub forgot_then_reset :
    (env env' : Env) (email password : Text) (db : Db)
    → env'.compare env.otp (env.hash env.otp) ≡ true
    → is_ok (forgot_password env email db).0 ≡ true
    → is_ok (reset_password env' email env.otp password (forgot_password env email db).1).0 ≡ true
unfolding forgot_password reset_password mail_otp
forgot_then_reset env env' email password db bcrypt good =
    elim (Option-cases (find_by_email (normalize email) db)) [
      | inl nobody ↦ absurd (ground arith)
      | inr (user, e) ↦
          let t = new_reset_token env user in
          elim (Bool-cases (any (λ r. r.user_id == user.id) db.reset_tokens)) [
            | inl old ↦ ground (arith, token_of-upsert t db.reset_tokens old)
            | inr fresh ↦ ground (
              arith,
              find_first-create_new (λ r. r.user_id == user.id) t db.reset_tokens fresh
                  (==-refl user.id),
            )
          ]
    ]
