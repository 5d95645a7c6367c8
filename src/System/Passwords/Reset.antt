-- ===== src/System/Passwords/Reset.antt =====
-- From a forgotten password to the next login.
use vms_backend_testing.Base.{
  true, not, Option, none, some, List, ◌==◌, ◌≡◌, refl, ==-refl, Option-cases, inl, inr, arith,
}
use vms_backend_testing.Base.Text.{Text, text_eq, normalize}
use vms_backend_testing.Base.Request.{is_ok}
use vms_backend_testing.Base.Table.{find_first}
use vms_backend_testing.Base.Table.Any.{any_of_find_first, any_of_find_first-none}
use vms_backend_testing.Base.Table.Counts.{find_first-holds, find_first_of_unique}
use vms_backend_testing.Base.Table.Rows.{
  find_first-update, find_first-update_self, find_first-create_new,
}
use vms_backend_testing.Auth.Model.{Hash}
use vms_backend_testing.Auth.Guard.{SystemCredential, is_logged_in}
use vms_backend_testing.Organization.Model.{
  ResetTokenSystem, Db, Env, find_account, find_account_by_email,
}
use vms_backend_testing.System.Sessions.{set_account, login_system_user}
use vms_backend_testing.System.Passwords.{
  upsert_reset, new_reset_token, set_password, mail_otp, forgot_password, reset_password,
}
use vms_backend_testing.System.Exclusive.Login.{UniqueId}

abbrev pub hash_of : Option ResetTokenSystem → Option Hash
hash_of none = none
hash_of (some r) = some r.token

hash_of-upsert :
    (t : ResetTokenSystem) (ts : List ResetTokenSystem)
    → hash_of (find_first (λ r. r.system_id == t.system_id) (upsert_reset t ts)) ≡ some t.token
hash_of-upsert t ts = elim (Option-cases (find_first (λ r. r.system_id == t.system_id) ts)) [
  | inl n ↦
      rw
        (
          any_of_find_first-none (λ r. r.system_id == t.system_id) ts n,
          find_first-create_new (λ r. r.system_id == t.system_id) t ts
              (any_of_find_first-none (λ r. r.system_id == t.system_id) ts n) (==-refl t.system_id),
        )
        refl
  | inr (r, e) ↦ ground (
    arith,
    any_of_find_first (λ r. r.system_id == t.system_id) r ts e,
    find_first-update_self (λ r. r.system_id == t.system_id) (λ r. record r { token = t.token }) r
        ts e (find_first-holds (λ r. r.system_id == t.system_id) ts e),
  )
]

login-password :
    (env : Env) (email password : Text) (s : SystemCredential) (hash : Hash) (db : Db)
    → UniqueId s.id db
    → find_account_by_email (normalize email) db ≡ some s
    → env.compare password hash ≡ true
    → is_ok (login_system_user env email password (set_account s.id (set_password hash) db)).0
      ≡ not (is_logged_in s.activity_status)
unfolding login_system_user
login-password env email password s hash db u e c =
    let first : find_account s.id db ≡ some s =
      find_first_of_unique (λ x. text_eq x.email (normalize email)) (λ x. x.id == s.id) s db.systems
        u e (==-refl s.id) in
    ground (
      arith,
      find_first-update (λ x. text_eq x.email (normalize email)) (λ x. x.id == s.id)
          (set_password hash) s db.systems e first (λ x. refl),
    )

-- Who has forgotten the password of an account resets it with the code that is mailed, and then the
-- new password lets a tablet in exactly if none is logged in to the account: a reset ends no session.
-- The identifier of the account stands in one row only, and bcrypt accepts what it has hashed.
pub forgot_reset_login :
    (env env' env'' : Env) (email password : Text) (s : SystemCredential) (db : Db)
    → UniqueId s.id db
    → find_account_by_email (normalize email) db ≡ some s
    → env'.compare env.otp (env.hash env.otp) ≡ true
    → env''.compare password (env'.hash password) ≡ true
    → is_ok (forgot_password env email db).0 ≡ true
    → let reset = reset_password env' email env.otp password (forgot_password env email db).1 in
      (is_ok reset.0 ≡ true)
      × (is_ok (login_system_user env'' email password reset.1).0
          ≡ not (is_logged_in s.activity_status))
unfolding forgot_password mail_otp reset_password login_system_user
forgot_reset_login env env' env'' email password s db u e c d h =
    let stored = hash_of-upsert (new_reset_token env s.id) db.reset_tokens in
    ground (arith, stored, login-password env'' email password s (env'.hash password) db u e d)
