-- ===== src/Auth/Login/Effects.antt =====
-- Who is logged in, and what a login has done.
use vms_backend_testing.Base.{
  ◌≤◌, Bool, true, false, not, ◌&&◌, ◌||◌, Option, none, some, ◌==◌, Ident, ◌≡◌, refl, Option-cases,
  inl, inr, ==-refl, arith,
}
use vms_backend_testing.Base.Text.{Text, text_eq}
use vms_backend_testing.Base.Request.{Result, ok, err, unauthorized}
use vms_backend_testing.Base.Table.{count}
use vms_backend_testing.Base.Table.Counts.{find_first_of_unique}
use vms_backend_testing.Base.Table.Rows.{find_first-update}
use vms_backend_testing.Auth.Model.{
  Hash, UserCredential, Db, Env, is_disabled, disabled, find_user, find_by_email,
}
use vms_backend_testing.Auth.Login.{
  LoginReply, logged_in, provided, set_password, end_first_time, issue, replace_password,
  first_login, later_login, login_user,
}

-- No identifier stands in two rows of the users.
abbrev pub UserIds : Db → Type 0
UserIds db = (i : Ident) → count (λ u. u.id == i) db.users ≤ 1

abbrev pub is_logged_in : Result LoginReply → Bool
is_logged_in (ok (logged_in access refresh role)) = true
is_logged_in _ = false

abbrev is_given : Option Text → Bool
is_given none = false
is_given (some p) = true

-- The credentials of an account let somebody in.
abbrev pub may_enter : Env → Text → Option Text → Option UserCredential → Bool
may_enter env password new none = false
may_enter env password new (some u) =
    not (is_disabled u.account_status)
    && (env.compare password u.password && (not u.first_time_login || is_given (provided new)))

pub found_by_id :
    (email : Text) (user : UserCredential) (db : Db)
    → UserIds db
    → find_by_email email db ≡ some user
    → find_user user.id db ≡ some user
found_by_id email user db ids e =
    find_first_of_unique (λ u. text_eq u.email email) (λ u. u.id == user.id) user db.users
      (ids user.id) e (==-refl user.id)

abbrev pub with_password : Hash → UserCredential → UserCredential
with_password hash u = record u { password = hash }

abbrev pub settled : UserCredential → UserCredential
settled u = record u { first_time_login = false }

find_user-set_password :
    (user : UserCredential) (hash : Hash) (db : Db)
    → find_user user.id db ≡ some user
    → find_user user.id (set_password user.id hash db) ≡ some (with_password hash user)
find_user-set_password user hash db e =
    find_first-update (λ u. u.id == user.id) (λ u. u.id == user.id) (with_password hash) user
      db.users e e (λ u. refl)

pub find_user-first_time :
    (user : UserCredential) (hash : Hash) (db : Db)
    → find_user user.id db ≡ some user
    → find_user user.id (end_first_time user.id (set_password user.id hash db))
      ≡ some (settled (with_password hash user))
find_user-first_time user hash db e =
    let k = find_user-set_password user hash db e in
    find_first-update (λ u. u.id == user.id) (λ u. u.id == user.id) settled
      (with_password hash user) (set_password user.id hash db).users k k (λ u. refl)

-- A login is answered with tokens exactly when the account of the e-mail exists and is enabled,
-- the password fits, and, if it is the first one, a new password is given. This is so if the
-- identifiers of the users are unique and what bcrypt hashes in a request compares well with its
-- hash.
pub login_user_iff :
    (env : Env) (email password : Text) (new : Option Text) (db : Db)
    → UserIds db
    → ((p : Text) → env.compare p (env.hash p) ≡ true)
    → is_logged_in (login_user env email password new db).0
      ≡ may_enter env password new (find_by_email email db)
unfolding login_user first_login later_login replace_password issue
login_user_iff env email password new db ids bcrypt = elim (Option-cases (find_by_email email db)) [
  | inl e ↦ ground arith
  | inr (user, e) ↦ elim (Option-cases (provided new)) [
    | inl none_given ↦ ground arith
    | inr (p, given) ↦ ground (
      arith,
      bcrypt p,
      find_user-first_time user (env.hash p) db (found_by_id email user db ids e),
    )
  ]
]

-- If an account is disabled, then a first login with its password and a new one is refused; all
-- the same the password has been replaced and the next login is no first one.
pub first_login_of_disabled :
    (env : Env) (email password p : Text) (new : Option Text) (user : UserCredential) (db : Db)
    → UserIds db
    → find_by_email email db ≡ some user
    → user.first_time_login ≡ true
    → user.account_status ≡ disabled
    → env.compare password user.password ≡ true
    → provided new ≡ some p
    → login_user env email password new db ≡ (
      err (unauthorized "You don't have permission to access dashboard"),
      end_first_time user.id (set_password user.id (env.hash p) db),
    )
unfolding login_user first_login replace_password
first_login_of_disabled env email password p new user db ids e first off good given =
    ground (arith, find_user-first_time user (env.hash p) db (found_by_id email user db ids e))

pub find_by_email-set_password :
    (email : Text) (hash : Hash) (user : UserCredential) (db : Db)
    → UserIds db
    → find_by_email email db ≡ some user
    → find_by_email email (set_password user.id hash db) ≡ some (with_password hash user)
find_by_email-set_password email hash user db ids e =
    find_first-update (λ u. text_eq u.email email) (λ u. u.id == user.id) (with_password hash) user
      db.users e (found_by_id email user db ids e) (λ u. refl)

-- The password of an account lets its owner in, unless it waits for a first login or is disabled.
pub login_user-accepts :
    (env : Env) (email password : Text) (new : Option Text) (user : UserCredential) (db : Db)
    → find_by_email email db ≡ some user
    → user.first_time_login ≡ false
    → is_disabled user.account_status ≡ false
    → env.compare password user.password ≡ true
    → is_logged_in (login_user env email password new db).0 ≡ true
unfolding login_user later_login issue
login_user-accepts env email password new user db e later on good = ground arith
