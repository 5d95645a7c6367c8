-- ===== src/Organization/Limits/Runs.antt =====
-- The limit on system accounts over runs of requests.
use vms_backend_testing.Base.{
  ◌≤◌, Bool, true, false, some, List, [], ◌∷◌, ◌==◌, Ident, ◌≡◌, refl, Option-cases, inl, inr,
  arith,
}
use vms_backend_testing.Base.Table.Counts.{count-update_same, count-update_many-le, count-delete-le}
use vms_backend_testing.Organization.Model.{Db, Env}
use vms_backend_testing.System.Accounts.{accounts_of}
use vms_backend_testing.Organization.Limits.{
  Within, register-Within, create-Within, edit-Within, delete-Within,
}
use vms_backend_testing.Base.Text.{normalize}
use vms_backend_testing.Organization.Model.{find_account, find_account_by_email}
use vms_backend_testing.Organization.Subscriptions.{update_subscription}
use vms_backend_testing.System.Accounts.{edit_system_account, delete_system_account}
use vms_backend_testing.System.Sessions.{
  enter, leave, is_active_of, login_system_user, refresh_system_access_token, logout_system_account,
  logout_system_account_web, logout_all_system_accounts,
}
use vms_backend_testing.System.Passwords.{set_password, forgot_password, mail_otp, reset_password}
use vms_backend_testing.Organization.Requests.{
  create_org, edit_org, drop_org, subscribe, register, set_code, drop_account, login, refresh,
  logout, logout_web, logout_all, forgot, reset, Request, handle, run,
}

abbrev pub writes_organizations : Request → Bool
writes_organizations (create_org role dto has_logo) = true
writes_organizations (edit_org org_id role dto user_id has_logo) = true
writes_organizations (drop_org org_id role) = true
writes_organizations (register org_id user_id role dto) = true
writes_organizations _ = false

-- The requests that only write to accounts, or take them away.
account-Within :
    (env : Env) (r : Request) (i : Ident) (db : Db)
    → writes_organizations r ≡ false
    → ((handle env r db).organizations ≡ db.organizations)
      × (accounts_of i (handle env r db) ≤ accounts_of i db)
unfolding handle login_system_user refresh_system_access_token logout_system_account
    logout_system_account_web logout_all_system_accounts forgot_password mail_otp reset_password
    edit_system_account delete_system_account update_subscription
account-Within env (create_org role dto has_logo) i db h = cc
account-Within env (edit_org org_id role dto user_id has_logo) i db h = cc
account-Within env (drop_org org_id role) i db h = cc
account-Within env (subscribe user_id role org_id dto) i db h = ground arith
account-Within env (register org_id user_id role dto) i db h = cc
account-Within env (set_code org_id role system_id code) i db h =
    elim (Option-cases (find_account system_id db)) [
      | inl n ↦ ground arith
      | inr (s, e) ↦ ground (
        arith,
        count-update_same (λ s. s.org_id == i) (λ x. x.id == s.id)
            (λ s. record s { secret_code = some code }) db.systems (λ s. refl),
      )
    ]
account-Within env (drop_account system_id org_id user_id role) i db h =
    ground (arith, count-delete-le (λ s. s.org_id == i) (λ s. s.id == system_id) db.systems)
account-Within env (login email password) i db h =
    elim (Option-cases (find_account_by_email (normalize email) db)) [
      | inl n ↦ ground arith
      | inr (s, e) ↦ ground (
        arith,
        count-update_same (λ s. s.org_id == i) (λ x. x.id == s.id) (enter (env.uuid 0)) db.systems
            (λ s. refl),
      )
    ]
account-Within env (refresh token) i db h = ground arith
account-Within env (logout org_id system_id role) i db h = ground (
  arith,
  count-update_same (λ s. s.org_id == i) (λ x. x.id == system_id) leave db.systems (λ s. refl),
)
account-Within env (logout_web system_id org_id user_id role) i db h = ground (
  arith,
  count-update_same (λ s. s.org_id == i) (λ x. x.id == system_id) leave db.systems (λ s. refl),
)
account-Within env (logout_all org_id role user_id) i db h = ground (
  arith,
  count-update_many-le (λ s. s.org_id == i) (is_active_of org_id) leave db.systems (λ s t u. u),
)
account-Within env (forgot email) i db h = ground arith
account-Within env (reset email otp new) i db h =
    elim (Option-cases (find_account_by_email (normalize email) db)) [
      | inl n ↦ ground arith
      | inr (s, e) ↦ ground (
        arith,
        count-update_same (λ s. s.org_id == i) (λ x. x.id == s.id) (set_password (env.hash new))
            db.systems (λ s. refl),
      )
    ]

handle-Within :
    (env : Env) (r : Request) (i : Ident) (db : Db) → Within i db → Within i (handle env r db)
unfolding handle
handle-Within env (create_org role dto has_logo) i db h = create-Within env role dto has_logo i db h
handle-Within env (edit_org org_id role dto user_id has_logo) i db h =
    edit-Within env org_id role dto user_id has_logo i db h
handle-Within env (drop_org org_id role) i db h = delete-Within org_id role i db h
handle-Within env (register org_id user_id role dto) i db h =
    register-Within env org_id user_id role dto i db h
handle-Within env r i db h = ground (arith, account-Within env r i db)

-- Over any run of requests to organisations and system accounts, with whatever they answer, an
-- organisation that has no more system accounts than its limit goes on having no more; one that
-- does not exist has none.
pub run-Within :
    (requests : List (Env × Request)) (i : Ident) (db : Db)
    → Within i db
    → Within i (run requests db)
unfolding run
run-Within [] i db h = h
run-Within ((env, r) ∷ rest) i db h =
    run-Within rest i (handle env r db) (handle-Within env r i db h)
