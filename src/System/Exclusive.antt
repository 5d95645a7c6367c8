-- ===== src/System/Exclusive.antt =====
-- The session of a system account, through other requests.
pub mod Login
use vms_backend_testing.Base.{
  ℕ, ◌+◌, ◌≤◌, Bool, true, false, not, ◌&&◌, ◌||◌, Option, none, some, List, [], ◌∷◌, ◌==◌, ltb,
  leb, if◌then◌else◌, Ident, is_ident, present, ◌≡◌, refl, ap, ◌≢◌, ==→eq, ==-refl, Option-cases,
  Bool-cases, inl, inr, arith,
}
use vms_backend_testing.Base.Text.{Text, text_eq, normalize}
use vms_backend_testing.Base.Request.{Result, ok, err, is_ok, unauthorized}
use vms_backend_testing.Base.Role.{Role}
use vms_backend_testing.Base.Table.{
  All, count, any, find_first, create, update, update_many, delete, delete_many,
}
use vms_backend_testing.Base.Table.Any.{
  any-create, any-update_same, any-update_on, any-update_many_on, any-delete_miss, any-delete_le,
  any-delete_many_miss, any-delete_many, find_first-fails, any_of_find_first-none,
}
use vms_backend_testing.Base.Table.Counts.{find_first-holds, find_first_of_unique}
use vms_backend_testing.Auth.Guard.{
  SystemCredential, JwtPayload, Verified, valid, is_logged_in, same_session,
  extract_token_from_header, can_activate,
}
use vms_backend_testing.Auth.Guard.Sessions.{in_session, system_guard_iff}
use vms_backend_testing.Organization.Model.{Db, Env, find_account, find_account_by_email}
use vms_backend_testing.Organization.Manage.{
  EditOrganizationDto, limit_given, create_organization, upload_logo, mail_registration,
  edit_organization_details, store_details, check_editor, check_super_admin, delete_organization,
}
use vms_backend_testing.Organization.Limits.{check_editor-state}
use vms_backend_testing.Auth.Login.{provided}
use vms_backend_testing.Organization.Subscriptions.{update_subscription}
use vms_backend_testing.System.Accounts.{
  new_account, register_system_user, edit_system_account, delete_system_account,
}
use vms_backend_testing.System.Sessions.{
  enter, leave, session_payload, is_active_of, login_system_user, refresh_system_access_token,
  logout_system_account, logout_system_account_web, logout_all_system_accounts,
}
use vms_backend_testing.System.Passwords.{set_password, forgot_password, mail_otp, reset_password}
use vms_backend_testing.Organization.Requests.{
  create_org, edit_org, drop_org, subscribe, register, set_code, drop_account, login, refresh,
  logout, logout_web, logout_all, forgot, reset, Request, handle, run,
}

-- A row of the account that is not in the session.
abbrev pub is_out : Ident → Ident → Ident → SystemCredential → Bool
is_out id org_id session s =
    s.id == id && not (s.org_id == org_id && in_session (some s) (some session))

-- The account is there, of the organisation, and in the session.
abbrev pub Held : Ident → Ident → Ident → List SystemCredential → Type 0
Held id org_id session systems =
    (any (λ s. s.id == id) systems ≡ true) × (any (is_out id org_id session) systems ≡ false)

-- A request that neither logs the account out nor deletes it or its organisation, and to which the
-- database gives no identifier that is the account's.
abbrev pub spares : Ident → Ident → Env × Request → Bool
spares id org_id (env, drop_org o role) = not (o == org_id)
spares id org_id (env, register o user_id role dto) = not (env.uuid 0 == id)
spares id org_id (env, drop_account system_id o user_id role) = not (system_id == id)
spares id org_id (env, logout o system_id role) = not (system_id == id)
spares id org_id (env, logout_web system_id o user_id role) = not (system_id == id)
spares id org_id (env, logout_all o role user_id) = not (o == org_id)
spares id org_id (env, r) = true

store_details-systems :
    (env : Env) (org_id : Ident) (key : Text) (limit : Option ℕ) (logo : Option Text)
    (dto : EditOrganizationDto) (db : Db)
    → (store_details env org_id key limit logo dto db).1.systems ≡ db.systems
unfolding store_details
store_details-systems env org_id key limit logo dto db = ground arith

edit-systems :
    (env : Env) (org_id : Ident) (role : Role) (dto : EditOrganizationDto) (user_id : Ident)
    (has_logo : Bool) (db : Db)
    → (edit_organization_details env org_id role dto user_id has_logo db).1.systems ≡ db.systems
unfolding edit_organization_details upload_logo
edit-systems env org_id role dto user_id has_logo db =
    elim (Option-cases (provided env.encryption_key)) [
      | inl n ↦ ground (arith, check_editor-state role user_id org_id db)
      | inr (key, e) ↦
          let stored : (logo : Option Text)
              → (store_details env org_id key (limit_given role dto.account_limit) logo dto
                  db).1.systems
                ≡ db.systems =
            λ logo.
              store_details-systems env org_id key (limit_given role dto.account_limit) logo dto
                db in
          ground (arith, stored none, stored env.upload, check_editor-state role user_id org_id db)
    ]

module _ (id org_id session : Ident) where
  Held-create :
      (s : SystemCredential) (systems : List SystemCredential)
      → (s.id == id) ≡ false
      → Held id org_id session systems
      → Held id org_id session (create s systems)
  Held-create s systems ne h = ground (
    arith,
    any-create (λ x. x.id == id) s systems,
    any-create (is_out id org_id session) s systems,
  )

  -- A write to another account, or one that leaves the session alone
  Held-update :
      (j : Ident) (f : SystemCredential → SystemCredential) (systems : List SystemCredential)
      → ((s : SystemCredential) → (s.id == j) ≡ true → (f s).id ≡ s.id)
      → ((s : SystemCredential)
          → (s.id == j) ≡ true
          → is_out id org_id session (f s) ≡ is_out id org_id session s)
      → Held id org_id session systems
      → Held id org_id session (update (λ s. s.id == j) f systems)
  Held-update j f systems keep same h = ground (
    arith,
    any-update_on (λ s. s.id == id) (λ s. s.id == j) f systems
        (λ s t. ap (λ x. x == id) (keep s t)),
    any-update_on (is_out id org_id session) (λ s. s.id == j) f systems same,
  )

  Held-update_ne :
      (j : Ident) (f : SystemCredential → SystemCredential) (systems : List SystemCredential)
      → ((s : SystemCredential) → (f s).id ≡ s.id)
      → (j == id) ≡ false
      → Held id org_id session systems
      → Held id org_id session (update (λ s. s.id == j) f systems)
  Held-update_ne j f systems keep ne h =
      Held-update j f systems (λ s t. keep s) (λ s t. ground (arith, keep s)) h

  Held-delete :
      (j : Ident) (systems : List SystemCredential)
      → (j == id) ≡ false
      → Held id org_id session systems
      → Held id org_id session (delete (λ s. s.id == j) systems)
  Held-delete j systems ne h = ground (
    arith,
    any-delete_miss (λ s. s.id == id) (λ s. s.id == j) systems (λ s t. ground arith),
    any-delete_le (is_out id org_id session) (λ s. s.id == j) systems,
  )

  -- Writes that reach the accounts of another organisation only
  kept_by_org :
      (o : Ident) (systems : List SystemCredential)
      → (o == org_id) ≡ false
      → any (is_out id org_id session) systems ≡ false
      → any (λ s. s.id == id) (delete_many (λ s. s.org_id == o) systems)
        ≡ any (λ s. s.id == id) systems
  kept_by_org o [] ne h = refl
  kept_by_org o (s ∷ systems) ne h = ground (arith, kept_by_org o systems ne)

  Held-delete_org :
      (o : Ident) (systems : List SystemCredential)
      → (o == org_id) ≡ false
      → Held id org_id session systems
      → Held id org_id session (delete_many (λ s. s.org_id == o) systems)
  Held-delete_org o systems ne h = ground (
    arith,
    kept_by_org o systems ne h.1,
    any-delete_many (is_out id org_id session) (λ s. s.org_id == o) systems,
  )

  stays_in :
      (o : Ident) (systems : List SystemCredential)
      → (o == org_id) ≡ false
      → any (is_out id org_id session) systems ≡ false
      → any (is_out id org_id session) (update_many (is_active_of o) leave systems) ≡ false
  stays_in o [] ne h = refl
  stays_in o (s ∷ systems) ne h = ground (arith, stays_in o systems ne)

  Held-leave_org :
      (o : Ident) (systems : List SystemCredential)
      → (o == org_id) ≡ false
      → Held id org_id session systems
      → Held id org_id session (update_many (is_active_of o) leave systems)
  Held-leave_org o systems ne h = ground (
    arith,
    any-update_many_on (λ s. s.id == id) (is_active_of o) leave systems (λ s t. refl),
    stays_in o systems ne h.1,
  )

  Held-handle :
      (env : Env) (r : Request) (db : Db)
      → spares id org_id (env, r) ≡ true
      → Held id org_id session db.systems
      → Held id org_id session (handle env r db).systems
  unfolding handle register_system_user edit_system_account delete_system_account
      update_subscription login_system_user logout_system_account logout_system_account_web
      logout_all_system_accounts reset_password delete_organization create_organization upload_logo
      mail_registration refresh_system_access_token forgot_password mail_otp
  Held-handle env (create_org role dto has_logo) db k h = ground arith
  Held-handle env (edit_org o role dto user_id has_logo) db k h =
      ground (arith, edit-systems env o role dto user_id has_logo db)
  Held-handle env (drop_org o role) db k h = ground (arith, Held-delete_org o db.systems)
  Held-handle env (subscribe user_id role o dto) db k h = ground arith
  Held-handle env (register o user_id role dto) db k h =
      ground (arith, Held-create (new_account env o dto) db.systems)
  Held-handle env (set_code o role system_id code) db k h =
      elim (Option-cases (find_account system_id db)) [
        | inl n ↦ ground arith
        | inr (s, e) ↦ ground (
          arith,
          Held-update s.id (λ s. record s { secret_code = some code }) db.systems (λ s t. refl)
              (λ s t. refl),
        )
      ]
  Held-handle env (drop_account system_id o user_id role) db k h =
      ground (arith, Held-delete system_id db.systems)
  Held-handle env (login email password) db k h =
      elim (Option-cases (find_account_by_email (normalize email) db)) [
        | inl n ↦ ground arith
        | inr (s, e) ↦ ground (
          arith,
          Held-update_ne s.id (enter (env.uuid 0)) db.systems (λ s. refl),
          find_first-fails (is_out id org_id session) (λ s. text_eq s.email (normalize email)) s
              db.systems e h.1,
        )
      ]
  Held-handle env (refresh token) db k h = ground arith
  Held-handle env (logout o system_id role) db k h =
      ground (arith, Held-update_ne system_id leave db.systems (λ s. refl))
  Held-handle env (logout_web system_id o user_id role) db k h =
      ground (arith, Held-update_ne system_id leave db.systems (λ s. refl))
  Held-handle env (logout_all o role user_id) db k h = ground (arith, Held-leave_org o db.systems)
  Held-handle env (forgot email) db k h = ground arith
  Held-handle env (reset email otp new) db k h =
      elim (Option-cases (find_account_by_email (normalize email) db)) [
        | inl n ↦ ground arith
        | inr (s, e) ↦ ground (
          arith,
          Held-update s.id (set_password (env.hash new)) db.systems (λ s t. refl) (λ s t. refl),
        )
      ]

  pub Held-run :
      (requests : List (Env × Request)) (db : Db)
      → All (λ r. spares id org_id r ≡ true) requests
      → Held id org_id session db.systems
      → Held id org_id session (run requests db).systems
  unfolding run
  Held-run [] db k h = h
  Held-run ((env, r) ∷ rest) db k h =
      Held-run rest (handle env r db) k.1 (Held-handle env r db k.0 h)
