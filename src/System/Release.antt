-- ===== src/System/Release.antt =====
-- How a session of a system account ends, and what is left of it.
use vms_backend_testing.Base.{
  ◌≤◌, Bool, true, false, Option, none, some, List, [], ◌∷◌, ◌==◌, Ident, is_ident, present, ◌≡◌,
  refl, ap, ◌∙◌, ◌≢◌, ==-refl, Option-cases, inl, inr, arith,
}
use vms_backend_testing.Base.Text.{Text, text_eq, normalize}
use vms_backend_testing.Base.Request.{Action, ok, is_ok}
use vms_backend_testing.Base.Role.{Role, super_admin}
use vms_backend_testing.Base.Table.{count, find_first, update, update_many, delete, delete_many}
use vms_backend_testing.Base.Table.Counts.{count-delete_many-le, find_first_of_unique}
use vms_backend_testing.Base.Table.Rows.{find_first-update}
use vms_backend_testing.Auth.Guard.{
  SystemCredential, JwtPayload, Verified, valid, is_logged_in, find_system,
  extract_token_from_header, read_payload, check_session, can_activate,
}
use vms_backend_testing.Auth.Guard.Sessions.{
  in_session, system_guard_iff, has_no_space, bearer, extract-bearer,
}
use vms_backend_testing.Auth.Model.{UserCredential}
use vms_backend_testing.Organization.Model.{
  Organization, Db, Env, find_organization, find_user, find_account, find_account_by_email,
}
use vms_backend_testing.Organization.Manage.{delete_organization}
use vms_backend_testing.System.Accounts.{delete_system_account}
use vms_backend_testing.System.Sessions.{
  Tokens, leave, is_active_of, account_of, find_live_token, refreshed_payload, login_system_user,
  refresh_system_access_token, logout_system_account, logout_system_account_web,
  logout_all_system_accounts,
}
use vms_backend_testing.System.Exclusive.Login.{UniqueId}

-- The requests that end the session of an account.
pub data Ending : Type 0 where
  by_tablet with_organization : Ident → Role → Ending
  by_superadmin all_by_superadmin deletion : Ident → Ident → Role → Ending

unfoldable pub end_session : Ident → Ending → Action Db Unit
end_session id (by_tablet org_id role) db = logout_system_account org_id id role db
end_session id (with_organization org_id role) db = delete_organization org_id role db
end_session id (by_superadmin org_id user_id role) db =
    logout_system_account_web id org_id user_id role db
end_session id (all_by_superadmin org_id user_id role) db =
    logout_all_system_accounts org_id role user_id db
end_session id (deletion org_id user_id role) db = delete_system_account id org_id user_id role db

-- It reaches the account: an organisation's accounts are logged out, or deleted, together.
abbrev pub reaches : Ending → SystemCredential → Bool
reaches (all_by_superadmin org_id user_id role) s = s.org_id == org_id
reaches (with_organization org_id role) s = s.org_id == org_id
reaches _ s = true

out_after_leave :
    (id session : Ident) (systems : List SystemCredential)
    → in_session
        (find_first (λ s. s.id == id) (update (λ s. s.id == id) leave systems))
        (some session)
      ≡ false
out_after_leave id session [] = refl
out_after_leave id session (s ∷ systems) = ground (arith, out_after_leave id session systems)

out_after_leave_all :
    (id org_id session : Ident) (s : SystemCredential) (systems : List SystemCredential)
    → find_first (λ x. x.id == id) systems ≡ some s
    → (s.org_id == org_id) ≡ true
    → in_session
        (find_first (λ x. x.id == id) (update_many (is_active_of org_id) leave systems))
        (some session)
      ≡ false
out_after_leave_all id org_id session s [] e o = refl
out_after_leave_all id org_id session s (x ∷ systems) e o =
    ground (arith, out_after_leave_all id org_id session s systems)

none_of_count :
    (id session : Ident) (systems : List SystemCredential)
    → count (λ s. s.id == id) systems ≤ 0
    → in_session (find_first (λ s. s.id == id) systems) (some session) ≡ false
none_of_count id session [] u = refl
none_of_count id session (s ∷ systems) u = ground (arith, none_of_count id session systems)

out_after_delete :
    (id session : Ident) (systems : List SystemCredential)
    → count (λ s. s.id == id) systems ≤ 1
    → in_session (find_first (λ s. s.id == id) (delete (λ s. s.id == id) systems)) (some session)
      ≡ false
out_after_delete id session [] u = refl
out_after_delete id session (s ∷ systems) u =
    ground (arith, out_after_delete id session systems, none_of_count id session systems)

out_after_delete_org :
    (id org_id session : Ident) (s : SystemCredential) (systems : List SystemCredential)
    → count (λ x. x.id == id) systems ≤ 1
    → find_first (λ x. x.id == id) systems ≡ some s
    → (s.org_id == org_id) ≡ true
    → in_session
        (find_first (λ x. x.id == id) (delete_many (λ x. x.org_id == org_id) systems))
        (some session)
      ≡ false
out_after_delete_org id org_id session s [] u e o = refl
out_after_delete_org id org_id session s (x ∷ systems) u e o = ground (
  arith,
  out_after_delete_org id org_id session s systems,
  none_of_count id session (delete_many (λ x. x.org_id == org_id) systems),
  count-delete_many-le (λ x. x.id == id) (λ x. x.org_id == org_id) systems,
)

out_of_session :
    (id session : Ident) (e : Ending) (s : SystemCredential) (db : Db)
    → UniqueId id db
    → find_account id db ≡ some s
    → reaches e s ≡ true
    → is_ok (end_session id e db).0 ≡ true
    → in_session (find_account id (end_session id e db).1) (some session) ≡ false
unfolding end_session logout_system_account logout_system_account_web logout_all_system_accounts
    delete_system_account delete_organization
out_of_session id session (by_tablet org_id role) s db u f r h =
    ground (arith, out_after_leave id session db.systems)
out_of_session id session (with_organization org_id role) s db u f r h =
    ground (arith, out_after_delete_org id org_id session s db.systems)
out_of_session id session (by_superadmin org_id user_id role) s db u f r h =
    ground (arith, out_after_leave id session db.systems)
out_of_session id session (all_by_superadmin org_id user_id role) s db u f r h =
    ground (arith, out_after_leave_all id org_id session s db.systems)
out_of_session id session (deletion org_id user_id role) s db u f r h =
    ground (arith, out_after_delete id session db.systems)

no_session : (o : Option SystemCredential) → in_session o none ≡ false
no_session none = refl
no_session (some s) = ground arith

-- Whichever way the session of an account is ended, if the request is accepted and reaches the
-- account, then afterwards the guard refuses every token of the account, whatever session it names.
-- The identifier of the account stands in one row only.
pub end_session-revokes :
    (verify : Text → Verified) (header token : Text) (p : JwtPayload) (id : Ident) (e : Ending)
    (s : SystemCredential) (db : Db)
    → UniqueId id db
    → find_account id db ≡ some s
    → reaches e s ≡ true
    → is_ok (end_session id e db).0 ≡ true
    → extract_token_from_header (some header) ≡ some token
    → verify token ≡ valid p
    → present p.system_id ≡ some id
    → is_ok (can_activate verify (some header) (end_session id e db).1.systems) ≡ false
end_session-revokes verify header token p id e s db u f r h x v i =
    system_guard_iff verify header token p id (end_session id e db).1.systems x v i
    ∙ out p.session_id
  where
    out :
        (session : Option Ident)
        → in_session (find_system id (end_session id e db).1.systems) session ≡ false
    out none = no_session (find_system id (end_session id e db).1.systems)
    out (some j) = out_of_session id j e s db u f r h

-- An account that is logged in is never out of reach, if its organisation exists and has a superadmin
-- and the identifier of the account is its own: the request of the superadmin to log it out is
-- accepted, and then its password lets the next tablet in.
pub release_then_login :
    (env : Env) (email password : Text) (s : SystemCredential) (o : Organization)
    (user : UserCredential) (db : Db)
    → UniqueId s.id db
    → find_account_by_email (normalize email) db ≡ some s
    → is_logged_in s.activity_status ≡ true
    → find_organization s.org_id db ≡ some o
    → find_user user.id db ≡ some user
    → is_ident user.org_id s.org_id ≡ true
    → env.compare password s.password ≡ true
    → let released = logout_system_account_web s.id s.org_id user.id super_admin db in
      (is_ok released.0 ≡ true) × (is_ok (login_system_user env email password released.1).0 ≡ true)
unfolding logout_system_account_web login_system_user
release_then_login env email password s o user db u e i fo fu m c =
    let first : find_account s.id db ≡ some s =
      find_first_of_unique (λ x. text_eq x.email (normalize email)) (λ x. x.id == s.id) s db.systems
        u e (==-refl s.id) in
    ground (
      arith,
      first,
      find_first-update (λ x. text_eq x.email (normalize email)) (λ x. x.id == s.id) leave s
          db.systems e first (λ x. refl),
    )

refused_payload :
    (verify : Text → Verified) (token : Text) (account : Option SystemCredential)
    (systems : List SystemCredential)
    → has_no_space token ≡ true
    → token ≢ []
    → verify token ≡ valid (refreshed_payload account)
    → is_ok (can_activate verify (some (bearer token)) systems) ≡ false
unfolding can_activate read_payload check_session
refused_payload verify token none systems w f v = ground (arith, extract-bearer token w f)
refused_payload verify token (some s) systems w f v = ground (arith, extract-bearer token w f)

-- The access token that a refresh answers never passes the guard, whatever the state of the
-- accounts: it names no session. It is supposed that the token verifies as it was signed, is not
-- empty and has no space in it.
pub refreshed-refused :
    (env : Env) (verify : Text → Verified) (token : Ident) (tokens : Tokens)
    (systems : List SystemCredential) (db : Db)
    → ((p : JwtPayload) → verify (env.sign p) ≡ valid p)
    → has_no_space tokens.0 ≡ true
    → tokens.0 ≢ []
    → (refresh_system_access_token env token db).0 ≡ ok tokens
    → is_ok (can_activate verify (some (bearer tokens.0)) systems) ≡ false
unfolding refresh_system_access_token
refreshed-refused env verify token tokens systems db v w f h =
    elim (Option-cases (find_live_token token env.now db)) [
      | inl n ↦ absurd (ground arith)
      | inr (row, e) ↦
          let signed : tokens.0 ≡ env.sign (refreshed_payload (account_of row.system_id db)) =
            ground arith in
          refused_payload verify tokens.0 (account_of row.system_id db) systems w f
            (ap verify signed ∙ v (refreshed_payload (account_of row.system_id db)))
    ]
