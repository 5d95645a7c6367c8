-- ===== src/System/Exclusive/Login.antt =====
-- One tablet at a time is logged in to a system account.
use vms_backend_testing.Base.{
  ◌≤◌, true, false, some, List, [], ◌∷◌, ◌==◌, Ident, ◌≡◌, refl, ◌∙◌, ◌≢◌, ==-refl, Option-cases,
  inl, inr, arith,
}
use vms_backend_testing.Base.Text.{Text, text_eq, normalize}
use vms_backend_testing.Base.Request.{ok, is_ok}
use vms_backend_testing.Base.Table.{All, count, any, find_first, update}
use vms_backend_testing.Base.Table.Any.{
  find_first-fails, any_of_find_first-none, any-update_same, any_of_find_first,
}
use vms_backend_testing.Base.Table.Counts.{find_first-holds, find_first_of_unique}
use vms_backend_testing.Auth.Guard.{SystemCredential, Verified, valid, find_system, can_activate}
use vms_backend_testing.Auth.Guard.Sessions.{
  in_session, system_guard_iff, has_no_space, bearer, extract-bearer,
}
use vms_backend_testing.Organization.Model.{Db, Env, find_account_by_email}
use vms_backend_testing.System.Sessions.{Tokens, enter, session_payload, login_system_user}
use vms_backend_testing.Organization.Requests.{Request, run}
use vms_backend_testing.System.Exclusive.{is_out, Held, spares, Held-run}

-- The identifier of an account stands in one row only.
abbrev pub UniqueId : Ident → Db → Type 0
UniqueId id db = count (λ s. s.id == id) db.systems ≤ 1

out_of_none :
    (id org_id session : Ident) (systems : List SystemCredential)
    → count (λ s. s.id == id) systems ≤ 0
    → any (is_out id org_id session) systems ≡ false
out_of_none id org_id session [] h = refl
out_of_none id org_id session (s ∷ systems) h =
    ground (arith, out_of_none id org_id session systems)

in_after_enter :
    (id session : Ident) (s : SystemCredential) (systems : List SystemCredential)
    → session ≢ 0
    → count (λ x. x.id == id) systems ≤ 1
    → find_first (λ x. x.id == id) systems ≡ some s
    → any (is_out id s.org_id session) (update (λ x. x.id == id) (enter session) systems) ≡ false
in_after_enter id session s [] n u e = refl
in_after_enter id session s (x ∷ systems) n u e =
    ground (arith, in_after_enter id session s systems n, out_of_none id s.org_id session systems)

Held-login :
    (env : Env) (email password : Text) (tokens : Tokens) (s : SystemCredential) (db : Db)
    → find_account_by_email (normalize email) db ≡ some s
    → UniqueId s.id db
    → env.uuid 0 ≢ 0
    → (login_system_user env email password db).0 ≡ ok tokens
    → Held s.id s.org_id (env.uuid 0) (login_system_user env email password db).1.systems
unfolding login_system_user
Held-login env email password tokens s db e u n h =
    let first : find_first (λ x. x.id == s.id) db.systems ≡ some s =
      find_first_of_unique (λ x. text_eq x.email (normalize email)) (λ x. x.id == s.id) s db.systems
        u e (==-refl s.id) in
    ground (
      arith,
      any-update_same (λ x. x.id == s.id) (λ x. x.id == s.id) (enter (env.uuid 0)) db.systems
          (λ x. refl),
      any_of_find_first (λ x. x.id == s.id) s db.systems first,
      in_after_enter s.id (env.uuid 0) s db.systems n u first,
    )

Held-in_session :
    (id org_id session : Ident) (systems : List SystemCredential)
    → Held id org_id session systems
    → in_session (find_system id systems) (some session) ≡ true
Held-in_session id org_id session systems h = elim (Option-cases (find_system id systems)) [
  | inl n ↦ absurd (ground (arith, any_of_find_first-none (λ s. s.id == id) systems n))
  | inr (s, e) ↦ ground (
    arith,
    find_first-fails (is_out id org_id session) (λ s. s.id == id) s systems e h.1,
    find_first-holds (λ s. s.id == id) systems e,
  )
]

refused :
    (env : Env) (email password : Text) (s : SystemCredential) (id org_id session : Ident) (db : Db)
    → Held id org_id session db.systems
    → find_account_by_email (normalize email) db ≡ some s
    → s.id ≡ id
    → is_ok (login_system_user env email password db).0 ≡ false
unfolding login_system_user
refused env email password s id org_id session db held e same = ground (
  arith,
  find_first-fails (is_out id org_id session) (λ x. text_eq x.email (normalize email)) s db.systems
      e held.1,
  ==-refl id,
)

-- The access token of a login passes the guard after any run of requests, of this account or of
-- others, that neither logs the account out nor deletes it or its organisation. It is supposed that
-- the token verifies as it was signed, is not empty and has no space in it, that the account's
-- identifier is its own, also among those that the run's database makes, and that it and the
-- identifier of the session are not empty.
pub login-lasts :
    (env : Env) (verify : Text → Verified) (email password : Text) (tokens : Tokens)
    (s : SystemCredential) (requests : List (Env × Request)) (db : Db)
    → find_account_by_email (normalize email) db ≡ some s
    → UniqueId s.id db
    → s.id ≢ 0
    → env.uuid 0 ≢ 0
    → verify tokens.0 ≡ valid (session_payload s (env.uuid 0))
    → has_no_space tokens.0 ≡ true
    → tokens.0 ≢ []
    → (login_system_user env email password db).0 ≡ ok tokens
    → All (λ r. spares s.id s.org_id r ≡ true) requests
    → is_ok (
        can_activate verify
          (some (bearer tokens.0))
          (run requests (login_system_user env email password db).1).systems)
      ≡ true
login-lasts env verify email password tokens s requests db e u i n v w f h k =
    let held =
      Held-run s.id s.org_id (env.uuid 0) requests (login_system_user env email password db).1 k
        (Held-login env email password tokens s db e u n h) in
    system_guard_iff verify (bearer tokens.0) tokens.0 (session_payload s (env.uuid 0)) s.id
      (run requests (login_system_user env email password db).1).systems
      (extract-bearer tokens.0 w f) v (ground arith)
    ∙ Held-in_session s.id s.org_id (env.uuid 0)
        (run requests (login_system_user env email password db).1).systems held

-- After a login, and after any run of requests that neither log the account out nor delete it or its
-- organisation nor draw its identifier for a new account, no other login to the account is answered
-- with tokens. It is supposed that the identifier of the account is its own at first and that the
-- identifier drawn for the session is not empty.
pub login_exclusive :
    (env env' : Env) (email password email' password' : Text) (tokens : Tokens)
    (s s' : SystemCredential) (requests : List (Env × Request)) (db : Db)
    → find_account_by_email (normalize email) db ≡ some s
    → UniqueId s.id db
    → env.uuid 0 ≢ 0
    → (login_system_user env email password db).0 ≡ ok tokens
    → All (λ r. spares s.id s.org_id r ≡ true) requests
    → find_account_by_email
        (normalize email')
        (run requests (login_system_user env email password db).1)
      ≡ some s'
    → s'.id ≡ s.id
    → is_ok
        (login_system_user env' email' password'
          (run requests (login_system_user env email password db).1)).0
      ≡ false
login_exclusive env env' email password email' password' tokens s s' requests db e u n h k e' same =
    let held =
      Held-run s.id s.org_id (env.uuid 0) requests (login_system_user env email password db).1 k
        (Held-login env email password tokens s db e u n h) in
    refused env' email' password' s' s.id s.org_id (env.uuid 0)
      (run requests (login_system_user env email password db).1) held e' same
