-- ===== src/Auth/Guard/Sessions.antt =====
-- Whom the guard lets pass: the owners of tokens that a login has issued, and the system accounts
-- of the session that their token names.
use vms_backend_testing.Base.{
  Bool, true, false, not, ◌&&◌, Option, none, some, List, [], ◌∷◌, ◌==◌, Ident, present, ◌≡◌, refl,
  ◌≢◌, ◌⊎◌, inl, inr, Option-cases, arith,
}
use vms_backend_testing.Base.Text.{Text}
use vms_backend_testing.Base.Request.{Exception, ok, err, unauthorized, is_ok}
use vms_backend_testing.Base.Role.{Role}
use vms_backend_testing.Auth.Model.{UserCredential, Claims, Db, Env, find_by_email}
use vms_backend_testing.Auth.Login.{
  logged_in, claims_of, provided, issue, replace_password, first_login, later_login, login_user,
}
use vms_backend_testing.Auth.Login.Effects.{UserIds, found_by_id, find_user-first_time}
use vms_backend_testing.Auth.Guard.{
  SystemCredential, is_logged_in, JwtPayload, Verified, valid, Authenticated, split,
  extract_token_from_header, same_session, find_system, check_session, read_payload, can_activate,
}

abbrev pub has_no_space : Text → Bool
has_no_space [] = true
has_no_space (c ∷ s) = not (c == 32) && has_no_space s

abbrev pub bearer : Text → Text
bearer token = b'B' ∷ b'e' ∷ b'a' ∷ b'r' ∷ b'e' ∷ b'r' ∷ b' ' ∷ token

split_word : (s : Text) → has_no_space s ≡ true → split s ≡ s ∷ []
unfolding split
split_word [] h = refl
split_word (c ∷ s) h = ground (arith, split_word s)

pub extract-bearer :
    (token : Text)
    → has_no_space token ≡ true
    → token ≢ []
    → extract_token_from_header (some (bearer token)) ≡ some token
unfolding extract_token_from_header split
extract-bearer [] h n = absurd (n refl)
extract-bearer (c ∷ s) h n = ground (arith, split_word (c ∷ s) h)

abbrev pub payload_of : Claims → JwtPayload
payload_of c = record {
  org_id = c.org_id;
  user_id = some c.user_id;
  role = c.role;
  system_id = none;
  session_id = none;
}

abbrev pub identity_of : UserCredential → Authenticated
identity_of u = record {
  org_id = u.org_id;
  role = u.role;
  user_id = some u.id;
  system_id = none;
  session_id = none;
}

login-access :
    (env : Env) (email password : Text) (new : Option Text) (user : UserCredential) (access : Text)
    (refresh : Ident) (role : Role) (db : Db)
    → UserIds db
    → find_by_email email db ≡ some user
    → (login_user env email password new db).0 ≡ ok (logged_in access refresh role)
    → access ≡ env.sign (claims_of user)
unfolding login_user first_login later_login replace_password issue
login-access env email password new user access refresh role db ids e h =
    elim (Option-cases (provided new)) [
      | inl none_given ↦ ground arith
      | inr (p, given) ↦
          ground
            (arith, find_user-first_time user (env.hash p) db (found_by_id email user db ids e))
    ]

-- Whoever logs in passes the guard with the access token in the header, as the user, in the
-- organisation and with the role of the account. It is supposed that what is signed verifies as
-- it was signed, that a signed token is not empty and has no space in it, that the identifiers of
-- users are unique, and that of the user is not empty.
pub login_then_guard :
    (env : Env) (verify : Text → Verified) (email password : Text) (new : Option Text)
    (user : UserCredential) (access : Text) (refresh : Ident) (role : Role) (db : Db)
    (systems : List SystemCredential)
    → ((c : Claims) → verify (env.sign c) ≡ valid (payload_of c))
    → ((c : Claims) → has_no_space (env.sign c) ≡ true)
    → ((c : Claims) → env.sign c ≢ [])
    → UserIds db
    → user.id ≢ 0
    → find_by_email email db ≡ some user
    → (login_user env email password new db).0 ≡ ok (logged_in access refresh role)
    → can_activate verify (some (bearer access)) systems ≡ ok (identity_of user)
unfolding can_activate read_payload
login_then_guard env verify email password new user access refresh role db systems signed spaces
      filled ids id e h =
    let same = login-access env email password new user access refresh role db ids e h in
    let token = env.sign (claims_of user) in
    ground (
      arith,
      same,
      signed (claims_of user),
      extract-bearer token (spaces (claims_of user)) (filled (claims_of user)),
    )

abbrev pub in_session : Option SystemCredential → Option Ident → Bool
in_session none session = false
in_session (some s) session =
    is_logged_in s.activity_status && same_session (present s.session_id) (present session)

-- A valid token of a system account passes exactly when the account exists, is logged in, and
-- has the session that the token names.
pub system_guard_iff :
    (verify : Text → Verified) (header token : Text) (p : JwtPayload) (id : Ident)
    (systems : List SystemCredential)
    → extract_token_from_header (some header) ≡ some token
    → verify token ≡ valid p
    → present p.system_id ≡ some id
    → is_ok (can_activate verify (some header) systems)
      ≡ in_session (find_system id systems) p.session_id
unfolding can_activate read_payload check_session
system_guard_iff verify header token p id systems e v s = ground arith

-- Whatever the reason, a refusal says that the token is invalid or that it has expired.
pub can_activate_refusals :
    (verify : Text → Verified) (header : Option Text) (systems : List SystemCredential)
    (e : Exception)
    → can_activate verify header systems ≡ err e
    → (e ≡ unauthorized "Invalid token!") ⊎ (e ≡ unauthorized "Token expired!")
unfolding can_activate
can_activate_refusals verify header systems e h = ground arith
