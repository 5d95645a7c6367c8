-- ===== src/Auth/Guard.antt =====
-- src/guard: `AuthGuard`, which reads the token of a request, and `UserRoleGuard`.
pub mod Sessions
use vms_backend_testing.Base.{
  Bool, true, false, not, ◌&&◌, ◌||◌, Option, none, some, List, [], ◌∷◌, ◌==◌, if◌then◌else◌, Ident,
  present,
}
use vms_backend_testing.Base.Text.{Text}
use vms_backend_testing.Base.Request.{
  Action, Exception, Result, ok, err, unauthorized, forbidden, ◌>>=◌, ◌>>◌, pure, gets, or_throw,
  throw, throw_if,
}
use vms_backend_testing.Base.Role.{Role, role_eq}
use vms_backend_testing.Base.Table.{any, find_first}
use vms_backend_testing.Auth.Model.{Hash, UserCredential}

pub data LoginStatus : Type 0 where
  logged_in logged_out : LoginStatus

pub record SystemCredential : Type 0 where
  pub id : Ident
  pub org_id : Ident
  pub email : Text
  pub password : Hash
  pub secret_code : Option Text
  pub activity_status : LoginStatus
  pub session_id : Option Ident

pub record JwtPayload : Type 0 where
  pub org_id : Option Ident
  pub user_id : Option Ident
  pub role : Role
  pub system_id : Option Ident
  pub session_id : Option Ident

-- What the JWT library makes of a token.
pub data Verified : Type 0 where
  valid : JwtPayload → Verified
  expired malformed : Verified

-- The fields that the guard adds to the request.
pub record Authenticated : Type 0 where
  pub org_id : Option Ident
  pub role : Role
  pub user_id : Option Ident
  pub system_id : Option Ident
  pub session_id : Option Ident

abbrev space : Ident
space = 32

abbrev onto_head : Ident → List Text → List Text
onto_head c [] = (c ∷ []) ∷ []
onto_head c (w ∷ ws) = (c ∷ w) ∷ ws

-- `split(' ')`
unfoldable pub split : Text → List Text
split [] = [] ∷ []
split (c ∷ s) = let rest = split s in if c == space then [] ∷ rest else onto_head c rest

-- `[1]` of the words, where it is not empty
abbrev pub second : List Text → Option Text
second (w ∷ (c ∷ v) ∷ ws) = some (c ∷ v)
second _ = none

unfoldable pub extract_token_from_header : Option Text → Option Text
extract_token_from_header none = none
extract_token_from_header (some header) = second (split header)

abbrev pub is_logged_in : LoginStatus → Bool
is_logged_in logged_in = true
is_logged_in logged_out = false

abbrev pub same_session : Option Ident → Option Ident → Bool
same_session (some a) (some b) = a == b
same_session _ _ = false

abbrev pub find_system : Ident → List SystemCredential → Option SystemCredential
find_system id systems = find_first (λ s. s.id == id) systems

-- The checks of a token of a system account.
unfoldable pub check_session : Ident → Option Ident → Action (List SystemCredential) Unit
check_session id session = do
  found ← gets (find_system id)
  system ← or_throw found (unauthorized "System user not found")
  throw_if (not (is_logged_in system.activity_status)) (unauthorized "User is logged out.")
  throw_if (not (same_session (present system.session_id) (present session)))
      (unauthorized "Session is no longer valid. Please log in again.")

check_system : Option Ident → Option Ident → Action (List SystemCredential) Unit
unfolding check_session
check_system none session = pure tt
check_system (some id) session = check_session id session

abbrev is_none : Option Ident → Bool
is_none none = true
is_none (some i) = false

-- The body of the `try`.
unfoldable pub read_payload : JwtPayload → Action (List SystemCredential) Authenticated
unfolding check_system
read_payload p = do
  check_system (present p.system_id) p.session_id
  throw_if (is_none (present p.system_id) && is_none (present p.user_id))
      (unauthorized "Invalid token payload!")
  pure (record {
    org_id = p.org_id;
    role = p.role;
    user_id = present p.user_id;
    system_id = present p.system_id;
    session_id = if is_none (present p.system_id) then none else p.session_id;
  })

-- The `catch`, which gives each of its own exceptions another message.
abbrev caught : {A : Type 0} → Result A → Result A
caught (ok a) = ok a
caught (err e) = err (unauthorized "Invalid token!")

abbrev verified : Verified → List SystemCredential → Result Authenticated
verified (valid p) systems = caught (read_payload p systems).0
verified expired systems = err (unauthorized "Token expired!")
verified malformed systems = err (unauthorized "Invalid token!")

abbrev with_token : (Text → Verified) → Option Text → List SystemCredential → Result Authenticated
with_token verify none systems = err (unauthorized "Invalid token!")
with_token verify (some token) systems = verified (verify token) systems

unfoldable pub can_activate :
    (Text → Verified) → Option Text → List SystemCredential → Result Authenticated
can_activate verify header systems = with_token verify (extract_token_from_header header) systems

-- `UserRoleGuard`, for a required role and the user that the request carries.
unfoldable pub has_required_role : Option Role → Option Ident → Action (List UserCredential) Unit
has_required_role none user = pure tt
has_required_role (some required) user = do
  id ← or_throw (present user) (unauthorized "User not authenticated")
  found ← gets (λ users. any (λ u. u.id == id && role_eq u.role required) users)
  throw_if (not found) (forbidden "User doesn't have required role")
