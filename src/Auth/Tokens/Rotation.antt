-- ===== src/Auth/Tokens/Rotation.antt =====
-- A refresh token is used once, and not after a logout.
use vms_backend_testing.Base.{
  ◌≤◌, ◌+◌, Bool, true, false, Option, none, some, List, [], ◌∷◌, map, ◌==◌, Ident, present,
  is_ident, ◌≡◌, refl, ◌≢◌, Option-cases, inl, inr, ==→eq, ==-refl, arith,
}
use vms_backend_testing.Base.Request.{Result, ok, err, bad_request, is_ok}
use vms_backend_testing.Base.Role.{Role}
use vms_backend_testing.Base.Table.{count, any, find_first, delete_many}
use vms_backend_testing.Base.Table.Counts.{
  count-update, count-delete_many-le, find_first-holds, find_first_of_count_zero,
  find_first_of_unique,
}
use vms_backend_testing.Base.Table.Rows.{find_first-update_new}
use vms_backend_testing.Auth.Model.{
  UserCredential, AccountStatus, RefreshToken, Db, Env, refresh_lifetime,
}
use mathlib.Core.Option
use vms_backend_testing.Auth.Login.{claims_of}
use vms_backend_testing.Auth.Tokens.{
  Refreshed, find_token, rotate, rotate_row, refresh_access_token, revoke, logout,
}

-- No identifier and no token stands in two rows.
pub record TokenKeys (db : Db) : Type 0 where
  pub ids : (i : Ident) → count (λ r. r.id == i) db.refresh_tokens ≤ 1
  pub tokens : (t : Ident) → count (λ r. r.token == t) db.refresh_tokens ≤ 1

rotated-missing :
    (env : Env) (token : Ident) (row : RefreshToken) (db : Db)
    → TokenKeys db
    → find_token token db ≡ some row
    → env.uuid 0 ≢ token
    → find_token token (rotate_row env row.id db) ≡ none
rotated-missing env token row db keys e new =
    let fits : (row.token == token) ≡ true =
      find_first-holds (λ r. r.token == token) db.refresh_tokens e in
    let first : find_first (λ r. r.id == row.id) db.refresh_tokens ≡ some row =
      find_first_of_unique (λ r. r.token == token) (λ r. r.id == row.id) row db.refresh_tokens
        (keys.ids row.id) e (==-refl row.id) in
    find_first_of_count_zero (λ r. r.token == token) (rotate_row env row.id db).refresh_tokens
      (ground (
        arith,
        keys.tokens token,
        ==→eq (env.uuid 0) token,
        count-update (λ r. r.token == token) (λ r. r.id == row.id) (rotate env) row
            db.refresh_tokens first,
      ))

abbrev pub role_of : Result Refreshed → Option Role
role_of (ok r) = some r.new_role
role_of (err e) = none

pub refresh_rotates :
    (env env' : Env) (token : Ident) (r : Refreshed) (db : Db)
    → TokenKeys db
    → (refresh_access_token env token db).0 ≡ ok r
    → env.uuid 0 ≢ token
    → (refresh_access_token env' token (refresh_access_token env token db).1).0
      ≡ err (bad_request "Invalid refresh token.")
unfolding refresh_access_token
refresh_rotates env env' token r db keys h new = elim (Option-cases (find_token token db)) [
  | inl e ↦ ground arith
  | inr (row, e) ↦ ground (arith, rotated-missing env token row db keys e new)
]

-- The new token is accepted until it expires: if no row had it yet, then it is exchanged in its
-- turn, for the same role.
pub refresh_chain :
    (env env' : Env) (token : Ident) (r : Refreshed) (db : Db)
    → TokenKeys db
    → (refresh_access_token env token db).0 ≡ ok r
    → any (λ x. x.token == env.uuid 0) db.refresh_tokens ≡ false
    → env'.now ≤ env.now + refresh_lifetime
    → let r' =
        (refresh_access_token env' r.new_refresh_token (refresh_access_token env token db).1).0 in
      (is_ok r' ≡ true) × (role_of r' ≡ some r.new_role)
unfolding refresh_access_token
refresh_chain env env' token r db keys h new time = elim (Option-cases (find_token token db)) [
  | inl e ↦ absurd (ground arith)
  | inr (row, e) ↦
      let k : find_token (env.uuid 0) (rotate_row env row.id db) ≡ some (rotate env row) =
        find_first-update_new (λ x. x.token == env.uuid 0) (λ x. x.id == row.id) (rotate env) row
          db.refresh_tokens
          (find_first_of_unique (λ r. r.token == token) (λ r. r.id == row.id) row db.refresh_tokens
            (keys.ids row.id) e (==-refl row.id))
          new (==-refl (env.uuid 0)) in
      ground (arith, k)
]

any-delete_many_unique :
    {A : Type 0} (p q : A → Bool) (s : A) (xs : List A)
    → find_first p xs ≡ some s
    → count p xs ≤ 1
    → q s ≡ true
    → find_first p (delete_many q xs) ≡ none
any-delete_many_unique p q s [] h u e = refl
any-delete_many_unique p q s (x ∷ xs) h u e = ground (
  arith,
  any-delete_many_unique p q s xs,
  find_first_of_count_zero p (delete_many q xs),
  count-delete_many-le p q xs,
)

-- After a logout no refresh token of the user is accepted, if no token stands in two rows.
pub logout_revokes :
    (env : Env) (user : Ident) (role : Role) (token : Ident) (row : RefreshToken) (db : Db)
    → TokenKeys db
    → is_ok (logout user role db).0 ≡ true
    → find_token token db ≡ some row
    → is_ident row.user_id user ≡ true
    → (refresh_access_token env token (logout user role db).1).0
      ≡ err (bad_request "Invalid refresh token.")
unfolding refresh_access_token logout
logout_revokes env user role token row db keys good e own =
    let gone : find_token token (revoke user db) ≡ none =
      any-delete_many_unique (λ r. r.token == token) (λ r. is_ident r.user_id user) row
        db.refresh_tokens e (keys.tokens token) own in
    ground (arith, gone)

abbrev with_status : (UserCredential → AccountStatus) → UserCredential → UserCredential
with_status f u = record u { account_status = f u }

abbrev pub set_status : (UserCredential → AccountStatus) → Db → Db
set_status f db = record db { users = map (with_status f) db.users }

same_claims :
    (f : UserCredential → AccountStatus) (i : Ident) (us : List UserCredential)
    → Option.map claims_of (find_first (λ u. u.id == i) (map (with_status f) us))
      ≡ Option.map claims_of (find_first (λ u. u.id == i) us)
same_claims f i [] = refl
same_claims f i (u ∷ us) = ground (arith, same_claims f i us)

-- The status of the accounts does not matter for the exchange of a refresh token: with any other
-- statuses the answer is the same.
pub refresh_ignores_status :
    (env : Env) (token : Ident) (f : UserCredential → AccountStatus) (db : Db)
    → (refresh_access_token env token (set_status f db)).0 ≡ (refresh_access_token env token db).0
unfolding refresh_access_token
refresh_ignores_status env token f db = elim (Option-cases (find_token token db)) [
  | inl e ↦ ground arith
  | inr (row, e) ↦ elim (Option-cases (present row.user_id)) [
    | inl g ↦ ground arith
    | inr (i, g) ↦ ground (arith, same_claims f i db.users)
  ]
]
