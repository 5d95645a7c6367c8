-- ===== src/Auth/Model.antt =====
-- The tables of prisma/schema.prisma that authentication reads and writes, with the columns that it
-- uses.
use vms_backend_testing.Base.{ℕ, ◌*◌, Bool, true, false, Option, List, ◌==◌, Ident}
use vms_backend_testing.Base.Text.{Text, text_eq}
use vms_backend_testing.Base.Role.{Role}
use vms_backend_testing.Base.Table.{find_first}

-- A hash of bcrypt.
abbrev pub Hash : Type 0
Hash = ℕ

pub data AccountStatus : Type 0 where
  active disabled : AccountStatus

pub record UserCredential : Type 0 where
  pub id : Ident
  pub org_id : Option Ident
  pub email : Text
  pub password : Hash
  pub role : Role
  pub first_time_login : Bool
  pub account_status : AccountStatus

pub record RefreshToken : Type 0 where
  pub id : Ident
  pub token : Ident
  pub user_id : Option Ident
  pub system_id : Option Ident
  pub expiry_date : ℕ

pub record ResetToken : Type 0 where
  pub id : Ident
  pub token : Hash
  pub user_id : Ident

-- The mails are one-time passwords with their addresses.
pub record Db : Type 0 where
  pub users : List UserCredential
  pub refresh_tokens : List RefreshToken
  pub reset_tokens : List ResetToken
  pub mails : List (Text × Text)

-- What an access token says.
pub record Claims : Type 0 where
  pub user_id : Ident
  pub org_id : Option Ident
  pub role : Role

-- A request's own inputs: the clock, new identifiers, bcrypt with the salt that it draws, the
-- one-time password that is generated, the signature of access tokens, and the mail server.
pub record Env : Type 0 where
  pub now : ℕ
  pub uuid : ℕ → Ident
  pub hash : Text → Hash
  pub compare : Text → Hash → Bool
  pub otp : Text
  pub sign : Claims → Text
  pub mail_works : Bool

abbrev pub is_disabled : AccountStatus → Bool
is_disabled active = false
is_disabled disabled = true

abbrev pub find_user : Ident → Db → Option UserCredential
find_user id db = find_first (λ u. u.id == id) db.users

abbrev pub find_by_email : Text → Db → Option UserCredential
find_by_email email db = find_first (λ u. text_eq u.email email) db.users

-- 30 days, in milliseconds
abbrev pub refresh_lifetime : ℕ
refresh_lifetime = 30 * 24 * 60 * 60 * 1000
