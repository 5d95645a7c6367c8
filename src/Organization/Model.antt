-- ===== src/Organization/Model.antt =====
-- The tables of prisma/schema.prisma that the services of organisations and of system accounts read
-- and write, with the columns that these use.
use vms_backend_testing.Base.{ℕ, Bool, Option, List, ◌==◌, Ident}
use vms_backend_testing.Base.Text.{Text, text_eq}
use vms_backend_testing.Base.Table.{find_first}
use vms_backend_testing.Hours.{WorkingHours}
use vms_backend_testing.Plan.{Plan, PlanFeature, SubscriptionStatus}
use vms_backend_testing.Auth.Model.{Hash, UserCredential, RefreshToken}
use vms_backend_testing.Auth.Guard.{SystemCredential, JwtPayload}

pub record Organization : Type 0 where
  pub id : Ident
  pub logo : Option Text
  pub name : Text
  pub email : Text
  pub address : Text
  pub contact_number : Text
  pub contact_person : Text
  pub gst : Option Text
  pub account_limit : ℕ
  pub setting_code_encrypted : Option Text
  pub timezone : Option Text

pub record ResetTokenSystem : Type 0 where
  pub id : Ident
  pub token : Hash
  pub system_id : Ident

pub record Subscription : Type 0 where
  pub org_id : Ident
  pub plan_id : Ident
  pub status : SubscriptionStatus
  pub starts_at : ℕ
  pub ends_at : ℕ

-- A mail to a system account holds a one-time password, one to an organisation welcomes it.
pub data Mail : Type 0 where
  forgot_password_otp : Text → Text → Mail
  organization_registration : Text → Mail

pub record Db : Type 0 where
  pub organizations : List Organization
  pub users : List UserCredential
  pub systems : List SystemCredential
  pub refresh_tokens : List RefreshToken
  pub reset_tokens : List ResetTokenSystem
  pub plans : List Plan
  pub features : List PlanFeature
  pub subscriptions : List Subscription
  pub working_hours : List WorkingHours
  pub mails : List Mail

-- A request's own inputs: the clock, new identifiers, bcrypt, the one-time password that is
-- generated, the signature of access tokens, the mail server, the cipher with the vector that it
-- draws, its key (ENCRYPTION_KEY of the environment), and what the store of images makes of the logo.
pub record Env : Type 0 where
  pub now : ℕ
  pub uuid : ℕ → Ident
  pub hash : Text → Hash
  pub compare : Text → Hash → Bool
  pub otp : Text
  pub sign : JwtPayload → Text
  pub mail_works : Bool
  pub encrypt : Text → Text → Text
  pub decrypt : Text → Text → Option Text
  pub encryption_key : Option Text
  pub upload : Option Text

abbrev pub find_organization : Ident → Db → Option Organization
find_organization id db = find_first (λ o. o.id == id) db.organizations

abbrev pub find_user : Ident → Db → Option UserCredential
find_user id db = find_first (λ u. u.id == id) db.users

abbrev pub find_account : Ident → Db → Option SystemCredential
find_account id db = find_first (λ s. s.id == id) db.systems

abbrev pub find_account_by_email : Text → Db → Option SystemCredential
find_account_by_email email db = find_first (λ s. text_eq s.email email) db.systems
