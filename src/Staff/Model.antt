-- ===== src/Staff/Model.antt =====
-- The tables of prisma/schema.prisma that the service of staff reads and writes, with the columns that
-- it uses, and what its requests share.
use vms_backend_testing.Base.{
  ℕ, Bool, true, false, Option, none, some, List, ◌==◌, if◌then◌else◌, Ident, present,
}
use vms_backend_testing.Base.Text.{Text}
use vms_backend_testing.Base.Request.{Action, bad_request, not_found, ◌>>=◌, gets, or_throw}
use vms_backend_testing.Base.Role.{Role}
use vms_backend_testing.Base.Table.{find_first}
use vms_backend_testing.Hours.{WorkingHours}
use vms_backend_testing.Auth.Model.{Hash, UserCredential}
use vms_backend_testing.Attendance.Model.{Event, Session}

pub record Organization : Type 0 where
  pub id : Ident
  pub name : Text

pub record Department : Type 0 where
  pub id : Ident
  pub org_id : Ident
  pub name : Text

-- Its role is SuperAdmin, Admin or Staff.
pub record Staff : Type 0 where
  pub id : Ident
  pub org_id : Ident
  pub user_id : Option Ident
  pub name : Text
  pub email : Text
  pub designation : Text
  pub department_id : Option Ident
  pub role : Role
  pub employee_code : Option Text

-- A mail registers a member of the staff: the address and the one-time password.
pub record Db : Type 0 where
  pub organizations : List Organization
  pub departments : List Department
  pub users : List UserCredential
  pub staff : List Staff
  pub working_hours : List WorkingHours
  pub events : List Event
  pub sessions : List Session
  pub mails : List (Text × Text)

-- A request's own inputs: the identifiers that the database makes, bcrypt, what the mail server does,
-- dayjs's start of today and of tomorrow in Asia/Kolkata, and what Math.random gives: to the k-th
-- employee code the numbers below 9000 that its loop draws, to the k-th one-time password a number
-- below 900.
pub record Env : Type 0 where
  pub uuid : ℕ → Ident
  pub hash : Text → Hash
  pub mail_works : Bool
  pub start_of_today : ℕ
  pub start_of_tomorrow : ℕ
  pub draws : ℕ → List ℕ
  pub digits : ℕ → ℕ

abbrev pub find_organization : Ident → Db → Option Organization
find_organization id db = find_first (λ o. o.id == id) db.organizations

abbrev pub find_staff : Ident → Db → Option Staff
find_staff id db = find_first (λ s. s.id == id) db.staff

-- `qOrgId` of the callers that may choose an organisation, else that of the token
abbrev pub chosen : Bool → Option Ident → Option Ident → Option Ident
chosen true (some q) org = if q == 0 then present org else some q
chosen true none org = present org
chosen false q org = present org

unfoldable pub target_organization : Bool → Option Ident → Option Ident → Action Db Organization
target_organization may_choose q_org_id org_id = do
  target ← or_throw (chosen may_choose q_org_id org_id) (bad_request "Organization ID is required.")
  found ← gets (find_organization target)
  or_throw found (not_found "Organization doesn't exist.")
