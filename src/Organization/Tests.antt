-- ===== src/Organization/Tests.antt =====
-- An organisation with one system account, and runs of its services on it with toy versions of bcrypt,
-- the cipher and the JWT library.
use vms_backend_testing.Base.{
  ℕ, ◌+◌, ◌-◌, ◌<◌, true, false, Option, none, some, List, [], ◌∷◌, ◌==◌, ◌&&◌, ◌≡◌, refl, arith,
}
use vms_backend_testing.Base.Text.{Text}
use vms_backend_testing.Base.Role.{root, super_admin}
use vms_backend_testing.Base.Table.{any}
use vms_backend_testing.Plan.{Plan, monthly, expired}
use vms_backend_testing.Auth.Model.{UserCredential, AccountStatus}
use vms_backend_testing.Auth.Guard.{
  SystemCredential, LoginStatus, JwtPayload, Verified, valid, malformed,
}
use vms_backend_testing.Auth.Tests.{
  toy_hash, toy_compare, role_code, role_at, org_code, org_at, org_at_code, role_at_code,
}
use vms_backend_testing.Organization.Manage.{EditOrganizationDto}
use vms_backend_testing.Organization.Model.{Organization, Db, Env}
use vms_backend_testing.Organization.Subscriptions.{
  UpdateSubscriptionDto, find_subscription, update_subscription,
}
use vms_backend_testing.Organization.Subscriptions.Renewal.{update_subscription-stored}
use vms_backend_testing.Organization.Requests.{Request, register, login, run}
use vms_backend_testing.Organization.Limits.{Within}
use vms_backend_testing.Organization.Limits.Runs.{run-Within}
use vms_backend_testing.System.Accounts.{RegisterSystemUserDto}

abbrev pub toy_sign : JwtPayload → Text
toy_sign p =
    org_code p.org_id
    ∷ org_code p.user_id
    ∷ role_code p.role
    ∷ org_code p.system_id
    ∷ org_code p.session_id
    ∷ []

abbrev pub toy_verify : Text → Verified
toy_verify (o ∷ u ∷ r ∷ s ∷ i ∷ []) = valid (record {
  org_id = org_at (o - 100);
  user_id = org_at (u - 100);
  role = role_at r;
  system_id = org_at (s - 100);
  session_id = org_at (i - 100);
})
toy_verify _ = malformed

pub toy_verify_sign : (p : JwtPayload) → toy_verify (toy_sign p) ≡ valid p
toy_verify_sign p = rw (
  org_at_code p.org_id,
  org_at_code p.user_id,
  role_at_code p.role,
  org_at_code p.system_id,
  org_at_code p.session_id,
)

abbrev pub toy_decrypt : Text → Text → Option Text
toy_decrypt [] key = none
toy_decrypt (c ∷ t) key = some t

abbrev pub env_at : ℕ → ℕ → Env
env_at now base = record {
  now = now;
  uuid = λ i. base + i;
  hash = toy_hash;
  compare = toy_compare;
  otp = b'1' ∷ b'2' ∷ [];
  sign = toy_sign;
  mail_works = true;
  encrypt = λ t key. 1 ∷ t;
  decrypt = toy_decrypt;
  encryption_key = some (b'k' ∷ []);
  upload = none;
}

abbrev pub door : Text
door = b'd' ∷ b'@' ∷ b'x' ∷ []

abbrev pub old_password : Text
old_password = b'o' ∷ b'l' ∷ b'd' ∷ []

abbrev pub acme : Organization
acme = record {
  id = 1;
  logo = none;
  name = b'A' ∷ [];
  email = b'a' ∷ [];
  address = [];
  contact_number = [];
  contact_person = [];
  gst = none;
  account_limit = 1;
  setting_code_encrypted = none;
  timezone = none;
}

abbrev pub boss : UserCredential
boss = record {
  id = 5;
  org_id = some 1;
  email = b'b' ∷ [];
  password = 0;
  role = super_admin;
  first_time_login = false;
  account_status = AccountStatus.active;
}

abbrev the_root : UserCredential
the_root = record boss { id = 4; org_id = none; role = root }

abbrev pub tablet : SystemCredential
tablet = record {
  id = 9;
  org_id = 1;
  email = door;
  password = toy_hash old_password;
  secret_code = none;
  activity_status = LoginStatus.logged_out;
  session_id = none;
}

abbrev basic : Plan
basic = record {
  id = 7;
  code = [];
  name = [];
  billing_cycle = monthly;
  price = 9;
  is_active = true;
  description = none;
}

abbrev pub small : Db
small = record {
  organizations = acme ∷ [];
  users = boss ∷ the_root ∷ [];
  systems = tablet ∷ [];
  refresh_tokens = [];
  reset_tokens = [];
  plans = basic ∷ [];
  features = [];
  subscriptions =
      record { org_id = 1; plan_id = 3; status = expired; starts_at = 0; ends_at = 10 } ∷ [];
  working_hours = [];
  mails = [];
}

abbrev second_tablet : RegisterSystemUserDto
second_tablet = record { email = b'e' ∷ []; password = []; secret_code = [] }

abbrev attempts : List (Env × Request)
attempts =
    (env_at 100 20, login door old_password)
    ∷ (env_at 110 30, register 1 5 super_admin second_tablet)
    ∷ []

-- The second account is refused.
run-Within_example : Within 1 (run attempts small)
run-Within_example = run-Within attempts 1 small (omega arith)

abbrev renewal : UpdateSubscriptionDto
renewal = record { plan_id = 7; starts_at = some 20; ends_at = some 30 }

-- The subscription stays EXPIRED.
update_subscription-stored_example :
    let db' = (update_subscription 4 root 1 renewal small).1 in
    (20 < 30)
    × (any (λ p. p.id == 7 && p.is_active) small.plans ≡ true)
    × (find_subscription 1 db'
        ≡ some (record { org_id = 1; plan_id = 7; status = expired; starts_at = 20; ends_at = 30 }))
    × (find_subscription 2 db' ≡ none)
unfolding update_subscription
update_subscription-stored_example =
    update_subscription-stored 4 root 1 renewal 20 30 2 small refl refl refl (ground arith)

abbrev pub an_edit : EditOrganizationDto
an_edit = record {
  name = none;
  email = none;
  timezone = [];
  address = none;
  contact_number = none;
  contact_person = none;
  gst = none;
  setting_code = some (b'4' ∷ b'2' ∷ []);
  account_limit = some 9;
  working_hours = none;
}
