-- ===== src/Staff/Tests.antt =====
-- Runs of the service of staff on small tables.
use vms_backend_testing.Base.{◌+◌, ◌≤◌, true, false, none, some, [], ◌∷◌, Ident, ◌≡◌, refl, arith}
use vms_backend_testing.Base.Text.{Text, text_eq, normalize, trim, is_space}
use vms_backend_testing.Base.Request.{is_ok}
use vms_backend_testing.Base.Role.{Role, super_admin, admin}
use vms_backend_testing.Auth.Model.{UserCredential, AccountStatus}
use vms_backend_testing.Auth.Model
use vms_backend_testing.Auth.Login.{login_user}
use vms_backend_testing.Auth.Login.Effects.{UserIds, is_logged_in}
use vms_backend_testing.Auth.Tests.{toy_hash, toy_compare, toy_compare_hash}
use vms_backend_testing.Staff.Model.{Organization, Staff, Db, Env, target_organization}
use vms_backend_testing.Staff.Codes.{
  is_taken, first_free, prefix_of, upper, generate_unique_employee_code, generate_one_time_password,
}
use vms_backend_testing.Staff.Codes.Termination.{generate_unique_employee_code-ends}
use vms_backend_testing.Staff.Add.{AddStaffMemberDto, add_staff_member, add_row, store_staff}
use vms_backend_testing.Staff.Edit.{
  EditStaffMemberDto, edit_staff_member_details, store_edit, edit_hours, make_room, update_staff,
  store_user, update_user, delete_staff_member,
}
use vms_backend_testing.Staff.Authority.{delete_staff_member_iff}
use vms_backend_testing.Staff.Onboarding.{otp, users_only, add_then_login}
use vms_backend_testing.Staff.Superadmin.{super_admins, promotion-sole}

abbrev acme : Organization
acme = record { id = 1; name = b'a' ∷ b'c' ∷ b' ' ∷ b'm' ∷ b'e' ∷ [] }

abbrev user_at : Ident → Role → UserCredential
user_at id role = record {
  id = id;
  org_id = some 1;
  email = id ∷ [];
  password = 0;
  role = role;
  first_time_login = false;
  account_status = AccountStatus.active;
}

abbrev staff_at : Ident → Ident → Role → Staff
staff_at id user_id role = record {
  id = id;
  org_id = 1;
  user_id = some user_id;
  name = [];
  email = user_id ∷ [];
  designation = [];
  department_id = none;
  role = role;
  employee_code = none;
}

abbrev small : Db
small = record {
  organizations = acme ∷ [];
  departments = record { id = 3; org_id = 1; name = b's' ∷ [] } ∷ [];
  users = user_at 5 super_admin ∷ user_at 6 admin ∷ [];
  staff = staff_at 15 5 super_admin ∷ staff_at 16 6 admin ∷ [];
  working_hours = [];
  events = [];
  sessions = [];
  mails = [];
}

abbrev env : Env
env = record {
  uuid = λ k. 20 + k;
  hash = toy_hash;
  mail_works = true;
  start_of_today = 0;
  start_of_tomorrow = 10;
  draws = λ k. 4 ∷ 7 ∷ 4 ∷ 9 ∷ [];
  digits = λ k. 23;
}

abbrev holder : Staff
holder = record (staff_at 15 5 super_admin) {
  employee_code = some (b'A' ∷ b'C' ∷ b'M' ∷ b'1' ∷ b'0' ∷ b'0' ∷ b'4' ∷ []);
}

-- The loop passes over the code that a member has.
second_draw :
    generate_unique_employee_code acme (4 ∷ 7 ∷ []) (holder ∷ [])
    ≡ some (b'A' ∷ b'C' ∷ b'M' ∷ b'1' ∷ b'0' ∷ b'0' ∷ b'7' ∷ [])
unfolding generate_unique_employee_code first_free prefix_of upper is_space text_eq
second_draw = refl

generate_unique_employee_code-ends_example :
    (code : Text) × (generate_unique_employee_code acme (4 ∷ 7 ∷ []) (holder ∷ []) ≡ some code)
    × (is_taken 1 code (holder ∷ []) ≡ false)
generate_unique_employee_code-ends_example =
    generate_unique_employee_code-ends acme (4 ∷ 7 ∷ []) (holder ∷ []) refl (omega arith)

delete_staff_member_iff_example : is_ok (delete_staff_member (some 1) admin 15 none small).0 ≡ false
delete_staff_member_iff_example = delete_staff_member_iff (some 1) admin 15 none small

abbrev promotion : EditStaffMemberDto
promotion = record {
  name = none;
  email = none;
  role = some super_admin;
  department_id = none;
  designation = none;
  account_status = none;
  working_hours = none;
}

promotion-sole_example :
    super_admins 1 (edit_staff_member_details env (some 1) super_admin 16 promotion none small).1
    ≤ 1
unfolding edit_staff_member_details target_organization store_edit edit_hours make_room update_staff
    store_user update_user
promotion-sole_example =
    promotion-sole env (some 1) super_admin 16 promotion none 1 acme (staff_at 16 6 admin) small
      (λ i. ground arith) (λ i. ground arith) refl refl refl refl refl refl (omega arith) refl

abbrev newcomer : AddStaffMemberDto
newcomer = record {
  name = b'n' ∷ [];
  email = b'n' ∷ b'@' ∷ [];
  designation = [];
  department_id = 3;
}

abbrev auth_env : Model.Env
auth_env = record {
  now = 100;
  uuid = λ i. 50 + i;
  hash = toy_hash;
  compare = toy_compare;
  otp = [];
  sign = λ c. [];
  mail_works = true;
}

abbrev added_row : Staff
added_row = record {
  id = 20;
  org_id = 1;
  user_id = some 21;
  name = b'n' ∷ [];
  email = b'n' ∷ b'@' ∷ [];
  designation = [];
  department_id = some 3;
  role = Role.staff;
  employee_code = some (b'A' ∷ b'C' ∷ b'M' ∷ b'1' ∷ b'0' ∷ b'0' ∷ b'4' ∷ []);
}

three_users : UserIds (users_only (add_staff_member env (some 1) admin newcomer none small).1)
unfolding add_staff_member target_organization add_row store_staff generate_unique_employee_code
    first_free prefix_of upper is_space normalize trim text_eq
three_users i = ground arith

add_then_login_example :
    let db' = (add_staff_member env (some 1) admin newcomer none small).1 in
    (is_ok (add_staff_member env (some 1) admin newcomer none small).0 ≡ true)
    × (db'.mails ≡ (normalize newcomer.email, otp env acme) ∷ [])
    × (is_logged_in
          (login_user auth_env
            (normalize newcomer.email)
            (otp env acme)
            (some (b'p' ∷ []))
            (users_only db')).0
        ≡ true)
unfolding add_staff_member target_organization add_row store_staff generate_unique_employee_code
    first_free prefix_of upper is_space normalize trim text_eq generate_one_time_password
add_then_login_example =
    add_then_login env auth_env (some 1) admin newcomer none 1 acme (b'p' ∷ []) (b'p' ∷ []) small
      refl refl refl refl refl refl refl (omega arith) refl three_users toy_compare_hash
      toy_compare_hash refl
