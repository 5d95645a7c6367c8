-- ===== src/Staff/Onboarding.antt =====
-- From the registration of a member of the staff to the first login.
use vms_backend_testing.Base.{
  ◌<◌, Bool, true, false, Option, none, some, List, [], ◌==◌, if◌then◌else◌, Ident, ◌≡◌, ap, ◌∙◌,
  Option-cases, inl, inr, arith,
}
use vms_backend_testing.Base.Text.{Text, text_eq, text_eq_refl, normalize}
use vms_backend_testing.Base.Request.{Result-cases, ok, is_ok}
use vms_backend_testing.Base.Role.{Role, root, role_eq, includes}
use vms_backend_testing.Base.Table.{any, count, find_first, create}
use vms_backend_testing.Base.Table.Rows.{find_first-create_new}
use vms_backend_testing.Auth.Model.{UserCredential, RefreshToken, ResetToken, find_by_email}
use vms_backend_testing.Auth.Model
use vms_backend_testing.Auth.Login.{login_user, provided}
use vms_backend_testing.Auth.Login.Effects.{UserIds, is_logged_in, may_enter, login_user_iff}
use vms_backend_testing.Staff.Model.{
  Organization, Staff, Db, Env, chosen, find_organization, target_organization,
}
use vms_backend_testing.Base.Table.Any.{any-or, any-and}
use vms_backend_testing.Staff.Codes.Termination.{
  all_below, different, generate_unique_employee_code-ends,
}
use vms_backend_testing.Staff.Codes.{
  has_code, generate_unique_employee_code, generate_one_time_password,
}
use vms_backend_testing.Staff.Add.{
  AddStaffMemberDto, editors, new_user, store_staff, add_row, add_staff_member,
}

-- The one-time password of a member, and the credential that belongs to it.
abbrev pub otp : Env → Organization → Text
otp env org = generate_one_time_password org.name (env.digits 0)

abbrev pub credential : Env → Organization → Text → UserCredential
credential env org email = new_user env (env.uuid 1) org.id email (otp env org) Role.staff

add_row-user :
    (env : Env) (org : Organization) (name email designation : Text) (department_id : Ident)
    (row : Staff × Text) (db : Db)
    → (add_row env org name email designation department_id db).0 ≡ ok row
    → (find_first
          (λ u. text_eq u.email email)
          (add_row env org name email designation department_id db).1.users
        ≡ some (credential env org email))
      × (row.1 ≡ otp env org)
      × (row.0.email ≡ email)
      × ((add_row env org name email designation department_id db).1.mails ≡ db.mails)
unfolding add_row store_staff
add_row-user env org name email designation department_id row db h =
    elim (Option-cases (generate_unique_employee_code org (env.draws 0) db.staff)) [
      | inl n ↦ absurd (ground arith)
      | inr (code, e) ↦ ground (
        arith,
        find_first-create_new (λ u. text_eq u.email email) (credential env org email) db.users,
        text_eq_refl email,
      )
    ]

abbrev pub users_only : Db → Model.Db
users_only db = record { users = db.users; refresh_tokens = []; reset_tokens = []; mails = [] }

add_staff_member-user :
    (env : Env) (org_id : Option Ident) (role : Role) (dto : AddStaffMemberDto)
    (q_org_id : Option Ident) (target : Ident) (org : Organization) (s : Staff) (db : Db)
    → chosen (role_eq root role) q_org_id org_id ≡ some target
    → find_organization target db ≡ some org
    → (add_staff_member env org_id role dto q_org_id db).0 ≡ ok s
    → let db' = (add_staff_member env org_id role dto q_org_id db).1 in
      (find_by_email (normalize dto.email) (users_only db')
        ≡ some (credential env org (normalize dto.email)))
      × (db'.mails ≡ (
          if env.mail_works then create (normalize dto.email, otp env org) db.mails else db.mails))
unfolding add_staff_member target_organization
add_staff_member-user env org_id role dto q_org_id target org s db c f h =
    elim (Result-cases
      (add_row env org dto.name (normalize dto.email) dto.designation dto.department_id db).0) [
        | inl (row, e) ↦ ground (
          arith,
          add_row-user env org dto.name (normalize dto.email) dto.designation dto.department_id row
              db e,
        )
        | inr (x, e) ↦ absurd (ground arith)
      ]

-- Whether somebody has the code with which the loop ends.
abbrev pub is_held : Option Text → List Staff → Bool
is_held none staff = false
is_held (some code) staff = any (λ x. has_code code x.employee_code) staff

add_row-ok :
    (env : Env) (org : Organization) (name email designation code : Text) (department_id : Ident)
    (db : Db)
    → generate_unique_employee_code org (env.draws 0) db.staff ≡ some code
    → any (λ x. has_code code x.employee_code) db.staff ≡ false
    → any (λ x. text_eq x.email email) db.staff ≡ false
    → any (λ u. text_eq u.email email) db.users ≡ false
    → any (λ d. d.id == department_id) db.departments ≡ true
    → is_ok (add_row env org name email designation department_id db).0 ≡ true
unfolding add_row store_staff
add_row-ok env org name email designation code department_id db g h e u d =
    ground
      (arith, g, any-or (λ x. text_eq x.email email) (λ x. has_code code x.employee_code) db.staff)

add_staff_member-ok :
    (env : Env) (org_id : Option Ident) (role : Role) (dto : AddStaffMemberDto)
    (q_org_id : Option Ident) (target : Ident) (org : Organization) (db : Db)
    → chosen (role_eq root role) q_org_id org_id ≡ some target
    → find_organization target db ≡ some org
    → includes editors role ≡ true
    → any (λ x. text_eq x.email (normalize dto.email)) db.staff ≡ false
    → any (λ u. text_eq u.email (normalize dto.email)) db.users ≡ false
    → any (λ d. d.id == dto.department_id) db.departments ≡ true
    → all_below 9000 (env.draws 0) ≡ true
    → count (λ s. s.org_id == org.id) db.staff < different (env.draws 0)
    → is_held (generate_unique_employee_code org (env.draws 0) db.staff) db.staff ≡ false
    → (s : Staff) × ((add_staff_member env org_id role dto q_org_id db).0 ≡ ok s)
unfolding add_staff_member target_organization
add_staff_member-ok env org_id role dto q_org_id target org db c f r e u d b more held =
    let ends = generate_unique_employee_code-ends org (env.draws 0) db.staff b more in
    let fine : is_ok
          (add_row env org dto.name (normalize dto.email) dto.designation dto.department_id db).0
        ≡ true =
      add_row-ok env org dto.name (normalize dto.email) dto.designation ends.0 dto.department_id db
        ends.1 (ground (arith, ends.1)) e u d in
    elim (Result-cases
      (add_row env org dto.name (normalize dto.email) dto.designation dto.department_id db).0) [
        | inl (row, k) ↦ (
          row.0,
          ground (
            arith,
            any-and (λ x. text_eq x.email (normalize dto.email)) (λ x. x.org_id == org.id) db.staff,
          ),
        )
        | inr (x, k) ↦ absurd (ground arith)
      ]

-- Root, a superadmin or an admin adds somebody to the staff of an organisation that exists, in a
-- department that exists, when no member of any staff and no user has the e-mail, and the loop has
-- drawn more different numbers than the organisation has members and ends with a code that nobody
-- has. This is accepted; the one-time password goes out by mail if the mail server works; and with
-- it the newcomer logs in by choosing a new password. It is supposed that identifiers of users are
-- unique afterwards and that bcrypt accepts what it has hashed in this request or in that.
pub add_then_login :
    (env : Env) (auth : Model.Env) (org_id : Option Ident) (role : Role) (dto : AddStaffMemberDto)
    (q_org_id : Option Ident) (target : Ident) (org : Organization) (new p : Text) (db : Db)
    → chosen (role_eq root role) q_org_id org_id ≡ some target
    → find_organization target db ≡ some org
    → includes editors role ≡ true
    → any (λ x. text_eq x.email (normalize dto.email)) db.staff ≡ false
    → any (λ u. text_eq u.email (normalize dto.email)) db.users ≡ false
    → any (λ d. d.id == dto.department_id) db.departments ≡ true
    → all_below 9000 (env.draws 0) ≡ true
    → count (λ s. s.org_id == org.id) db.staff < different (env.draws 0)
    → is_held (generate_unique_employee_code org (env.draws 0) db.staff) db.staff ≡ false
    → UserIds (users_only (add_staff_member env org_id role dto q_org_id db).1)
    → ((t : Text) → auth.compare t (auth.hash t) ≡ true)
    → ((t : Text) → auth.compare t (env.hash t) ≡ true)
    → provided (some new) ≡ some p
    → let db' = (add_staff_member env org_id role dto q_org_id db).1 in
      (is_ok (add_staff_member env org_id role dto q_org_id db).0 ≡ true)
      × (db'.mails ≡ (
          if env.mail_works then create (normalize dto.email, otp env org) db.mails else db.mails))
      × (is_logged_in
            (login_user auth (normalize dto.email) (otp env org) (some new) (users_only db')).0
          ≡ true)
add_then_login env auth org_id role dto q_org_id target org new p db c f r e u d b more held ids
      bcrypt same given =
    let fine =
      add_staff_member-ok env org_id role dto q_org_id target org db c f r e u d b more held in
    let done = add_staff_member-user env org_id role dto q_org_id target org fine.0 db c f fine.1 in
    (
      ap is_ok fine.1,
      done.1,
      login_user_iff auth (normalize dto.email) (otp env org) (some new)
            (users_only (add_staff_member env org_id role dto q_org_id db).1) ids bcrypt
          ∙ ap (λ x. may_enter auth (otp env org) (some new) x) done.0
          ∙ ground (arith, same (otp env org), given),
    )
