-- ===== src/Staff/Authority.antt =====
-- Who deletes whom, and where hours are kept.
use vms_backend_testing.Base.{
  Bool, true, false, not, ◌&&◌, ◌||◌, Option, none, some, ◌==◌, Ident, present, ◌≡◌, Option-cases,
  inl, inr, arith,
}
use vms_backend_testing.Base.Request.{is_ok}
use vms_backend_testing.Base.Role.{Role, root, super_admin, admin, role_eq}
use vms_backend_testing.Base.Table.{any}
use vms_backend_testing.Staff.Model.{
  Organization, Staff, Db, chosen, find_organization, find_staff, target_organization,
}
use vms_backend_testing.Staff.Edit.{drop_user, delete_staff_member}

-- Root deletes anyone, a superadmin the admins and the staff, an admin the staff of the own
-- organisation.
abbrev pub outranks : Role → Role → Bool
outranks role target =
    role_eq root role
    || (role_eq super_admin role && not (role_eq super_admin target))
    || (role_eq admin role && role_eq Role.staff target)

abbrev pub has_user : Option Ident → Db → Bool
has_user none db = true
has_user (some id) db = any (λ u. u.id == id) db.users

abbrev pub may_delete : Role → Option Organization → Option Staff → Db → Bool
may_delete role none s db = false
may_delete role (some o) none db = false
may_delete role (some o) (some s) db =
    outranks role s.role
    && (role_eq root role || s.org_id == o.id)
    && has_user (present s.user_id) db

abbrev pub organization_at : Option Ident → Db → Option Organization
organization_at none db = none
organization_at (some id) db = find_organization id db

pub delete_staff_member_iff :
    (org_id : Option Ident) (role : Role) (staff_id : Ident) (q_org_id : Option Ident) (db : Db)
    → is_ok (delete_staff_member org_id role staff_id q_org_id db).0
      ≡ may_delete role
          (organization_at (chosen (role_eq root role) q_org_id org_id) db)
          (find_staff staff_id db)
          db
unfolding delete_staff_member drop_user target_organization
delete_staff_member_iff org_id role staff_id q_org_id db =
    elim (Option-cases (chosen (role_eq root role) q_org_id org_id)) [
      | inl n ↦ ground arith
      | inr (o, e) ↦ elim (Option-cases (find_staff staff_id db)) [
        | inl n ↦ ground arith
        | inr (s, f) ↦ ground arith
      ]
    ]
