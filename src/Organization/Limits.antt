-- ===== src/Organization/Limits.antt =====
-- How many system accounts an organisation has.
pub mod Runs
use vms_backend_testing.Base.{
  ℕ, ◌+◌, ◌≤◌, Bool, true, false, not, ◌&&◌, ◌||◌, Option, none, some, List, [], ◌∷◌, ◌==◌, ltb,
  leb, if◌then◌else◌, Ident, is_ident, ◌≡◌, refl, ==→eq, ==-refl, Option-cases, Bool-cases, inl,
  inr, arith,
}
use vms_backend_testing.Base.Text.{Text}
use vms_backend_testing.Base.Role.{Role, super_admin, role_eq}
use vms_backend_testing.Base.Table.{count, any, find_first, create, update, delete, delete_many}
use vms_backend_testing.Base.Table.Counts.{
  count-create, count-update_same, count-delete_many-le, count-update_many-le, count-delete-le,
  count-eq-zero_of_any, find_first-holds,
}
use vms_backend_testing.Base.Table.Rows.{find_first-update_ne, find_first-update_self}
use vms_backend_testing.Auth.Guard.{SystemCredential}
use vms_backend_testing.Organization.Model.{Organization, Db, Env, find_organization}
use mathlib.Core.Path.{sym, subst}
use mathlib.Core.Option
use vms_backend_testing.Auth.Login.{provided}
use vms_backend_testing.Organization.Manage.{
  edited, store_details, too_low, limit_given, new_organization, CreateOrganizationDto,
  EditOrganizationDto, create_organization, edit_organization_details, delete_organization,
  check_editor, check_super_admin, upload_logo, mail_registration, add_organization,
  drop_organization, store_edit,
}
use vms_backend_testing.System.Accounts.{
  RegisterSystemUserDto, new_account, accounts_of, register_system_user,
}
use vms_backend_testing.Base.Table.Any.{any-delete_many_hit, find_first-delete_miss}

-- What the organisation that is found by an identifier may have; none is found, none may be had.
abbrev pub limit_of : Option Organization → ℕ
limit_of none = 0
limit_of (some o) = o.account_limit

-- No organisation has more system accounts than its limit, and there are none without one.
abbrev pub Within : Ident → Db → Type 0
Within i db = accounts_of i db ≤ limit_of (find_organization i db)

pub register-Within :
    (env : Env) (org_id user_id : Ident) (role : Role) (dto : RegisterSystemUserDto) (i : Ident)
    (db : Db)
    → Within i db
    → Within i (register_system_user env org_id user_id role dto db).1
unfolding register_system_user
register-Within env org_id user_id role dto i db h =
    let k = ==→eq org_id i in
    elim (Bool-cases (org_id == i)) [
      | inl t ↦
          subst
            (λ x. Within x db → Within x (register_system_user env org_id user_id role dto db).1)
            (k t)
            (λ w. elim (Option-cases (find_organization org_id db)) [
              | inl n ↦ ground arith
              | inr (o, e) ↦ ground (
                arith,
                count-create (λ s. s.org_id == org_id) (new_account env org_id dto) db.systems,
              )
            ])
            h
      | inr f ↦
          ground (arith, count-create (λ s. s.org_id == i) (new_account env org_id dto) db.systems)
    ]

limit-create :
    (i : Ident) (o : Organization) (os : List Organization)
    → limit_of (find_first (λ o. o.id == i) os)
      ≤ limit_of (find_first (λ o. o.id == i) (create o os))
limit-create i o [] = ground arith
limit-create i o (x ∷ os) = ground (arith, limit-create i o os)

pub create-Within :
    (env : Env) (role : Role) (dto : CreateOrganizationDto) (has_logo : Bool) (i : Ident) (db : Db)
    → Within i db
    → Within i (create_organization env role dto has_logo db).1
unfolding create_organization upload_logo mail_registration
create-Within env role dto has_logo i db h = elim (Option-cases (provided env.encryption_key)) [
  | inl n ↦ ground arith
  | inr (key, e) ↦
      let new : (logo : Option Text)
          → limit_of (find_organization i db)
            ≤ limit_of (
                find_first (λ o. o.id == i)
                  (create (new_organization env dto logo (env.encrypt dto.setting_code key))
                    db.organizations)) =
        λ logo.
          limit-create i (new_organization env dto logo (env.encrypt dto.setting_code key))
            db.organizations in
      ground (arith, new none, new env.upload)
]

limit-update_ne :
    (f : Organization → Organization) (i j : Ident) (os : List Organization)
    → ((o : Organization) → (f o).id ≡ o.id)
    → (i == j) ≡ false
    → find_first (λ o. o.id == i) (update (λ o. o.id == j) f os) ≡ find_first (λ o. o.id == i) os
limit-update_ne f i j os keep ne =
    find_first-update_ne (λ o. o.id == i) (λ o. o.id == j) f os (λ o t. ground arith)
      (λ o t. ground (arith, keep o))

store_edit-Within :
    (env : Env) (org_id : Ident) (key : Text) (limit : Option ℕ) (logo : Option Text)
    (dto : EditOrganizationDto) (i : Ident) (db : Db)
    → too_low limit (accounts_of org_id db) ≡ false
    → Within i db
    → Within i (store_edit env org_id key limit logo dto db)
store_edit-Within env org_id key limit logo dto i db low h = elim (Bool-cases (i == org_id)) [
  | inl t ↦
      subst (λ x. Within x db → Within x (store_edit env org_id key limit logo dto db))
        (sym (==→eq i org_id t)) at_own h
  | inr f ↦ ground (
    arith,
    limit-update_ne (edited env key limit logo dto) i org_id db.organizations (λ o. refl) f,
  )
]
  where
    at_own : Within org_id db → Within org_id (store_edit env org_id key limit logo dto db)
    at_own w = elim (Option-cases (find_organization org_id db)) [
      | inl n ↦ ground (arith, w)
      | inr (o, e) ↦ ground (
        arith,
        w,
        find_first-update_self (λ o. o.id == org_id) (edited env key limit logo dto) o
            db.organizations e (find_first-holds (λ o. o.id == org_id) db.organizations e),
      )
    ]

store_details-Within :
    (env : Env) (org_id : Ident) (key : Text) (limit : Option ℕ) (logo : Option Text)
    (dto : EditOrganizationDto) (i : Ident) (db : Db)
    → too_low limit (accounts_of org_id db) ≡ false
    → Within i db
    → Within i (store_details env org_id key limit logo dto db).1
unfolding store_details
store_details-Within env org_id key limit logo dto i db low h =
    let w = store_edit-Within env org_id key limit logo dto i db low h in ground (arith, w)

pub check_editor-state :
    (role : Role) (user_id org_id : Ident) (db : Db) → (check_editor role user_id org_id db).1 ≡ db
unfolding check_editor check_super_admin
check_editor-state role user_id org_id db = ground arith

pub edit-Within :
    (env : Env) (org_id : Ident) (role : Role) (dto : EditOrganizationDto) (user_id : Ident)
    (has_logo : Bool) (i : Ident) (db : Db)
    → Within i db
    → Within i (edit_organization_details env org_id role dto user_id has_logo db).1
unfolding edit_organization_details upload_logo
edit-Within env org_id role dto user_id has_logo i db h =
    elim (Option-cases (provided env.encryption_key)) [
      | inl n ↦ ground (arith, check_editor-state role user_id org_id db)
      | inr (key, e) ↦
          let stored : (logo : Option Text)
              → too_low (limit_given role dto.account_limit) (accounts_of org_id db) ≡ false
              → Within i
                  (store_details env org_id key (limit_given role dto.account_limit) logo dto
                    db).1 =
            λ logo low.
              store_details-Within env org_id key (limit_given role dto.account_limit) logo dto i db
                low h in
          ground (arith, stored none, stored env.upload, check_editor-state role user_id org_id db)
    ]

pub delete-Within :
    (org_id : Ident) (role : Role) (i : Ident) (db : Db)
    → Within i db
    → Within i (delete_organization org_id role db).1
unfolding delete_organization
delete-Within org_id role i db h = elim (Bool-cases (i == org_id)) [
  | inl t ↦ ground (arith, ==→eq i org_id t, gone i, gone org_id)
  | inr f ↦ ground (
    arith,
    count-delete_many-le (λ s. s.org_id == i) (λ s. s.org_id == org_id) db.systems,
    find_first-delete_miss (λ o. o.id == i) (λ o. o.id == org_id) db.organizations
        (λ o t. ground arith),
  )
]
  where
    gone :
        (j : Ident) → count (λ s. s.org_id == j) (delete_many (λ s. s.org_id == j) db.systems) ≡ 0
    gone j =
        count-eq-zero_of_any (λ s. s.org_id == j) (delete_many (λ s. s.org_id == j) db.systems)
          (any-delete_many_hit (λ s. s.org_id == j) (λ s. s.org_id == j) db.systems (λ s t. t))
