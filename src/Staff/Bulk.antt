-- ===== src/Staff/Bulk.antt =====
-- What a bulk registration adds.
use vms_backend_testing.Base.{
  ℕ, suc, ◌+◌, Bool, true, false, ◌&&◌, Option, List, [], ◌∷◌, ◌==◌, if◌then◌else◌, Ident, ◌≡◌,
  refl, ap, Option-cases, inl, inr, arith,
}
use vms_backend_testing.Base.Text.{Text, text_eq, normalize}
use vms_backend_testing.Base.Request.{Result-cases, ok}
use vms_backend_testing.Base.Role.{Role, root, role_eq}
use vms_backend_testing.Base.Table.{length, count, find_first, create}
use vms_backend_testing.Staff.Model.{
  Organization, Staff, Db, Env, chosen, find_organization, target_organization,
}
use vms_backend_testing.Staff.Codes.{generate_unique_employee_code, generate_one_time_password}
use vms_backend_testing.Staff.Add.{
  linked, new_staff, new_user, BulkDto, Imported, added, already, no_department, later,
  mail_registration, store_staff, add_row, with_department, import_one, import_all, mail_all,
  add_staff_bulk,
}

abbrev pub is_added : Imported → Bool
is_added (added s password) = true
is_added _ = false

abbrev one_if_added : Imported → ℕ
one_if_added r = if is_added r then 1 else 0

length-create : {A : Type 0} (x : A) (xs : List A) → length (create x xs) ≡ suc (length xs)
length-create x [] = refl
length-create x (y ∷ xs) = ap suc (length-create x xs)

add_row-grows :
    (env : Env) (org : Organization) (name email designation : Text) (department_id : Ident)
    (row : Staff × Text) (db : Db)
    → (add_row env org name email designation department_id db).0 ≡ ok row
    → let db' = (add_row env org name email designation department_id db).1 in
      (length db'.staff ≡ suc (length db.staff)) × (length db'.users ≡ suc (length db.users))
unfolding add_row store_staff
add_row-grows env org name email designation department_id row db h =
    elim (Option-cases (generate_unique_employee_code org (env.draws 0) db.staff)) [
      | inl n ↦ absurd (ground arith)
      | inr (code, e) ↦ ground (
        arith,
        length-create
            (linked (env.uuid 1)
              (new_staff (env.uuid 0) org.id name email designation department_id code))
            db.staff,
        length-create
            (new_user env (env.uuid 1) org.id email
              (generate_one_time_password org.name (env.digits 0)) Role.staff)
            db.users,
      )
    ]

import_one-grows :
    (env : Env) (org : Organization) (dto : BulkDto) (r : Imported) (db : Db)
    → (import_one env org dto db).0 ≡ ok r
    → let db' = (import_one env org dto db).1 in
      (length db'.staff ≡ length db.staff + one_if_added r)
      × (length db'.users ≡ length db.users + one_if_added r)
unfolding import_one with_department
import_one-grows env org dto r db h =
    elim (Option-cases
      (find_first (λ d. text_eq d.name dto.department_name && d.org_id == org.id) db.departments)) [
        | inl n ↦ ground arith
        | inr (d, e) ↦
            elim (Result-cases
              (add_row env org dto.name (normalize dto.email) dto.designation d.id db).0) [
                | inl (row, f) ↦ ground (
                  arith,
                  add_row-grows env org dto.name (normalize dto.email) dto.designation d.id row db
                      f,
                )
                | inr (x, f) ↦ ground arith
              ]
      ]

import_all-grows :
    (env : Env) (org : Organization) (dtos : List BulkDto) (rs : List Imported) (db : Db)
    → (import_all env org dtos db).0 ≡ ok rs
    → let db' = (import_all env org dtos db).1 in
      (length rs ≡ length dtos)
      × (length db'.staff ≡ length db.staff + count is_added rs)
      × (length db'.users ≡ length db.users + count is_added rs)
unfolding import_all
import_all-grows env org [] rs db h = ground arith
import_all-grows env org (dto ∷ dtos) rs db h = elim (Result-cases (import_one env org dto db).0) [
  | inl (r, e) ↦
      elim (Result-cases (import_all (later env) org dtos (import_one env org dto db).1).0) [
        | inl (rest, f) ↦ ground (
          arith,
          import_one-grows env org dto r db e,
          import_all-grows (later env) org dtos rest (import_one env org dto db).1 f,
        )
        | inr (x, f) ↦ absurd (ground arith)
      ]
  | inr (x, e) ↦ absurd (ground arith)
]

mail_all-tables :
    (env : Env) (rs : List Imported) (db : Db)
    → ((mail_all env rs db).staff ≡ db.staff) × ((mail_all env rs db).users ≡ db.users)
unfolding mail_all
mail_all-tables env [] db = (refl, refl)
mail_all-tables env (added s password ∷ rest) db =
    ground (arith, mail_all-tables env rest (mail_registration env s.email password db))
mail_all-tables env (already email ∷ rest) db = mail_all-tables env rest db
mail_all-tables env (no_department email ∷ rest) db = mail_all-tables env rest db

-- A bulk registration that is accepted says one thing of each row of the list, and has made as many
-- members of the staff, and as many credentials, as it says that it has added.
pub add_staff_bulk-counts :
    (env : Env) (org_id : Option Ident) (role : Role) (dtos : List BulkDto)
    (q_org_id : Option Ident) (rs : List Imported) (db : Db)
    → (add_staff_bulk env org_id role dtos q_org_id db).0 ≡ ok rs
    → let db' = (add_staff_bulk env org_id role dtos q_org_id db).1 in
      (length rs ≡ length dtos)
      × (length db'.staff ≡ length db.staff + count is_added rs)
      × (length db'.users ≡ length db.users + count is_added rs)
unfolding add_staff_bulk target_organization
add_staff_bulk-counts env org_id role dtos q_org_id rs db h =
    elim (Option-cases (chosen (role_eq root role) q_org_id org_id)) [
      | inl n ↦ absurd (ground arith)
      | inr (t, c) ↦ elim (Option-cases (find_organization t db)) [
        | inl n ↦ absurd (ground arith)
        | inr (org, e) ↦ elim (Result-cases (import_all env org dtos db).0) [
          | inl (done, f) ↦ ground (
            arith,
            import_all-grows env org dtos done db f,
            mail_all-tables env done (import_all env org dtos db).1,
          )
          | inr (x, f) ↦ absurd (ground arith)
        ]
      ]
    ]
