-- ===== src/Staff/Superadmin.antt =====
-- An organisation has one superadmin.
use vms_backend_testing.Base.{
  ℕ, ◌+◌, ◌≤◌, Bool, true, false, Option, none, some, ◌==◌, Ident, present, is_ident, ◌≡◌, refl,
  sym, ap, ◌∙◌, ==→eq, ==-refl, Option-cases, Bool-cases, inl, inr, arith,
}
use mathlib.Core.Option.{some-injective}
use vms_backend_testing.Base.Request.{Result-cases, is_ok}
use vms_backend_testing.Base.Role.{Role, root, super_admin, role_eq}
use vms_backend_testing.Base.Table.{count, find_first}
use vms_backend_testing.Base.Table.Counts.{
  count-create, count-update, count-update-suc, count-eq-zero_of_find_first, find_first-holds,
  find_first_of_unique,
}
use vms_backend_testing.Auth.Model.{UserCredential}
use vms_backend_testing.Hours.{WorkingHoursDto}
use vms_backend_testing.Staff.Model.{
  Organization, Staff, Db, Env, chosen, find_organization, find_staff, target_organization,
}
use vms_backend_testing.Staff.Add.{new_user}
use vms_backend_testing.Staff.Codes.{generate_one_time_password}
use vms_backend_testing.Staff.Edit.{
  EditStaffMemberDto, edit_hours, is_super_admin_of, staff_of, as_admin, make_room, update_staff,
  user_edited, update_user, create_user, store_user, store_edit, edit_staff_member_details,
}

-- The superadmins of an organisation
abbrev pub super_admins : Ident → Db → ℕ
super_admins org_id db = count (is_super_admin_of org_id) db.users

-- The superadmin of the organisation, if there is one, has a row of the staff that says so too.
abbrev pub agrees : Option UserCredential → Option Staff → Bool
agrees none s = true
agrees (some u) none = false
agrees (some u) (some s) = role_eq super_admin s.role

abbrev pub in_agreement : Ident → Db → Bool
in_agreement org_id db =
    let u = find_first (is_super_admin_of org_id) db.users in agrees u (staff_of u db)

module _ (org_id : Ident) where
  make_room-none :
      (s : Staff) (db : Db)
      → ((i : Ident) → count (λ u. u.id == i) db.users ≤ 1)
      → ((i : Ident) → count (λ x. x.id == i) db.staff ≤ 1)
      → super_admins org_id db ≤ 1
      → in_agreement org_id db ≡ true
      → find_staff s.id db ≡ some s
      → role_eq super_admin s.role ≡ false
      → super_admins org_id (make_room org_id (some super_admin) s db) ≡ 0
  unfolding make_room
  make_room-none s db users staff one agree found low =
      elim (Option-cases (find_first (is_super_admin_of org_id) db.users)) [
        | inl n ↦ ground (arith, count-eq-zero_of_find_first (is_super_admin_of org_id) db.users n)
        | inr (u, e) ↦
            let first : find_first (λ x. x.id == u.id) db.users ≡ some u =
              find_first_of_unique (is_super_admin_of org_id) (λ x. x.id == u.id) u db.users
                (users u.id) e (==-refl u.id) in
            elim (Option-cases (staff_of (some u) db)) [
              | inl n ↦ absurd (ground arith)
              | inr (x, f) ↦ elim (Bool-cases (x.id == s.id)) [
                | inl t ↦
                    let by_id : find_first (λ y. y.id == x.id) db.staff ≡ some x =
                      find_first_of_unique (λ y. is_ident y.user_id u.id) (λ y. y.id == x.id) x
                        db.staff (staff x.id) f (==-refl x.id) in
                    let same : x ≡ s =
                      some-injective x s
                        (sym by_id ∙ ap (λ i. find_staff i db) (==→eq x.id s.id t) ∙ found) in
                    absurd (ground (arith, ap (λ y. role_eq super_admin y.role) same))
                | inr n ↦ ground (
                  arith,
                  count-update (is_super_admin_of org_id) (λ y. y.id == u.id) as_admin u db.users
                      first,
                  find_first-holds (is_super_admin_of org_id) db.users e,
                )
              ]
            ]
      ]

edit_hours-users :
    (env : Env) (id : Ident) (w : Option WorkingHoursDto) (db : Db)
    → ((edit_hours env id w db).1.users ≡ db.users) × ((edit_hours env id w db).1.staff ≡ db.staff)
unfolding edit_hours
edit_hours-users env id none db = (refl, refl)
edit_hours-users env id (some w) db = ground arith

update_staff-users :
    (id : Ident) (dto : EditStaffMemberDto) (db : Db) → (update_staff id dto db).1.users ≡ db.users
unfolding update_staff
update_staff-users id dto db = ground arith

store_user-count :
    (env : Env) (org : Organization) (s : Staff) (dto : EditStaffMemberDto) (id : Option Ident)
    (org_id : Ident) (db : Db)
    → super_admins org_id (store_user env org s dto id db).1 ≤ super_admins org_id db + 1
unfolding store_user create_user update_user
store_user-count env org s dto (some id) org_id db = ground (
  arith,
  count-update-suc (is_super_admin_of org_id) (λ u. u.id == id) (user_edited s.role dto) db.users,
)
store_user-count env org s dto none org_id db = elim (Option-cases dto.email) [
  | inl n ↦ ground arith
  | inr (email, e) ↦ elim (Option-cases dto.role) [
    | inl n ↦ ground arith
    | inr (role, r) ↦ ground (
      arith,
      count-create (is_super_admin_of org_id)
          (new_user env (env.uuid 0) org.id email
            (generate_one_time_password org.name (env.digits 0)) role)
          db.users,
    )
  ]
]

make_room-shape :
    (org_id : Ident) (role : Option Role) (s : Staff) (db db' : Db)
    → db'.users ≡ db.users
    → db'.staff ≡ db.staff
    → (make_room org_id role s db').users ≡ (make_room org_id role s db).users
unfolding make_room
make_room-shape org_id role s db db' u t = ground (arith, u, t)

store_edit-count :
    (env : Env) (org : Organization) (s : Staff) (dto : EditStaffMemberDto) (db : Db)
    → is_ok (store_edit env org s dto db).0 ≡ true
    → super_admins org.id (make_room org.id dto.role s db) ≡ 0
    → super_admins org.id (store_edit env org s dto db).1 ≤ 1
unfolding store_edit
store_edit-count env org s dto db h zero =
    let hours = edit_hours-users env s.id dto.working_hours db in
    let roomed = make_room org.id dto.role s (edit_hours env s.id dto.working_hours db).1 in
    ground (
      arith,
      ap (count (is_super_admin_of org.id)) (
          make_room-shape org.id dto.role s db (edit_hours env s.id dto.working_hours db).1 hours.0
            hours.1),
      ap (count (is_super_admin_of org.id)) (update_staff-users s.id dto roomed),
      store_user-count env org s dto (present s.user_id) org.id (update_staff s.id dto roomed).1,
    )

-- Whoever is made superadmin of an organisation takes the place of the one before: an organisation
-- that had one superadmin at most has one at most afterwards. It is supposed that identifiers are
-- unique and that the row of the staff of the superadmin before, if there was one, says so too.
pub promotion-sole :
    (env : Env) (org_id : Option Ident) (role : Role) (staff_id : Ident) (dto : EditStaffMemberDto)
    (q_org_id : Option Ident) (target : Ident) (org : Organization) (s : Staff) (db : Db)
    → ((i : Ident) → count (λ u. u.id == i) db.users ≤ 1)
    → ((i : Ident) → count (λ x. x.id == i) db.staff ≤ 1)
    → chosen (role_eq root role) q_org_id org_id ≡ some target
    → find_organization target db ≡ some org
    → find_staff staff_id db ≡ some s
    → role_eq super_admin s.role ≡ false
    → dto.role ≡ some super_admin
    → in_agreement org.id db ≡ true
    → super_admins org.id db ≤ 1
    → is_ok (edit_staff_member_details env org_id role staff_id dto q_org_id db).0 ≡ true
    → super_admins org.id (edit_staff_member_details env org_id role staff_id dto q_org_id db).1 ≤ 1
unfolding edit_staff_member_details target_organization
promotion-sole env org_id role staff_id dto q_org_id target org s db users staff c f e low r agree
      one h =
    let id : s.id ≡ staff_id =
      ==→eq s.id staff_id (find_first-holds (λ x. x.id == staff_id) db.staff e) in
    let zero =
      make_room-none org.id s db users staff one agree (ap (λ i. find_staff i db) id ∙ e) low in
    elim (Result-cases (store_edit env org s dto db).0) [
      | inl (u, k) ↦ ground (
        arith,
        store_edit-count env org s dto db (ap is_ok k)
            (ap (λ x. super_admins org.id (make_room org.id x s db)) r ∙ zero),
      )
      | inr (x, k) ↦ absurd (ground arith)
    ]
