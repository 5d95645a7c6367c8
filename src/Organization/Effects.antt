-- ===== src/Organization/Effects.antt =====
-- What `editOrganizationDetails` has done when it does not throw.
use vms_backend_testing.Base.{
  ℕ, Bool, true, false, Option, none, some, ◌==◌, Ident, ◌≡◌, refl, ap, ◌∙◌, ◌≢◌, Option-cases, inl,
  inr, arith,
}
use vms_backend_testing.Base.Text.{Text}
use vms_backend_testing.Base.Request.{ok, is_ok}
use vms_backend_testing.Base.Role.{Role, super_admin}
use vms_backend_testing.Base.Table.Counts.{find_first-holds}
use vms_backend_testing.Base.Table.Rows.{find_first-update_self, find_first-update_ne}
use mathlib.Core.Option
use vms_backend_testing.Auth.Login.{provided}
use vms_backend_testing.Hours.{Weekday, WorkingHoursDto, of_org}
use vms_backend_testing.Hours.Exact.{Hours, hours_on, after, store_hours-hours}
use vms_backend_testing.Organization.Model.{Organization, Db, Env, find_organization}
use vms_backend_testing.Organization.Manage.{
  EditOrganizationDto, limit_given, with_hours, edited, store_edit, store_details, upload_logo,
  edit_organization_details,
}
use vms_backend_testing.Organization.Limits.{check_editor-state}

store_details-ok :
    (env : Env) (org_id : Ident) (key : Text) (limit : Option ℕ) (logo : Option Text)
    (dto : EditOrganizationDto) (db : Db)
    → is_ok (store_details env org_id key limit logo dto db).0 ≡ true
    → (store_details env org_id key limit logo dto db).1
      ≡ store_edit env org_id key limit logo dto db
unfolding store_details
store_details-ok env org_id key limit logo dto db h = ground arith

-- The organisation that was there, the key and the logo with which it has been edited.
pub record EditDone (env : Env) (org_id : Ident) (role : Role) (dto : EditOrganizationDto)
    (db db' : Db) : Type 0 where
  pub old : Organization
  pub key : Text
  pub logo : Option Text
  pub found : find_organization org_id db ≡ some old
  pub keyed : provided env.encryption_key ≡ some key
  pub done : db' ≡ store_edit env org_id key (limit_given role dto.account_limit) logo dto db

module _ (env : Env) (org_id : Ident) (role : Role) (dto : EditOrganizationDto) (user_id : Ident)
    (db : Db) where
  edit-key :
      (has_logo : Bool)
      → is_ok (edit_organization_details env org_id role dto user_id has_logo db).0 ≡ true
      → provided env.encryption_key ≢ none
  unfolding edit_organization_details upload_logo
  edit-key has_logo h = ground arith

  edit-found :
      (has_logo : Bool)
      → is_ok (edit_organization_details env org_id role dto user_id has_logo db).0 ≡ true
      → find_organization org_id db ≢ none
  unfolding edit_organization_details
  edit-found has_logo h = ground arith

  abbrev logo_of : Bool → Option Text
  logo_of true = env.upload
  logo_of false = none

  edit-uploaded :
      (has_logo : Bool)
      → is_ok (edit_organization_details env org_id role dto user_id has_logo db).0 ≡ true
      → upload_logo env has_logo db ≡ (ok (logo_of has_logo), db)
  unfolding edit_organization_details upload_logo
  edit-uploaded true h = ground (arith, check_editor-state role user_id org_id db)
  edit-uploaded false h = refl

  edit-state :
      (has_logo : Bool) (key : Text) (logo : Option Text)
      → provided env.encryption_key ≡ some key
      → upload_logo env has_logo db ≡ (ok logo, db)
      → is_ok (edit_organization_details env org_id role dto user_id has_logo db).0 ≡ true
      → (edit_organization_details env org_id role dto user_id has_logo db).1
        ≡ store_edit env org_id key (limit_given role dto.account_limit) logo dto db
  unfolding edit_organization_details
  edit-state has_logo key logo e u h = ground (
    arith,
    check_editor-state role user_id org_id db,
    store_details-ok env org_id key (limit_given role dto.account_limit) logo dto db,
  )

  pub edit-done :
      (has_logo : Bool)
      → is_ok (edit_organization_details env org_id role dto user_id has_logo db).0 ≡ true
      → EditDone env org_id role dto db
          (edit_organization_details env org_id role dto user_id has_logo db).1
  edit-done has_logo h = elim (Option-cases (provided env.encryption_key)) [
    | inl n ↦ absurd (edit-key has_logo h n)
    | inr (key, k) ↦ elim (Option-cases (find_organization org_id db)) [
      | inl n ↦ absurd (edit-found has_logo h n)
      | inr (o, e) ↦ record {
        old = o;
        key = key;
        logo = logo_of has_logo;
        found = e;
        keyed = k;
        done = edit-state has_logo key (logo_of has_logo) k (edit-uploaded has_logo h) h;
      }
    ]
  ]

pub find-store_edit :
    (env : Env) (org_id : Ident) (key : Text) (limit : Option ℕ) (logo : Option Text)
    (dto : EditOrganizationDto) (o : Organization) (db : Db)
    → find_organization org_id db ≡ some o
    → find_organization org_id (store_edit env org_id key limit logo dto db)
      ≡ some (edited env key limit logo dto o)
find-store_edit env org_id key limit logo dto o db e =
    find_first-update_self (λ o. o.id == org_id) (edited env key limit logo dto) o db.organizations
      e (find_first-holds (λ o. o.id == org_id) db.organizations e)

abbrev pub limit_at : Ident → Db → Option ℕ
limit_at org_id db = Option.map (λ o. o.account_limit) (find_organization org_id db)

edit-others :
    (env : Env) (org_id : Ident) (role : Role) (dto : EditOrganizationDto) (user_id : Ident)
    (has_logo : Bool) (i : Ident) (db : Db)
    → is_ok (edit_organization_details env org_id role dto user_id has_logo db).0 ≡ true
    → i ≢ org_id
    → find_organization i (edit_organization_details env org_id role dto user_id has_logo db).1
      ≡ find_organization i db
edit-others env org_id role dto user_id has_logo i db h ne =
    let d = edit-done env org_id role dto user_id db has_logo h in
    ap (find_organization i) d.done
    ∙ find_first-update_ne (λ o. o.id == i) (λ o. o.id == org_id)
        (edited env d.key (limit_given role dto.account_limit) d.logo dto) db.organizations
        (λ o t. ground arith) (λ o t. ground arith)

-- An edit by a superadmin, when it is accepted, leaves the limit of the organisation on system
-- accounts as it is, whatever the request says, and every other organisation as well.
pub edit-leaves :
    (env : Env) (org_id : Ident) (dto : EditOrganizationDto) (user_id : Ident) (has_logo : Bool)
    (i : Ident) (db : Db)
    → is_ok (edit_organization_details env org_id super_admin dto user_id has_logo db).0 ≡ true
    → i ≢ org_id
    → let db' = (edit_organization_details env org_id super_admin dto user_id has_logo db).1 in
      (limit_at org_id db' ≡ limit_at org_id db)
      × (find_organization i db' ≡ find_organization i db)
edit-leaves env org_id dto user_id has_logo i db h ne =
    let d = edit-done env org_id super_admin dto user_id db has_logo h in
    (
      ap (limit_at org_id) d.done
          ∙ ground
              (arith, d.found, find-store_edit env org_id d.key none d.logo dto d.old db d.found),
      edit-others env org_id super_admin dto user_id has_logo i db h ne,
    )

abbrev pub hours_after : Option WorkingHoursDto → Weekday → Option Hours → Option Hours
hours_after none d old = old
hours_after (some dto) d old = some (after dto d old)

-- The working hours that an edit gives are those of the organisation on each day of the week, and an
-- edit that gives none leaves them alone.
pub edit-hours :
    (env : Env) (org_id : Ident) (role : Role) (dto : EditOrganizationDto) (user_id : Ident)
    (has_logo : Bool) (d : Weekday) (db : Db)
    → is_ok (edit_organization_details env org_id role dto user_id has_logo db).0 ≡ true
    → hours_on
        (of_org org_id)
        d
        (edit_organization_details env org_id role dto user_id has_logo db).1.working_hours
      ≡ hours_after dto.working_hours d (hours_on (of_org org_id) d db.working_hours)
edit-hours env org_id role dto user_id has_logo d db h =
    let e = edit-done env org_id role dto user_id db has_logo h in
    ap (λ x. hours_on (of_org org_id) d x.working_hours) e.done ∙ stored dto.working_hours
  where
    stored :
        (w : Option WorkingHoursDto)
        → hours_on (of_org org_id) d (with_hours env.uuid org_id w db.working_hours)
          ≡ hours_after w d (hours_on (of_org org_id) d db.working_hours)
    stored none = refl
    stored (some w) = store_hours-hours env.uuid (of_org org_id) w d db.working_hours
