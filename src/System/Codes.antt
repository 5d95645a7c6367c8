-- ===== src/System/Codes.antt =====
-- The code that opens the settings of a tablet.
use vms_backend_testing.Base.{
  ℕ, Bool, true, Option, some, [], ◌∷◌, Ident, ◌≡◌, refl, ap, ◌∙◌, ◌≢◌, ==-refl, arith,
}
use vms_backend_testing.Base.Text.{Text, text_eq}
use vms_backend_testing.Base.Request.{is_ok}
use vms_backend_testing.Base.Role.{Role, system}
use vms_backend_testing.Auth.Login.{provided}
use vms_backend_testing.Auth.Guard.{SystemCredential}
use vms_backend_testing.Organization.Model.{Organization, Db, Env, find_organization, find_account}
use vms_backend_testing.Organization.Manage.{
  EditOrganizationDto, code_given, limit_given, store_edit, edit_organization_details,
}
use vms_backend_testing.Organization.Effects.{edit-done, find-store_edit}
use vms_backend_testing.System.Accounts.{settings_code, verify_settings_code}

abbrev full : Text → Option Text
full t = provided (some t)

provided-full : (t : Text) → t ≢ [] → full t ≡ some t
provided-full [] n = absurd (n refl)
provided-full (c ∷ t) n = refl

verify-stored :
    (env env' : Env) (org_id : Ident) (key code guess : Text) (limit : Option ℕ)
    (logo : Option Text) (dto : EditOrganizationDto) (o : Organization) (s : SystemCredential)
    (db : Db)
    → ((text key : Text) → env'.decrypt (env.encrypt text key) key ≡ some text)
    → ((text key : Text) → env.encrypt text key ≢ [])
    → provided env'.encryption_key ≡ some key
    → code_given dto.setting_code ≡ some code
    → find_organization org_id db ≡ some o
    → find_account s.id db ≡ some s
    → s.org_id ≡ org_id
    → is_ok
        (verify_settings_code env' org_id system s.id guess
          (store_edit env org_id key limit logo dto db)).0
      ≡ text_eq code guess
unfolding verify_settings_code settings_code
verify-stored env env' org_id key code guess limit logo dto o s db cipher filled k c fo fs own =
    ground (
      arith,
      find-store_edit env org_id key limit logo dto o db fo,
      cipher code key,
      provided-full (env.encrypt code key) (filled code key),
      ==-refl org_id,
    )

-- When an edit of an organisation has given it a settings code that is not blank, then the accounts
-- of the organisation are let into their settings by that code and by no other. It is supposed that
-- the key is the same in both requests, that the cipher undoes what it has done with it, and that
-- what it makes is not empty.
pub edit_then_verify :
    (env env' : Env) (org_id : Ident) (role : Role) (dto : EditOrganizationDto) (user_id : Ident)
    (has_logo : Bool) (code guess : Text) (s : SystemCredential) (db : Db)
    → ((text key : Text) → env'.decrypt (env.encrypt text key) key ≡ some text)
    → ((text key : Text) → env.encrypt text key ≢ [])
    → env'.encryption_key ≡ env.encryption_key
    → code_given dto.setting_code ≡ some code
    → is_ok (edit_organization_details env org_id role dto user_id has_logo db).0 ≡ true
    → find_account s.id db ≡ some s
    → s.org_id ≡ org_id
    → is_ok
        (verify_settings_code env' org_id system s.id guess
          (edit_organization_details env org_id role dto user_id has_logo db).1).0
      ≡ text_eq code guess
edit_then_verify env env' org_id role dto user_id has_logo code guess s db cipher filled same c h fs
      own =
    let d = edit-done env org_id role dto user_id db has_logo h in
    ap (λ x. is_ok (verify_settings_code env' org_id system s.id guess x).0) d.done
    ∙ verify-stored env env' org_id d.key code guess (limit_given role dto.account_limit) d.logo dto
        d.old s db cipher filled (ap provided same ∙ d.keyed) c d.found fs own
