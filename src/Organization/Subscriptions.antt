-- ===== src/Organization/Subscriptions.antt =====
-- `updateSubscription`, and the requests that read an organisation, its plan and its features.
pub mod Renewal
use vms_backend_testing.Base.{
  ℕ, Bool, true, false, not, ◌&&◌, Option, none, some, List, [], ◌∷◌, ◌==◌, leb, if◌then◌else◌,
  Ident, is_ident,
}
use vms_backend_testing.Base.Text.{Text}
use vms_backend_testing.Base.Request.{
  Action, bad_request, unauthorized, not_found, internal, ◌>>=◌, ◌>>◌, pure, gets, or_throw,
  throw_if, modify, transaction,
}
use vms_backend_testing.Base.Role.{Role, root, super_admin, admin, staff, system, role_eq, includes}
use vms_backend_testing.Base.Table.{any, find_first, find_many, create, update}
use vms_backend_testing.Hours.{WorkingHours}
use vms_backend_testing.Plan.{Plan, PlanFeature, FeatureCode, is_feature}
use vms_backend_testing.Auth.Login.{provided}
use vms_backend_testing.Organization.Model.{
  Organization, Subscription, Db, Env, find_organization, find_user,
}
use vms_backend_testing.Organization.Manage.{new_subscription}
use vms_backend_testing.System.Accounts.{settings_code}

-- The dates as `new Date` reads them: none is the invalid date.
pub record UpdateSubscriptionDto : Type 0 where
  pub plan_id : Ident
  pub starts_at : Option ℕ
  pub ends_at : Option ℕ

-- `startsAt >= endsAt` holds of no invalid date.
abbrev pub not_before : Option ℕ → Option ℕ → Bool
not_before (some a) (some b) = leb b a
not_before _ _ = false

abbrev pub find_subscription : Ident → Db → Option Subscription
find_subscription org_id db = find_first (λ s. s.org_id == org_id) db.subscriptions

abbrev pub renewed : Ident → ℕ → ℕ → Subscription → Subscription
renewed plan_id from to s = record s { plan_id = plan_id; starts_at = from; ends_at = to }

abbrev pub upsert_subscription : Ident → Ident → ℕ → ℕ → List Subscription → List Subscription
upsert_subscription org_id plan_id from to rows =
    if any (λ s. s.org_id == org_id) rows
    then update (λ s. s.org_id == org_id) (renewed plan_id from to) rows
    else create (new_subscription org_id plan_id from to) rows

-- The database takes no invalid date.
unfoldable pub update_subscription : Ident → Role → Ident → UpdateSubscriptionDto → Action Db Unit
update_subscription user_id role org_id dto = do
  throw_if (not (role_eq root role)) (unauthorized "Only root user is allowed to change plan.")
  found_user ← gets (λ db. find_first (λ u. u.id == user_id && role_eq root u.role) db.users)
  or_throw found_user (not_found "User doesn't exists.")
  found ← gets (find_organization org_id)
  throw_if (not_before dto.starts_at dto.ends_at) (bad_request "startsAt must be before endsAt")
  or_throw found (not_found "Organization doesn't exists.")
  transaction (do
    found_plan ← gets (λ db. find_first (λ p. p.id == dto.plan_id && p.is_active) db.plans)
    or_throw found_plan (not_found "Plan doesn't exists.")
    from ← or_throw dto.starts_at (internal "Invalid value for argument `startsAt`.")
    to ← or_throw dto.ends_at (internal "Invalid value for argument `endsAt`.")
    modify (λ db. record db {
      subscriptions = upsert_subscription org_id dto.plan_id from to db.subscriptions;
    }))

unfoldable pub get_all_organization : Role → Action Db (List Organization)
get_all_organization role = do
  throw_if (not (role_eq root role))
      (unauthorized "Only root user can access the list of organization.")
  gets (λ db. db.organizations)

-- `const { settingCodeEncrypted, ...safeOrg } = …`
abbrev pub safe_org : Organization → Organization
safe_org o = record o { setting_code_encrypted = none }

pub record OrganizationDetails : Type 0 where
  pub organization : Organization
  pub setting_code : Option Text
  pub working_hours : List WorkingHours

unfoldable pub get_organization_details : Env → Ident → Role → Action Db OrganizationDetails
unfolding settings_code
get_organization_details env org_id role = do
  throw_if (not (includes (root ∷ super_admin ∷ admin ∷ system ∷ staff ∷ []) role)) (
      unauthorized
        "Only Root, SuperAdmin, Admin and System can access details of the organization.")
  found ← gets (find_organization org_id)
  organization ← or_throw found (not_found "Organization doesn't exist.")
  code ← settings_code env (provided organization.setting_code_encrypted)
  hours ← gets (λ db. find_many (λ h. is_ident h.org_id org_id) db.working_hours)
  pure (record { organization = safe_org organization; setting_code = code; working_hours = hours })

pub record PlanDetails : Type 0 where
  pub plan : Plan
  pub features : List PlanFeature

unfoldable pub plan_details : Option Subscription → Action Db (Option PlanDetails)
plan_details none = pure none
plan_details (some s) = do
  found ← gets (λ db. find_first (λ p. p.id == s.plan_id) db.plans)
  plan ← or_throw found (not_found "Plan not found.")
  features ← gets (λ db. find_many (λ f. f.plan_id == s.plan_id) db.features)
  pure (some (record { plan = plan; features = features }))

-- `!subscription || !subscription.planId`
abbrev pub with_plan : Option Subscription → Option Subscription
with_plan none = none
with_plan (some s) = if s.plan_id == 0 then none else some s

unfoldable pub get_org_plan_details :
    Env → Ident → Role → Action Db (Organization × Option Text × Option PlanDetails)
unfolding settings_code plan_details
get_org_plan_details env org_id role = do
  throw_if (not (includes (root ∷ super_admin ∷ []) role))
      (unauthorized "Only Root, SuperAdmin can access plan details of the organization.")
  found ← gets (find_organization org_id)
  organization ← or_throw found (not_found "Organization doesn't exist.")
  code ← settings_code env (provided organization.setting_code_encrypted)
  subscription ← gets (find_subscription org_id)
  plan ← plan_details (with_plan subscription)
  pure (safe_org organization, code, plan)

unfoldable pub get_system_account_limit : Ident → Role → Action Db ℕ
get_system_account_limit org_id role = do
  throw_if (not (role_eq super_admin role)) (unauthorized "Invalid role.")
  found ← gets (find_organization org_id)
  organization ← or_throw found (not_found "Invalid organization.")
  pure organization.account_limit

abbrev pub stored_code : Option Organization → Option Text
stored_code none = none
stored_code (some o) = provided o.setting_code_encrypted

unfoldable pub get_settings_code : Env → Ident → Role → Ident → Action Db (Option Text)
unfolding settings_code
get_settings_code env org_id role user_id = do
  throw_if (not (role_eq super_admin role)) (unauthorized "Invalid role.")
  found_user ← gets (find_user user_id)
  user ← or_throw found_user (not_found "Users doesn't exists.")
  throw_if (not (is_ident user.org_id org_id)) (unauthorized "Invalid update attempt.")
  found ← gets (find_organization org_id)
  settings_code env (stored_code found)

abbrev pub features_of : Option Subscription → Db → FeatureCode → Bool
features_of none db c = false
features_of (some s) db c = any (is_feature s.plan_id c) db.features

-- Which features the plan of the organisation has; the subscription's plan is there as long as the
-- database keeps the reference.
unfoldable pub get_my_features : Ident → Role → Ident → Action Db (FeatureCode → Bool)
get_my_features org_id role user_id = do
  throw_if (not (includes (super_admin ∷ admin ∷ staff ∷ system ∷ []) role))
      (unauthorized "Invalid role.")
  found ← gets (find_organization org_id)
  or_throw found (not_found "Invalid organization details.")
  found_user ← gets (λ db. find_first (λ u. u.id == user_id && is_ident u.org_id org_id) db.users)
  or_throw found_user (not_found "User doesn't exists.")
  subscription ← gets (find_subscription org_id)
  gets (features_of subscription)
