-- ===== src/Plan.antt =====
-- src/plan/plan.service.ts: the plans that organisations subscribe to, and their features.
pub mod Features
pub mod Tests
use vms_backend_testing.Base.{
  ℕ, suc, Bool, true, false, not, ◌&&◌, Option, none, some, List, [], ◌∷◌, ◌==◌, ltb, if◌then◌else◌,
  Ident,
}
use vms_backend_testing.Base.{◌++◌}
use vms_backend_testing.Base.Text.{Text, text_eq}
use vms_backend_testing.Base.Request.{
  Action, bad_request, not_found, internal, ◌>>=◌, ◌>>◌, pure, gets, or_throw, throw_if, modify,
  transaction,
}
use vms_backend_testing.Base.Table.{
  length, count, any, find_first, find_many, create, update, delete_many,
}

pub data BillingCycle : Type 0 where
  yearly monthly weekly : BillingCycle

pub data FeatureCode : Type 0 where
  vms_access staff_management_access : FeatureCode

abbrev pub code_eq : FeatureCode → FeatureCode → Bool
code_eq vms_access vms_access = true
code_eq staff_management_access staff_management_access = true
code_eq _ _ = false

pub data SubscriptionStatus : Type 0 where
  trial active expired canceled : SubscriptionStatus

abbrev pub is_active : SubscriptionStatus → Bool
is_active active = true
is_active _ = false

pub record Plan : Type 0 where
  pub id : Ident
  pub code : Text
  pub name : Text
  pub billing_cycle : BillingCycle
  pub price : ℕ
  pub is_active : Bool
  pub description : Option Text

-- No limit stands for an unlimited use.
pub record PlanFeature : Type 0 where
  pub id : Ident
  pub plan_id : Ident
  pub feature : FeatureCode
  pub limit : Option ℕ

pub record Subscription : Type 0 where
  pub plan_id : Ident
  pub status : SubscriptionStatus

pub record Db : Type 0 where
  pub plans : List Plan
  pub features : List PlanFeature
  pub subscriptions : List Subscription

pub record FeatureDto : Type 0 where
  pub feature : FeatureCode
  pub limit : Option ℕ

pub record CreatePlanDto : Type 0 where
  pub code : Text
  pub name : Text
  pub billing_cycle : BillingCycle
  pub price : ℕ
  pub description : Option Text
  pub features : List FeatureDto

pub record UpdatePlanDto : Type 0 where
  pub name : Option Text
  pub billing_cycle : Option BillingCycle
  pub price : Option ℕ
  pub description : Option Text
  pub features : Option (List FeatureDto)

abbrev pub asks_for : FeatureCode → FeatureDto → Bool
asks_for c f = code_eq f.feature c

abbrev pub is_feature : Ident → FeatureCode → PlanFeature → Bool
is_feature plan c r = r.plan_id == plan && code_eq r.feature c

-- `new Set(features.map(…)).size !== features.length`
unfoldable pub has_duplicates : List FeatureDto → Bool
has_duplicates [] = false
has_duplicates (f ∷ fs) =
    let rest = has_duplicates fs in if any (asks_for f.feature) fs then true else rest

abbrev feature_rows : (ℕ → Ident) → Ident → List FeatureDto → List PlanFeature
feature_rows fresh plan [] = []
feature_rows fresh plan (f ∷ fs) =
    record { id = fresh 0; plan_id = plan; feature = f.feature; limit = f.limit }
    ∷ feature_rows (λ k. fresh (suc k)) plan fs

abbrev pub new_plan : Ident → CreatePlanDto → Plan
new_plan id dto = record {
  id = id;
  code = dto.code;
  name = dto.name;
  billing_cycle = dto.billing_cycle;
  price = dto.price;
  is_active = true;
  description = dto.description;
}

unfoldable pub create_plan : (ℕ → Ident) → CreatePlanDto → Action Db (List PlanFeature)
create_plan fresh dto = do
  throw_if (length dto.features == 0) (bad_request "A plan must have at least one feature.")
  throw_if (has_duplicates dto.features) (bad_request "Duplicate features are not allowed.")
  exists ← gets (λ db. any (λ p. text_eq p.code dto.code) db.plans)
  throw_if exists (bad_request "A plan with same code already exists.")
  modify (λ db. record db {
    plans = create (new_plan (fresh 0) dto) db.plans;
    features = db.features ++ feature_rows (λ k. fresh (suc k)) (fresh 0) dto.features;
  })
  gets (λ db. find_many (λ r. r.plan_id == fresh 0) db.features)

abbrev pub set_limit : Option ℕ → PlanFeature → PlanFeature
set_limit limit r = record r { limit = limit }

-- One turn of the loop; the database refuses the update of a row that is not there, and a second
-- row of a plan and a feature.
unfoldable pub store_feature : Ident → Ident → List PlanFeature → FeatureDto → Action Db Unit
store_feature id plan existing f = do
  there ← gets (λ db. any (is_feature plan f.feature) db.features)
  throw_if (not there && any (λ r. code_eq r.feature f.feature) existing)
      (internal "Record to update not found.")
  throw_if (there && not (any (λ r. code_eq r.feature f.feature) existing))
      (internal "Unique constraint failed")
  modify (λ db. record db {
    features =
        if there
        then update (is_feature plan f.feature) (set_limit f.limit) db.features
        else create (record { id = id; plan_id = plan; feature = f.feature; limit = f.limit })
            db.features;
  })

unfoldable pub store_features :
    (ℕ → Ident) → Ident → List PlanFeature → List FeatureDto → Action Db Unit
store_features fresh plan existing [] = pure tt
store_features fresh plan existing (f ∷ fs) =
    store_feature (fresh 0) plan existing f >> store_features (λ k. fresh (suc k)) plan existing fs

abbrev pub is_dropped : Ident → List FeatureDto → PlanFeature → Bool
is_dropped plan fs r = r.plan_id == plan && not (any (asks_for r.feature) fs)

unfoldable pub update_plan_features : (ℕ → Ident) → Ident → List FeatureDto → Action Db Unit
update_plan_features fresh plan fs = do
  existing ← gets (λ db. find_many (λ r. r.plan_id == plan) db.features)
  store_features fresh plan existing fs
  modify (λ db. record db { features = delete_many (is_dropped plan fs) db.features })

abbrev given : {A : Type 0} → Option A → A → A
given none a = a
given (some b) a = b

abbrev described : Option Text → Option Text → Option Text
described none old = old
described (some d) old = some d

abbrev pub edited : UpdatePlanDto → Plan → Plan
edited dto p = record p {
  name = given dto.name p.name;
  billing_cycle = given dto.billing_cycle p.billing_cycle;
  price = given dto.price p.price;
  description = described dto.description p.description;
}

update_if_given : (ℕ → Ident) → Ident → Option (List FeatureDto) → Action Db Unit
unfolding update_plan_features
update_if_given fresh plan none = pure tt
update_if_given fresh plan (some fs) = update_plan_features fresh plan fs

unfoldable pub update_plan : (ℕ → Ident) → Ident → UpdatePlanDto → Action Db Unit
unfolding update_if_given
update_plan fresh id dto = do
  found ← gets (λ db. find_first (λ p. p.id == id) db.plans)
  or_throw found (not_found "Plan doesn't exists.")
  transaction (do
    modify (λ db. record db { plans = update (λ p. p.id == id) (edited dto) db.plans })
    update_if_given fresh id dto.features)

-- The message; a disabled plan is left alone.
unfoldable pub soft_delete_plan : Ident → Action Db Bool
soft_delete_plan id = do
  found ← gets (λ db. find_first (λ p. p.id == id) db.plans)
  plan ← or_throw found (not_found "Plan doesn't exist.")
  subscribed ← gets (λ db. count (λ s. s.plan_id == id && is_active s.status) db.subscriptions)
  throw_if (plan.is_active && ltb 0 subscribed)
      (bad_request "Cannot disable a plan with active subscriptions.")
  modify (λ db.
      if plan.is_active
      then record db {
        plans = update (λ p. p.id == id) (λ p. record p { is_active = false }) db.plans;
      }
      else db)
  pure plan.is_active
