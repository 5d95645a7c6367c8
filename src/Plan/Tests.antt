-- ===== src/Plan/Tests.antt =====
-- Runs of the plan service on small tables.
use vms_backend_testing.Base.{ℕ, ◌+◌, true, none, some, List, [], ◌∷◌, Ident, ◌≡◌, refl}
use vms_backend_testing.Base.Request.{ok, is_ok}
use vms_backend_testing.Plan.{
  vms_access, staff_management_access, monthly, trial, Plan, Db, FeatureDto, CreatePlanDto,
  has_duplicates, create_plan, update_plan_features, soft_delete_plan,
}
use vms_backend_testing.Plan.Features.{limit_of, update_plan_features_exact}

abbrev two_plans : Db
two_plans = record {
  plans = [];
  features =
      record { id = 10; plan_id = 1; feature = vms_access; limit = some 5 }
      ∷ record { id = 11; plan_id = 2; feature = vms_access; limit = none }
      ∷ [];
  subscriptions = record { plan_id = 1; status = trial } ∷ [];
}

abbrev ids : ℕ → Ident
ids i = 20 + i

abbrev only_staff : List FeatureDto
only_staff = record { feature = staff_management_access; limit = some 3 } ∷ []

update_plan_features_exact_example :
    (is_ok (update_plan_features ids 1 only_staff two_plans).0 ≡ true)
    × (limit_of 1 vms_access (update_plan_features ids 1 only_staff two_plans).1.features ≡ none)
unfolding has_duplicates
update_plan_features_exact_example =
    update_plan_features_exact ids 1 1 vms_access only_staff two_plans refl

abbrev a_plan : Plan
a_plan = record {
  id = 20;
  code = b'A' ∷ [];
  name = [];
  billing_cycle = monthly;
  price = 9;
  is_active = true;
  description = none;
}

abbrev a_request : CreatePlanDto
a_request = record {
  code = b'A' ∷ [];
  name = [];
  billing_cycle = monthly;
  price = 9;
  description = none;
  features = only_staff;
}

created : (create_plan ids a_request two_plans).1.plans ≡ a_plan ∷ []
unfolding create_plan has_duplicates
created = refl

-- A plan that is only tried out is disabled.
disabled :
    (soft_delete_plan 1 (record two_plans { plans = record a_plan { id = 1 } ∷ [] })).0 ≡ ok true
unfolding soft_delete_plan
disabled = refl
