-- ===== src/Plan/Features.antt =====
-- After an update the features of a plan are those of the request.
use vms_backend_testing.Base.{
  ℕ, suc, Bool, true, false, not, ◌&&◌, Option, none, some, List, [], ◌∷◌, ◌==◌, if◌then◌else◌,
  Ident, ◌≡◌, refl, ==-refl, arith,
}
use mathlib.Core.Option
use vms_backend_testing.Base.Request.{is_ok}
use vms_backend_testing.Base.Table.{any, find_first, find_many, create, update, delete_many}
use vms_backend_testing.Plan.{
  FeatureCode, code_eq, vms_access, staff_management_access, PlanFeature, Db, FeatureDto, asks_for,
  is_feature, is_dropped, set_limit, has_duplicates, store_feature, store_features,
  update_plan_features,
}

abbrev limit_of_row : PlanFeature → Option ℕ
limit_of_row r = r.limit

-- The limit of a feature of a plan, where the plan has it.
abbrev pub limit_of : Ident → FeatureCode → List PlanFeature → Option (Option ℕ)
limit_of plan c rs = Option.map limit_of_row (find_first (is_feature plan c) rs)

abbrev or_limit : Option (Option ℕ) → Option (Option ℕ) → Option (Option ℕ)
or_limit none l = l
or_limit (some k) l = some k

-- The limit that the request gives a feature: the last one counts.
abbrev pub requested : FeatureCode → List FeatureDto → Option (Option ℕ)
requested c [] = none
requested c (f ∷ fs) = or_limit (requested c fs) (if asks_for c f then some f.limit else none)

limit_of-create :
    (plan p : Ident) (c : FeatureCode) (r : PlanFeature) (rs : List PlanFeature)
    → any (is_feature r.plan_id r.feature) rs ≡ false
    → limit_of p c (create r rs) ≡ (if is_feature p c r then some r.limit else limit_of p c rs)
limit_of-create plan p c r [] h = ground arith
limit_of-create plan p c r (x ∷ rs) h = ground (arith, limit_of-create plan p c r rs)

limit_of-update :
    (plan p : Ident) (c d : FeatureCode) (limit : Option ℕ) (rs : List PlanFeature)
    → any (is_feature plan d) rs ≡ true
    → limit_of p c (update (is_feature plan d) (set_limit limit) rs)
      ≡ (if p == plan && code_eq d c then some limit else limit_of p c rs)
limit_of-update plan p c d limit [] h = cc
limit_of-update plan p c d limit (x ∷ rs) h = ground (arith, limit_of-update plan p c d limit rs)

code_eq→eq : (c d : FeatureCode) → code_eq c d ≡ true → c ≡ d
code_eq→eq vms_access vms_access h = refl
code_eq→eq staff_management_access staff_management_access h = refl
code_eq→eq vms_access staff_management_access h = cc
code_eq→eq staff_management_access vms_access h = cc

limit_of-delete_many :
    (plan p : Ident) (c : FeatureCode) (fs : List FeatureDto) (rs : List PlanFeature)
    → limit_of p c (delete_many (is_dropped plan fs) rs)
      ≡ (if p == plan && not (any (asks_for c) fs) then none else limit_of p c rs)
limit_of-delete_many plan p c fs [] = ground arith
limit_of-delete_many plan p c fs (r ∷ rs) =
    ground (arith, limit_of-delete_many plan p c fs rs, code_eq→eq r.feature c)

abbrev is_some : Option (Option ℕ) → Bool
is_some none = false
is_some (some l) = true

is_some-requested :
    (c : FeatureCode) (fs : List FeatureDto) → is_some (requested c fs) ≡ any (asks_for c) fs
is_some-requested c [] = refl
is_some-requested c (f ∷ fs) = ground (arith, is_some-requested c fs)

store_feature-limit :
    (id plan p : Ident) (c : FeatureCode) (existing : List PlanFeature) (f : FeatureDto) (db : Db)
    → is_ok (store_feature id plan existing f db).0 ≡ true
    → limit_of p c (store_feature id plan existing f db).1.features
      ≡ (if p == plan && asks_for c f then some f.limit else limit_of p c db.features)
unfolding store_feature
store_feature-limit id plan p c existing f db h =
    let new : PlanFeature = record {
      id = id;
      plan_id = plan;
      feature = f.feature;
      limit = f.limit;
    } in
    ground (
      arith,
      limit_of-update plan p c f.feature f.limit db.features,
      limit_of-create plan p c new db.features,
    )

store_features-limit :
    (fresh : ℕ → Ident) (plan p : Ident) (c : FeatureCode) (existing : List PlanFeature)
    (fs : List FeatureDto) (db : Db)
    → is_ok (store_features fresh plan existing fs db).0 ≡ true
    → limit_of p c (store_features fresh plan existing fs db).1.features
      ≡ or_limit (if p == plan then requested c fs else none) (limit_of p c db.features)
unfolding store_features
store_features-limit fresh plan p c existing [] db h = ground arith
store_features-limit fresh plan p c existing (f ∷ fs) db h = ground (
  arith,
  store_feature-limit (fresh 0) plan p c existing f db,
  store_features-limit (λ k. fresh (suc k)) plan p c existing fs
      (store_feature (fresh 0) plan existing f db).1,
)

update_plan_features-limit :
    (fresh : ℕ → Ident) (plan p : Ident) (c : FeatureCode) (fs : List FeatureDto) (db : Db)
    → is_ok (update_plan_features fresh plan fs db).0 ≡ true
    → limit_of p c (update_plan_features fresh plan fs db).1.features
      ≡ (if p == plan then requested c fs else limit_of p c db.features)
unfolding update_plan_features
update_plan_features-limit fresh plan p c fs db h =
    let existing = find_many (λ r. r.plan_id == plan) db.features in
    let db' = (store_features fresh plan existing fs db).1 in
    ground (
      arith,
      store_features-limit fresh plan p c existing fs db,
      is_some-requested c fs,
      limit_of-delete_many plan p c fs db'.features,
    )

is_some-limit_of :
    (p : Ident) (c : FeatureCode) (rs : List PlanFeature)
    → is_some (limit_of p c rs) ≡ any (is_feature p c) rs
is_some-limit_of p c [] = refl
is_some-limit_of p c (r ∷ rs) = ground (arith, is_some-limit_of p c rs)

-- The rows that were read before the loop say which features of the request are there.
abbrev Known : Ident → List PlanFeature → List FeatureDto → List PlanFeature → Type 0
Known plan existing fs rs =
    (c : FeatureCode)
    → any (asks_for c) fs ≡ true
    → any (is_feature plan c) rs ≡ any (λ r. code_eq r.feature c) existing

store_feature-ok :
    (id plan : Ident) (existing : List PlanFeature) (f : FeatureDto) (db : Db)
    → any (is_feature plan f.feature) db.features ≡ any (λ r. code_eq r.feature f.feature) existing
    → is_ok (store_feature id plan existing f db).0 ≡ true
unfolding store_feature
store_feature-ok id plan existing f db h = ground arith

code_eq_refl : (c : FeatureCode) → code_eq c c ≡ true
code_eq_refl vms_access = refl
code_eq_refl staff_management_access = refl

store_features-ok :
    (fresh : ℕ → Ident) (plan : Ident) (existing : List PlanFeature) (fs : List FeatureDto)
    (db : Db)
    → has_duplicates fs ≡ false
    → Known plan existing fs db.features
    → is_ok (store_features fresh plan existing fs db).0 ≡ true
unfolding store_features has_duplicates
store_features-ok fresh plan existing [] db h k = refl
store_features-ok fresh plan existing (f ∷ fs) db h k =
    let first = k f.feature (ground (arith, code_eq_refl f.feature)) in
    let done = store_feature-ok (fresh 0) plan existing f db first in
    let db' = (store_feature (fresh 0) plan existing f db).1 in
    let later : Known plan existing fs db'.features = λ c m. ground (
      arith,
      k c,
      code_eq→eq f.feature c,
      ==-refl plan,
      store_feature-limit (fresh 0) plan plan c existing f db done,
      is_some-limit_of plan c db.features,
      is_some-limit_of plan c db'.features,
    ) in
    ground (
      arith,
      done,
      store_features-ok (λ k. fresh (suc k)) plan existing fs db' (ground arith) later,
    )

any-existing :
    (plan : Ident) (c : FeatureCode) (rs : List PlanFeature)
    → any (is_feature plan c) rs
      ≡ any (λ r. code_eq r.feature c) (find_many (λ r. r.plan_id == plan) rs)
any-existing plan c [] = refl
any-existing plan c (r ∷ rs) = ground (arith, any-existing plan c rs)

-- A request without duplicates succeeds; then the plan has exactly the features of the request
-- with the limits that it gives them, and every other plan has the features and limits that it had.
pub update_plan_features_exact :
    (fresh : ℕ → Ident) (plan p : Ident) (c : FeatureCode) (fs : List FeatureDto) (db : Db)
    → has_duplicates fs ≡ false
    → (is_ok (update_plan_features fresh plan fs db).0 ≡ true)
      × (limit_of p c (update_plan_features fresh plan fs db).1.features
          ≡ (if p == plan then requested c fs else limit_of p c db.features))
unfolding update_plan_features
update_plan_features_exact fresh plan p c fs db h =
    let existing = find_many (λ r. r.plan_id == plan) db.features in
    let done =
      store_features-ok fresh plan existing fs db h (λ d m. any-existing plan d db.features) in
    let good : is_ok (update_plan_features fresh plan fs db).0 ≡ true = ground (arith, done) in
    (good, update_plan_features-limit fresh plan p c fs db good)
