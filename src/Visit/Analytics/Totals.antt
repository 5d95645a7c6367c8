-- ===== src/Visit/Analytics/Totals.antt =====
-- How the numbers of the analytics go together.
use vms_backend_testing.Base.{
  ℕ, suc, ◌+◌, ◌≤◌, Bool, false, ◌&&◌, List, [], ◌∷◌, map, ◌==◌, Ident, ◌≡◌, refl, ap, ◌∙◌, ◌⊎◌,
  inl, inr, arith,
}
use vms_backend_testing.Base.Text.{Text, text_eq, text_eq_sound}
use vms_backend_testing.Base.Request.{ok}
use vms_backend_testing.Base.Table.{count, length, find_many}
use vms_backend_testing.Visit.Model.{MeetingStatus, Visit}
use vms_backend_testing.Visit.Access.{is_completed, is_ongoing}
use vms_backend_testing.Visit.Listings.{Db, department_of}
use vms_backend_testing.Visit.Analytics.{
  Score, put, count_rows, sort, top_ten, entries, Period, Env, in_period, aggregate_by_dept,
  department_row, reason_row, VisitorsPerDepartment, name_of_department, get_visit_stats,
  get_top_departments, get_top_reasons, get_visitors_per_department,
}
use vms_backend_testing.Visit.Analytics.Sums.{sum_of, sum_of-slice, sum_of-sort, sum_of-entries}
use vms_backend_testing.Visit.Analytics.Order.{length-slice}
use vms_backend_testing.Visit.Analytics.Keys.{score, score-count_rows}
use vms_backend_testing.Visit.Analytics.Ranking.{count-map_found}

abbrev pub all_counts : {K L : Type 0} → List (Score K L) → ℕ
all_counts es = sum_of (λ e. e.count) es

module _ {K L : Type 0} (same : K → K → Bool) where
  counts-put :
      (k : K) (l : L) (es : List (Score K L)) → all_counts (put same k l es) ≡ suc (all_counts es)
  counts-put k l [] = refl
  counts-put k l (e ∷ es) = ground (arith, counts-put k l es)

  counts-count_rows :
      (rows : List (K × L)) (es : List (Score K L))
      → all_counts (count_rows same rows es) ≡ length rows + all_counts es
  counts-count_rows [] es = omega arith
  counts-count_rows ((k, l) ∷ rows) es =
      counts-count_rows rows (put same k l es) ∙ ground (arith, counts-put k l es)

-- A list is short and accounts for all of so many visits, or it is full and for no more.
abbrev pub Accounts : {K L : Type 0} → ℕ → List (Score K L) → Type 0
Accounts n answer = (all_counts answer ≡ n) ⊎ ((length answer ≡ 10) × (all_counts answer ≤ n))

Accounts-top_ten :
    {K L : Type 0} (n : ℕ) (es : List (Score K L)) → all_counts es ≡ n → Accounts n (top_ten es)
Accounts-top_ten n es h =
    let whole = sum_of-slice (λ e. e.count) 10 (sort es) ∙ sum_of-sort (λ e. e.count) es ∙ h in
    elim (length-slice 10 (sort es)) [
      | inl full ↦ inr (full, omega arith)
      | inr empty ↦ inl (ground (arith, whole, ap (sum_of (λ e. e.count)) empty))
    ]

length-map_found :
    {A B : Type 0} (f : A → B) (q : A → Bool) (xs : List A)
    → length (map f (find_many q xs)) ≡ count q xs
length-map_found f q [] = refl
length-map_found f q (x ∷ xs) = ground (arith, length-map_found f q xs)

Accounts-entries :
    {L : Type 0} (f : Visit → Text × L) (p : Visit → Bool) (vs : List Visit)
    → Accounts (count p vs) (top_ten (entries (count_rows text_eq (map f (find_many p vs)) [])))
Accounts-entries f p vs =
    Accounts-top_ten (count p vs) (entries (count_rows text_eq (map f (find_many p vs)) [])) (
      sum_of-entries (λ e. e.count) (count_rows text_eq (map f (find_many p vs)) [])
      ∙ counts-count_rows text_eq (map f (find_many p vs)) []
      ∙ ground (arith, length-map_found f p vs))

completed_or_ongoing : (s : MeetingStatus) → (is_completed s && is_ongoing s) ≡ false
completed_or_ongoing MeetingStatus.ongoing = refl
completed_or_ongoing MeetingStatus.completed = refl
completed_or_ongoing MeetingStatus.pending = refl
completed_or_ongoing MeetingStatus.rejected = refl
completed_or_ongoing MeetingStatus.accepted = refl

disjoint :
    (p : Visit → Bool) (vs : List Visit)
    → count (λ v. p v && is_completed v.status) vs + count (λ v. p v && is_ongoing v.status) vs
      ≤ count p vs
disjoint p [] = omega arith
disjoint p (v ∷ vs) = ground (arith, disjoint p vs, completed_or_ongoing v.status)

count_swap :
    (p q r : Visit → Bool) (vs : List Visit)
    → count (λ v. (p v && q v) && r v) vs ≡ count (λ v. (p v && r v) && q v) vs
count_swap p q r [] = refl
count_swap p q r (v ∷ vs) = ground (arith, count_swap p q r vs)

pub get_visit_stats-Accounts :
    (env : Env) (org_id : Ident) (period : Period) (db : Db)
    → let stats = get_visit_stats env org_id period db in
      Accounts stats.total (get_top_departments env org_id period db)
      × Accounts stats.total (get_top_reasons env org_id period db)
      × (stats.completed + stats.ongoing ≤ stats.total)
unfolding get_visit_stats get_top_departments get_top_reasons
get_visit_stats-Accounts env org_id period db = (
  Accounts-entries (department_row db) (in_period env org_id period) db.visits,
  Accounts-entries (reason_row db) (in_period env org_id period) db.visits,
  disjoint (in_period env org_id period) db.visits,
)

-- A visit of the organisation whose host is in a department of a name
abbrev pub of_department : Ident → Text → Db → Visit → Bool
of_department org_id name db v =
    v.org_id == org_id && text_eq (name_of_department (department_of db v)) name

score-aggregate :
    (name : Text) (p : Visit → Bool) (db : Db)
    → score text_eq name (aggregate_by_dept db (find_many p db.visits))
      ≡ count (λ v. p v && text_eq (name_of_department (department_of db v)) name) db.visits
score-aggregate name p db =
    score-count_rows text_eq name text_eq_sound (map (department_row db) (find_many p db.visits)) []
    ∙ ground (arith, count-map_found (λ r. text_eq r.0 name) (department_row db) p db.visits)

pub get_visitors_per_department-score :
    (org_id : Ident) (name : Text) (answer : VisitorsPerDepartment) (db : Db)
    → (get_visitors_per_department org_id db).0 ≡ ok answer
    → (score text_eq name answer.all ≡ count (of_department org_id name db) db.visits)
      × (score text_eq name answer.completed
          ≡ count (λ v. of_department org_id name db v && is_completed v.status) db.visits)
      × (score text_eq name answer.ongoing
          ≡ count (λ v. of_department org_id name db v && is_ongoing v.status) db.visits)
      × (score text_eq name answer.completed + score text_eq name answer.ongoing
          ≤ score text_eq name answer.all)
unfolding get_visitors_per_department
get_visitors_per_department-score org_id name answer db h =
    let mine : Visit → Bool = λ v. v.org_id == org_id in
    let named : Visit → Bool = λ v. text_eq (name_of_department (department_of db v)) name in
    let all : answer.all ≡ aggregate_by_dept db (find_many mine db.visits) = ground arith in
    let completed : answer.completed
        ≡ aggregate_by_dept db (find_many (λ v. mine v && is_completed v.status) db.visits) =
      ground arith in
    let ongoing : answer.ongoing
        ≡ aggregate_by_dept db (find_many (λ v. mine v && is_ongoing v.status) db.visits) =
      ground arith in
    let of_all = ap (score text_eq name) all ∙ score-aggregate name mine db in
    let of_completed =
      ap (score text_eq name) completed
      ∙ score-aggregate name (λ v. mine v && is_completed v.status) db
      ∙ count_swap mine (λ v. is_completed v.status) named db.visits in
    let of_ongoing =
      ap (score text_eq name) ongoing
      ∙ score-aggregate name (λ v. mine v && is_ongoing v.status) db
      ∙ count_swap mine (λ v. is_ongoing v.status) named db.visits in
    (
      of_all,
      of_completed,
      of_ongoing,
      ground (
        arith,
        of_all,
        of_completed,
        of_ongoing,
        disjoint (of_department org_id name db) db.visits,
      ),
    )
