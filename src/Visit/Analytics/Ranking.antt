-- ===== src/Visit/Analytics/Ranking.antt =====
-- What the analytics answer of the visits of a period.
use vms_backend_testing.Base.{
  ℕ, Bool, true, false, ◌&&◌, Option, none, some, List, [], ◌∷◌, map, ◌==◌, Ident, ◌≡◌, refl, ◌∙◌,
  ==→eq, Option-cases, inl, inr, arith,
}
use vms_backend_testing.Base.Text.{Text, text_eq, text_eq_sound}
use vms_backend_testing.Base.Table.{count, find_many}
use vms_backend_testing.Staff.Model.{Staff}
use vms_backend_testing.Visit.Model.{Visit}
use vms_backend_testing.Visit.Listings.{Db, host_of, department_of, reason_of}
use vms_backend_testing.Visit.Analytics.{
  count_rows, top_ten, entries, Period, Env, in_period, visits_in, employee_rows, visitor_row,
  department_row, reason_row, to_lower_case, name_of_department, name_of_reason, get_top_employees,
  get_top_visitors, get_top_departments, get_top_reasons,
}
use vms_backend_testing.Visit.Analytics.Sums.{sum_of-entries}
use vms_backend_testing.Visit.Analytics.Keys.{
  hit, weight, rows_of, listed-count_rows, score-count_rows,
}
use vms_backend_testing.Visit.Analytics.Top.{IsTop, IsTop-top_ten}

pub count-find_many :
    {A : Type 0} (p q : A → Bool) (xs : List A)
    → count p (find_many q xs) ≡ count (λ x. q x && p x) xs
count-find_many p q [] = refl
count-find_many p q (x ∷ xs) = ground (arith, count-find_many p q xs)

pub count-map_found :
    {A B : Type 0} (p : B → Bool) (f : A → B) (q : A → Bool) (xs : List A)
    → count p (map f (find_many q xs)) ≡ count (λ x. q x && p (f x)) xs
count-map_found p f q [] = refl
count-map_found p f q (x ∷ xs) = ground (arith, count-map_found p f q xs)

abbrev pub is_host : Ident → Option Staff → Bool
is_host id none = false
is_host id (some s) = s.id == id

count-employee_rows :
    (id : Ident) (db : Db) (vs : List Visit)
    → rows_of (λ a b. a == b) id (employee_rows db vs) ≡ count (λ v. is_host id (host_of db v)) vs
count-employee_rows id db [] = refl
count-employee_rows id db (v ∷ vs) = elim (Option-cases (host_of db v)) [
  | inl n ↦ ground (arith, count-employee_rows id db vs)
  | inr (s, e) ↦ ground (arith, count-employee_rows id db vs)
]

-- How many visits of the period fit a test.
abbrev pub visits_with : (Visit → Bool) → Env → Ident → Period → Db → ℕ
visits_with p env org_id period db = count (λ v. in_period env org_id period v && p v) db.visits

module _ {K L : Type 0} (same : K → K → Bool) (k : K)
    (sound : (a b : K) → same a b ≡ true → a ≡ b) where
  IsTop-rows :
      (rows : List (K × L)) (n : ℕ)
      → rows_of same k rows ≡ n
      → IsTop same k n (top_ten (count_rows same rows []))
  IsTop-rows rows n e =
      IsTop-top_ten same k n (count_rows same rows [])
        (listed-count_rows same k sound rows [] (omega arith))
        (score-count_rows same k sound rows [] ∙ ground arith)

IsTop-entries :
    {L : Type 0} (k : Text) (rows : List (Text × L)) (n : ℕ)
    → rows_of text_eq k rows ≡ n
    → IsTop text_eq k n (top_ten (entries (count_rows text_eq rows [])))
IsTop-entries k rows n e =
    IsTop-top_ten text_eq k n (entries (count_rows text_eq rows []))
      (ground (
        arith,
        sum_of-entries (hit text_eq k) (count_rows text_eq rows []),
        listed-count_rows text_eq k text_eq_sound rows [] (omega arith),
      ))
      (sum_of-entries (weight text_eq k) (count_rows text_eq rows [])
        ∙ score-count_rows text_eq k text_eq_sound rows []
        ∙ ground arith)

pub analytics-IsTop :
    (env : Env) (org_id employee : Ident) (email department reason : Text) (period : Period)
    (db : Db)
    → IsTop
        (λ a b. a == b)
        employee
        (visits_with (λ v. is_host employee (host_of db v)) env org_id period db)
        (get_top_employees env org_id period db)
      × IsTop text_eq email
          (visits_with (λ v. text_eq (to_lower_case v.email) email) env org_id period db)
          (get_top_visitors env org_id period db)
      × IsTop text_eq department
          (visits_with
            (λ v. text_eq (name_of_department (department_of db v)) department)
            env
            org_id
            period
            db)
          (get_top_departments env org_id period db)
      × IsTop text_eq reason
          (visits_with (λ v. text_eq (name_of_reason (reason_of db v)) reason) env org_id period db)
          (get_top_reasons env org_id period db)
unfolding get_top_employees get_top_visitors get_top_departments get_top_reasons
analytics-IsTop env org_id employee email department reason period db =
    let vs = visits_in env org_id period db in
    (
      IsTop-rows (λ a b. a == b) employee ==→eq (employee_rows db vs)
          (visits_with (λ v. is_host employee (host_of db v)) env org_id period db)
          (count-employee_rows employee db vs
            ∙ count-find_many (λ v. is_host employee (host_of db v)) (in_period env org_id period)
                db.visits),
      IsTop-rows text_eq email text_eq_sound (map visitor_row vs)
          (visits_with (λ v. text_eq (to_lower_case v.email) email) env org_id period db)
          (count-map_found (λ r. text_eq r.0 email) visitor_row (in_period env org_id period)
            db.visits),
      IsTop-entries department (map (department_row db) vs)
          (visits_with (λ v. text_eq (name_of_department (department_of db v)) department) env
            org_id period db)
          (count-map_found (λ r. text_eq r.0 department) (department_row db)
            (in_period env org_id period) db.visits),
      IsTop-entries reason (map (reason_row db) vs)
          (visits_with (λ v. text_eq (name_of_reason (reason_of db v)) reason) env org_id period db)
          (count-map_found (λ r. text_eq r.0 reason) (reason_row db) (in_period env org_id period)
            db.visits),
    )
