-- ===== src/Visit/Analytics.antt =====
-- src/visit/visit.analytics.service.ts, and `getVisitorsPerDepartment` of src/visit/visit.service.ts.
pub mod Sums
pub mod Order
pub mod Keys
pub mod Top
pub mod Ranking
pub mod Totals
pub mod Tests
use vms_backend_testing.Base.{
  ℕ, zero, suc, ◌+◌, ◌*◌, ◌-◌, Bool, true, false, not, ◌&&◌, Option, none, some, List, [], ◌∷◌,
  ◌++◌, map, ◌==◌, ltb, leb, if◌then◌else◌, Ident,
}
use vms_backend_testing.Base.Text.{Text, text_eq, lower}
use vms_backend_testing.Base.Request.{Action, not_found, ◌>>=◌, ◌>>◌, gets, throw_if}
use vms_backend_testing.Base.Table.{any, count, find_many, order_by}
use vms_backend_testing.Catalog.{Entry}
use vms_backend_testing.Staff.Model.{Department, Staff}
use vms_backend_testing.Visit.Model.{Visit}
use vms_backend_testing.Visit.Access.{is_ongoing, is_completed}
use vms_backend_testing.Visit.Listings.{Db, host_of, department_of, reason_of}

-- An entry of the object `counts`: its key, what else stands in its value, and the count.
pub record Score (K : Type 0) (L : Type 0) : Type 0 where
  pub key : K
  pub label : L
  pub count : ℕ

module _ {K L : Type 0} (same : K → K → Bool) where
  -- `counts[key] = { …, count: (counts[key]?.count || 0) + 1 }`
  abbrev pub put : K → L → List (Score K L) → List (Score K L)
  put k l [] = record { key = k; label = l; count = 1 } ∷ []
  put k l (e ∷ es) =
      if same e.key k
      then record { key = e.key; label = l; count = suc e.count } ∷ es
      else e ∷ put k l es

  -- the loop over the rows
  abbrev pub count_rows : List (K × L) → List (Score K L) → List (Score K L)
  count_rows [] counts = counts
  count_rows ((k, l) ∷ rows) counts = count_rows rows (put k l counts)

module _ {K L : Type 0} where
  -- `sort((a, b) => b.count - a.count)`, which is stable
  abbrev pub insert : Score K L → List (Score K L) → List (Score K L)
  insert x [] = x ∷ []
  insert x (y ∷ ys) = if leb y.count x.count then x ∷ y ∷ ys else y ∷ insert x ys

  abbrev pub sort : List (Score K L) → List (Score K L)
  sort [] = []
  sort (x ∷ xs) = insert x (sort xs)

-- `slice(0, n)`
abbrev pub slice {ℓ} : {A : Type ℓ} → ℕ → List A → List A
slice zero xs = []
slice (suc n) [] = []
slice (suc n) (x ∷ xs) = x ∷ slice n xs

abbrev pub top_ten : {K L : Type 0} → List (Score K L) → List (Score K L)
top_ten counts = slice 10 (sort counts)

-- A key that is spelt as an index of an array, and the index: such keys of an object come first, in
-- the order of the indices.
abbrev digits : ℕ → Text → Option ℕ
digits n [] = some n
digits n (c ∷ s) = if leb b'0' c && leb c b'9' then digits (n * 10 + (c - 48)) s else none

abbrev index_below : Option ℕ → Option ℕ
index_below none = none
index_below (some n) = if ltb n 4294967295 then some n else none

abbrev pub index_of : Text → Option ℕ
index_of [] = none
index_of (c ∷ []) = digits 0 (c ∷ [])
index_of (c ∷ d ∷ s) = if c == b'0' then none else index_below (digits 0 (c ∷ d ∷ s))

abbrev is_some : Option ℕ → Bool
is_some none = false
is_some (some n) = true

abbrev or_zero : Option ℕ → ℕ
or_zero none = 0
or_zero (some n) = n

abbrev pub is_index : {L : Type 0} → Score Text L → Bool
is_index e = is_some (index_of e.key)

abbrev pub index : {L : Type 0} → Score Text L → ℕ
index e = or_zero (index_of e.key)

-- `Object.entries`
abbrev pub entries : {L : Type 0} → List (Score Text L) → List (Score Text L)
entries es = order_by index (find_many is_index es) ++ find_many (λ e. not (is_index e)) es

pub data Period : Type 0 where
  day week month year all : Period

-- The clock, and the time that Date's setters go back to from it.
pub record Env : Type 0 where
  pub now : ℕ
  pub back : Period → ℕ

abbrev pub from : Env → Period → Option ℕ
from env day = some (env.back day)
from env week = some (env.back week)
from env month = some (env.back month)
from env year = some (env.back year)
from env all = none

-- `startTime: { gte: from, lte: to }`, which no visit fits that has not started
abbrev within : Env → ℕ → Option ℕ → Bool
within env t none = false
within env t (some s) = leb t s && leb s env.now

abbrev started_in : Env → Option ℕ → Option ℕ → Bool
started_in env none s = true
started_in env (some t) s = within env t s

abbrev pub in_period : Env → Ident → Period → Visit → Bool
in_period env org_id period v = v.org_id == org_id && started_in env (from env period) v.start_time

abbrev pub visits_in : Env → Ident → Period → Db → List Visit
visits_in env org_id period db = find_many (in_period env org_id period) db.visits

pub record VisitStats : Type 0 where
  pub total : ℕ
  pub completed : ℕ
  pub ongoing : ℕ

unfoldable pub get_visit_stats : Env → Ident → Period → Db → VisitStats
get_visit_stats env org_id period db = record {
  total = count (in_period env org_id period) db.visits;
  completed = count (λ v. in_period env org_id period v && is_completed v.status) db.visits;
  ongoing = count (λ v. in_period env org_id period v && is_ongoing v.status) db.visits;
}

-- `name || fallback`
abbrev pub or_text : Text → Text → Text
or_text [] fallback = fallback
or_text (c ∷ s) fallback = c ∷ s

abbrev pub unknown : Text
unknown = b'U' ∷ b'n' ∷ b'k' ∷ b'n' ∷ b'o' ∷ b'w' ∷ b'n' ∷ []

abbrev pub no_department : Text
no_department =
    b'N' ∷ b'o' ∷ b' ' ∷ b'D' ∷ b'e' ∷ b'p' ∷ b'a' ∷ b'r' ∷ b't' ∷ b'm' ∷ b'e' ∷ b'n' ∷ b't' ∷ []

abbrev pub no_reason : Text
no_reason = b'N' ∷ b'o' ∷ b' ' ∷ b'R' ∷ b'e' ∷ b'a' ∷ b's' ∷ b'o' ∷ b'n' ∷ []

abbrev add_employee : Option Staff → List (Ident × Text) → List (Ident × Text)
add_employee none rows = rows
add_employee (some s) rows = (s.id, or_text s.name unknown) ∷ rows

-- What the loops count by. The keys of employees and of visitors are identifiers and e-mails, which
-- are never spelt as indices.
abbrev pub employee_rows : Db → List Visit → List (Ident × Text)
employee_rows db [] = []
employee_rows db (v ∷ vs) = add_employee (host_of db v) (employee_rows db vs)

unfoldable pub to_lower_case : Text → Text
unfolding lower
to_lower_case s = map lower s

unfoldable pub get_top_employees : Env → Ident → Period → Db → List (Score Ident Text)
get_top_employees env org_id period db =
    top_ten (count_rows (λ a b. a == b) (employee_rows db (visits_in env org_id period db)) [])

-- The name and the e-mail of the answer are those of the last visit.
abbrev pub visitor_row : Visit → Text × (Text × Text)
visitor_row v = (to_lower_case v.email, (v.full_name, v.email))

unfoldable pub get_top_visitors : Env → Ident → Period → Db → List (Score Text (Text × Text))
get_top_visitors env org_id period db =
    top_ten (count_rows text_eq (map visitor_row (visits_in env org_id period db)) [])

abbrev pub name_of_department : Option Department → Text
name_of_department none = no_department
name_of_department (some d) = or_text d.name no_department

abbrev pub department_row : Db → Visit → Text × Unit {0}
department_row db v = (name_of_department (department_of db v), tt)

unfoldable pub get_top_departments : Env → Ident → Period → Db → List (Score Text (Unit {0}))
get_top_departments env org_id period db =
    top_ten
      (entries (count_rows text_eq (map (department_row db) (visits_in env org_id period db)) []))

abbrev pub name_of_reason : Option Entry → Text
name_of_reason none = no_reason
name_of_reason (some r) = or_text r.name no_reason

abbrev pub reason_row : Db → Visit → Text × Unit {0}
reason_row db v = (name_of_reason (reason_of db v), tt)

unfoldable pub get_top_reasons : Env → Ident → Period → Db → List (Score Text (Unit {0}))
get_top_reasons env org_id period db =
    top_ten (entries (count_rows text_eq (map (reason_row db) (visits_in env org_id period db)) []))

-- The three objects of the answer of `getVisitorsPerDepartment`
pub record VisitorsPerDepartment : Type 0 where
  pub all : List (Score Text (Unit {0}))
  pub completed : List (Score Text (Unit {0}))
  pub ongoing : List (Score Text (Unit {0}))

abbrev pub aggregate_by_dept : Db → List Visit → List (Score Text (Unit {0}))
aggregate_by_dept db vs = count_rows text_eq (map (department_row db) vs) []

unfoldable pub get_visitors_per_department : Ident → Action Db VisitorsPerDepartment
get_visitors_per_department org_id = do
  exists ← gets (λ db. any (λ o. o == org_id) db.organizations)
  throw_if (not exists) (not_found "Organization doesn't exists.")
  gets (λ db. record {
    all = aggregate_by_dept db (find_many (λ v. v.org_id == org_id) db.visits);
    completed =
        aggregate_by_dept db
          (find_many (λ v. v.org_id == org_id && is_completed v.status) db.visits);
    ongoing =
        aggregate_by_dept db (find_many (λ v. v.org_id == org_id && is_ongoing v.status) db.visits);
  })
