-- ===== src/Visit/Listings.antt =====
-- The requests that read visits (src/visit/visit.service.ts).
pub mod Privacy
use vms_backend_testing.Base.{
  ℕ, Bool, true, false, not, ◌&&◌, ◌||◌, Option, none, some, List, [], ◌∷◌, map, ◌==◌, leb,
  if◌then◌else◌, Ident, is_ident,
}
use mathlib.Core.List.{reverse}
use vms_backend_testing.Base.Request.{
  Action, forbidden, unauthorized, not_found, ◌>>=◌, ◌>>◌, pure, gets, or_throw, throw_if,
}
use vms_backend_testing.Base.Role.{Role, root, super_admin, admin, system, role_eq, includes}
use vms_backend_testing.Base.Table.{find_first, find_many, find_latest, order_by}
use vms_backend_testing.Catalog.{Entry}
use vms_backend_testing.Staff.Model.{Department, Staff}
use vms_backend_testing.Visit.Model.{MeetingStatus, Visit, Notification}
use vms_backend_testing.Visit.Access.{is_pending, is_ongoing, is_completed, is_rejected}

-- The tables that the listings and the analytics read.
pub record Db : Type 0 where
  pub organizations : List Ident
  pub departments : List Department
  pub reasons : List Entry
  pub staff : List Staff
  pub visits : List Visit
  pub notifications : List Notification

abbrev pub host_of : Db → Visit → Option Staff
host_of db v = find_first (λ s. s.id == v.staff_id) db.staff

abbrev department_with : Option Ident → Db → Option Department
department_with none db = none
department_with (some id) db = find_first (λ d. d.id == id) db.departments

abbrev department_of_host : Option Staff → Db → Option Department
department_of_host none db = none
department_of_host (some s) db = department_with s.department_id db

abbrev pub department_of : Db → Visit → Option Department
department_of db v = department_of_host (host_of db v) db

abbrev reason_with : Option Ident → Db → Option Entry
reason_with none db = none
reason_with (some id) db = find_first (λ r. r.id == id) db.reasons

abbrev pub reason_of : Db → Visit → Option Entry
reason_of db v = reason_with v.reason_id db

-- A visit with the rows that the queries include.
pub record VisitDetails : Type 0 where
  pub visit : Visit
  pub staff : Option Staff
  pub department : Option Department
  pub reason_of_visit : Option Entry

abbrev pub with_details : Db → Visit → VisitDetails
with_details db v = record {
  visit = v;
  staff = host_of db v;
  department = department_of db v;
  reason_of_visit = reason_of db v;
}

-- `findMany` with an `orderBy` that descends
abbrev pub list_visits : (Visit → ℕ) → (Visit → Bool) → Db → List VisitDetails
list_visits key p db = map (with_details db) (reverse (order_by key (find_many p db.visits)))

abbrev pub is_of_user : Ident → Option Staff → Bool
is_of_user user_id none = false
is_of_user user_id (some s) = is_ident s.user_id user_id

-- The answer without success, for a list that is empty.
pub data Answer : Type 0 where
  no_visits : Answer
  visits : List VisitDetails → Answer

abbrev pub answer_of : List VisitDetails → Answer
answer_of [] = no_visits
answer_of (d ∷ ds) = visits (d ∷ ds)

-- The `where` of each listing
abbrev pub ongoing_in : Ident → Visit → Bool
ongoing_in org_id v = v.org_id == org_id && is_ongoing v.status

abbrev pub completed_in : Ident → Visit → Bool
completed_in org_id v = v.org_id == org_id && is_completed v.status

abbrev pub ongoing_with : Ident → Ident → Db → Visit → Bool
ongoing_with org_id user_id db v = ongoing_in org_id v && is_of_user user_id (host_of db v)

abbrev pub completed_with : Ident → Ident → Db → Visit → Bool
completed_with org_id user_id db v = completed_in org_id v && is_of_user user_id (host_of db v)

unfoldable pub all_on_going_visits : Ident → Role → Action Db Answer
all_on_going_visits org_id role = do
  throw_if (not (includes (super_admin ∷ admin ∷ root ∷ system ∷ []) role))
      (unauthorized "Only admins, superadmin and root user have permission")
  gets (λ db. answer_of (list_visits (λ v. v.created_at) (ongoing_in org_id) db))

unfoldable pub all_on_going_visits_staff : Ident → Role → Ident → Action Db Answer
all_on_going_visits_staff org_id role staff_id = do
  throw_if (not (includes (super_admin ∷ admin ∷ root ∷ Role.staff ∷ []) role))
      (unauthorized "Only admins, superadmin and root user have permission")
  gets (λ db. answer_of (list_visits (λ v. v.created_at) (ongoing_with org_id staff_id db) db))

unfoldable pub all_completed_visits : Ident → Role → Action Db Answer
all_completed_visits org_id role = do
  throw_if (not (includes (super_admin ∷ admin ∷ root ∷ []) role))
      (unauthorized "Only admins, superadmin and root user have permission")
  gets (λ db. answer_of (list_visits (λ v. v.created_at) (completed_in org_id) db))

unfoldable pub all_completed_visits_staff : Ident → Role → Ident → Action Db Answer
all_completed_visits_staff org_id role staff_id = do
  throw_if (not (includes (super_admin ∷ admin ∷ root ∷ Role.staff ∷ []) role))
      (unauthorized "Only admins, superadmin and root user have permission")
  gets (λ db. answer_of (list_visits (λ v. v.created_at) (completed_with org_id staff_id db) db))

-- `type: 'ONGOING' | 'COMPLETED'`
pub data VisitType : Type 0 where
  ongoing completed : VisitType

abbrev pub has_type : VisitType → MeetingStatus → Bool
has_type VisitType.ongoing s = is_ongoing s
has_type VisitType.completed s = is_completed s

abbrev pub has_started : Option ℕ → Bool
has_started none = false
has_started (some t) = true

abbrev pub started_at : Option ℕ → ℕ
started_at none = 0
started_at (some t) = t

abbrev pub self_with : Ident → Ident → VisitType → Visit → Bool
self_with staff_id org_id type v =
    v.staff_id == staff_id
    && v.org_id == org_id
    && has_type type v.status
    && has_started v.start_time

unfoldable pub get_self_visit : Ident → Ident → Role → VisitType → Action Db Answer
get_self_visit user_id org_id role type = do
  throw_if (not (includes (super_admin ∷ admin ∷ Role.staff ∷ []) role))
      (unauthorized "Invalid role.")
  found ← gets (λ db. find_first (λ s. is_ident s.user_id user_id && s.org_id == org_id) db.staff)
  s ← or_throw found (not_found "Staff member not found.")
  gets (λ db. visits (list_visits (λ v. started_at v.start_time) (self_with s.id org_id type) db))

-- `scope: 'org' | 'self'`; with the first one no member of the staff is looked up.
pub data Scope : Type 0 where
  org self : Scope

abbrev pub is_org : Scope → Bool
is_org org = true
is_org self = false

unfoldable pub staff_in_scope : Scope → Ident → Action Db (Option Ident)
staff_in_scope org user_id = pure none
staff_in_scope self user_id = do
  found ← gets (λ db. find_first (λ s. is_ident s.user_id user_id) db.staff)
  s ← or_throw found (not_found "Staff doesn't exists.")
  pure (some s.id)

-- `...(staffId && { staffId })`
abbrev pub is_hosted_by : Option Ident → Visit → Bool
is_hosted_by none v = true
is_hosted_by (some id) v = id == 0 || v.staff_id == id

abbrev pub rejected_with : Ident → Option Ident → Visit → Bool
rejected_with org_id staff_id v =
    v.org_id == org_id && is_rejected v.status && is_hosted_by staff_id v

abbrev pub pending_with : Ident → Option Ident → Visit → Bool
pending_with org_id staff_id v =
    v.org_id == org_id && is_pending v.status && is_hosted_by staff_id v

unfoldable pub get_rejected_visits : Ident → Ident → Role → Scope → Action Db Answer
get_rejected_visits user_id org_id role scope = do
  throw_if (not (includes (super_admin ∷ admin ∷ Role.staff ∷ []) role))
      (unauthorized "Invalid role.")
  staff_id ← staff_in_scope scope user_id
  throw_if (is_org scope && role_eq Role.staff role) (forbidden "Access denied.")
  gets (λ db. visits (list_visits (λ v. v.updated_at) (rejected_with org_id staff_id) db))

unfoldable pub get_pending_visits : Ident → Ident → Role → Scope → Action Db Answer
get_pending_visits user_id org_id role scope = do
  throw_if (not (includes (super_admin ∷ admin ∷ Role.staff ∷ []) role))
      (unauthorized "Invalid role.")
  staff_id ← staff_in_scope scope user_id
  throw_if (is_org scope && role_eq Role.staff role) (forbidden "Access denied.")
  gets (λ db. visits (list_visits (λ v. v.updated_at) (pending_with org_id staff_id) db))

-- The start and the end of the day of the request, as Date's setHours gives them.
pub record Today : Type 0 where
  pub start_of_today : ℕ
  pub end_of_today : ℕ

unfoldable pub get_visit_details :
    Today → Ident → Role → Ident → Action Db (VisitDetails × Option Notification)
get_visit_details today org_id role visit_id = do
  throw_if (not (includes (super_admin ∷ admin ∷ root ∷ system ∷ []) role))
      (unauthorized "Only admins, superadmin and root user have permission")
  found ← gets (λ db. find_first (λ v. v.id == visit_id) db.visits)
  v ← or_throw found (not_found "No such visit found.")
  throw_if (not (v.org_id == org_id)) (unauthorized "Unauthorized attempt.")
  gets (λ db. (
    with_details db v,
    find_latest (λ n. n.created_at)
        (λ n.
          n.visit_id == visit_id
          && n.org_id == org_id
          && leb today.start_of_today n.created_at
          && leb n.created_at today.end_of_today)
        db.notifications,
  ))
