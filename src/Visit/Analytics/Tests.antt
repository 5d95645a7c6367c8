-- ===== src/Visit/Analytics/Tests.antt =====
-- Runs of the listings and of the analytics on a few visits.
use vms_backend_testing.Base.{
  ℕ, ◌+◌, ◌≤◌, true, ◌&&◌, none, some, List, [], ◌∷◌, ◌==◌, Ident, ◌≡◌, refl, arith,
}
use vms_backend_testing.Base.Text.{Text, text_eq, lower}
use vms_backend_testing.Base.Role.{Role, admin}
use vms_backend_testing.Base.Table.{All, count, length}
use vms_backend_testing.Staff.Model.{Staff}
use vms_backend_testing.Visit.Model.{
  MeetingStatus, Visit, NotificationType, NotificationAction, Notification,
}
use vms_backend_testing.Visit.Access.{is_completed, is_ongoing}
use vms_backend_testing.Visit.Listings.{Db, VisitType, is_of_user, host_of, get_self_visit}
use vms_backend_testing.Visit.Listings.Privacy.{StaffIds, self_visit, read, shown, read-private}
use vms_backend_testing.Visit.Analytics.{
  Score, Env, week, get_top_employees, get_top_visitors, get_top_departments, get_top_reasons,
  get_visit_stats, get_visitors_per_department, no_department, no_reason, to_lower_case,
}
use vms_backend_testing.Visit.Analytics.Keys.{score}
use vms_backend_testing.Visit.Analytics.Top.{IsTop}
use vms_backend_testing.Visit.Analytics.Ranking.{analytics-IsTop}
use vms_backend_testing.Visit.Analytics.Totals.{
  Accounts, of_department, get_visit_stats-Accounts, get_visitors_per_department-score,
}

abbrev host_at : Ident → Staff
host_at id = record {
  id = id;
  org_id = 1;
  user_id = some (10 + id);
  name = id ∷ [];
  email = id ∷ [];
  designation = [];
  department_id = some 3;
  role = Role.staff;
  employee_code = none;
}

abbrev visit_at : Ident → Ident → MeetingStatus → Visit
visit_at id staff_id status = record {
  id = id;
  org_id = 1;
  full_name = b'v' ∷ [];
  visitor_organization = [];
  email = b'V' ∷ b'@' ∷ [];
  reason_id = none;
  staff_id = staff_id;
  start_time = some 50;
  end_time = none;
  status = status;
  check_in_picture = none;
  remarks = none;
  created_at = id;
  updated_at = id;
}

abbrev read_rejection : Notification
read_rejection = record {
  id = 70;
  org_id = 1;
  staff_id = 5;
  visit_id = 30;
  type = NotificationType.visit_request;
  title = "";
  message = ([], "");
  is_read = true;
  action = NotificationAction.rejected;
  created_at = 20;
}

abbrev pub small : Db
small = record {
  organizations = 1 ∷ [];
  departments = record { id = 3; org_id = 1; name = b's' ∷ [] } ∷ [];
  reasons = [];
  staff = host_at 5 ∷ host_at 6 ∷ [];
  visits =
      visit_at 30 5 MeetingStatus.completed
      ∷ visit_at 31 6 MeetingStatus.completed
      ∷ visit_at 32 5 MeetingStatus.ongoing
      ∷ [];
  notifications = read_rejection ∷ [];
}

abbrev env : Env
env = record { now = 100; back = λ p. 40 }

-- The host of two visits comes before the host of one.
busiest_first :
    get_top_employees env 1 week small
    ≡ record { key = 5; label = 5 ∷ []; count = 2 }
      ∷ record { key = 6; label = 6 ∷ []; count = 1 }
      ∷ []
unfolding get_top_employees
busiest_first = refl

analytics-IsTop_example :
    IsTop (λ a b. a == b) 5 2 (get_top_employees env 1 week small)
    × IsTop text_eq (b'v' ∷ b'@' ∷ []) 3 (get_top_visitors env 1 week small)
    × IsTop text_eq no_department 0 (get_top_departments env 1 week small)
    × IsTop text_eq no_reason 3 (get_top_reasons env 1 week small)
unfolding text_eq to_lower_case lower
analytics-IsTop_example =
    analytics-IsTop env 1 5 (b'v' ∷ b'@' ∷ []) no_department no_reason week small

get_visit_stats-Accounts_example :
    Accounts 3 (get_top_departments env 1 week small)
    × Accounts 3 (get_top_reasons env 1 week small)
    × (2 + 1 ≤ 3)
unfolding get_visit_stats
get_visit_stats-Accounts_example = get_visit_stats-Accounts env 1 week small

abbrev in_department : ℕ → List (Score Text (Unit {0}))
in_department n = record { key = b's' ∷ []; label = tt; count = n } ∷ []

get_visitors_per_department-score_example :
    (score text_eq (b's' ∷ []) (in_department 3)
      ≡ count (of_department 1 (b's' ∷ []) small) small.visits)
    × (score text_eq (b's' ∷ []) (in_department 2)
        ≡ count (λ v. of_department 1 (b's' ∷ []) small v && is_completed v.status) small.visits)
    × (score text_eq (b's' ∷ []) (in_department 1)
        ≡ count (λ v. of_department 1 (b's' ∷ []) small v && is_ongoing v.status) small.visits)
    × (score text_eq (b's' ∷ []) (in_department 2) + score text_eq (b's' ∷ []) (in_department 1)
        ≤ score text_eq (b's' ∷ []) (in_department 3))
unfolding get_visitors_per_department text_eq
get_visitors_per_department-score_example =
    get_visitors_per_department-score 1 (b's' ∷ [])
      (record { all = in_department 3; completed = in_department 2; ongoing = in_department 1 })
      small refl

staff_ids : StaffIds small
staff_ids i = ground arith

read-private_example :
    All
      (λ d. (d.visit.org_id == 1) ≡ true)
      (shown (read (self_visit VisitType.completed) 15 1 admin small).0)
    × All
        (λ d. is_of_user 15 (host_of small d.visit) ≡ true)
        (shown (read (self_visit VisitType.completed) 15 1 Role.staff small).0)
read-private_example = read-private (self_visit VisitType.completed) 15 1 admin small staff_ids refl

own_visit : length (shown (read (self_visit VisitType.completed) 15 1 Role.staff small).0) ≡ 1
unfolding read get_self_visit
own_visit = refl
