-- ===== src/Visit/Tests.antt =====
-- Runs of the visit service, and its theorems at concrete tables.
use vms_backend_testing.Base.{ℕ, ◌+◌, ◌≡◌, refl, true, none, some, List, [], ◌∷◌, arith, Ident}
use vms_backend_testing.Base.Text.{normalize, trim, text_eq}
use vms_backend_testing.Base.Request.{ok, err, bad_request, conflict, is_ok}
use vms_backend_testing.Base.Role
use vms_backend_testing.Visit.Model.{pending, Visit, Db, Env, StartVisitDto}
use vms_backend_testing.Visit.Access.{find_staff_of_user, check_system, send, push_to}
use vms_backend_testing.Visit.Start.{new_visit, find_host, request_visit, start_visit}
use vms_backend_testing.Visit.Finish.{complete, complete_visit, end_visit, find_ongoing}
use vms_backend_testing.Visit.Decide.{
  find_pending, check_decision, commit_decision, accept_visit, accept,
}
use vms_backend_testing.Visit.Decide.Races.{decide, accepting, rejecting, second_decision_conflicts}
use vms_backend_testing.Visit.Decide.Authority.{may_decide, accept_visit_iff}
use vms_backend_testing.Visit.Remind.{last_request, resend_visit_notification}
use vms_backend_testing.Visit.Remind.Throttle.{resend_throttled}
use vms_backend_testing.Visit.Evolution.{Evolves}
use vms_backend_testing.Visit.Requests.{Request, handle, run}
use vms_backend_testing.Visit.Requests.OneActive.{OneActive, run-OneActive}
use vms_backend_testing.Visit.Requests.Lifecycle.{run-Evolves}

abbrev env_at : ℕ → ℕ → Env
env_at now base = record {
  now = now;
  uuid = λ i. base + i;
  mail_works = λ m. true;
  upload = λ f. some [];
  qr_works = true;
}

abbrev dto : StartVisitDto
dto = record {
  full_name = b' ' ∷ b'A' ∷ b'n' ∷ b'n' ∷ [];
  email = b'A' ∷ b'@' ∷ b'x' ∷ [];
  visitor_organization = [];
  reason_id = 9;
  staff_id = 3;
}

abbrev empty : Db
empty = record {
  organizations = 1 ∷ [];
  systems = record { id = 2; org_id = 1 } ∷ [];
  staff = record { id = 3; org_id = 1; user_id = some 30 } ∷ [];
  reasons = 9 ∷ [];
  visits = [];
  notifications = [];
  mails = [];
  pushes = [];
}

abbrev with_request : Db
with_request =
    (request_visit (env_at 1000 50) 1 dto (record { id = 3; org_id = 1; user_id = some 30 }) none
      empty).1

started : start_visit (env_at 1000 50) 1 2 dto none empty ≡ (ok 50, with_request)
unfolding start_visit find_host text_eq normalize request_visit send
started = refl

-- The visit is requested, accepted by its host and ended under another spelling of the e-mail.
abbrev a_visit : List (Env × Ident × Request)
a_visit =
    (env_at 1000 50, 1, Request.start 2 dto none)
    ∷ (env_at 2000 60, 1, Request.accept 30 Role.staff 50 none)
    ∷ (env_at 3000 70, 1, Request.finish dto.full_name (b' ' ∷ b'a' ∷ b'@' ∷ b'X' ∷ []) none none)
    ∷ []

abbrev ended : Visit
ended =
    complete (env_at 3000 70) (accept (env_at 2000 60) none (new_visit (env_at 1000 50) 1 dto none))

a_visit_runs : (run a_visit empty).visits ≡ ended ∷ []
unfolding run handle start_visit find_host check_system request_visit new_visit send push_to
    accept_visit check_decision find_staff_of_user find_pending commit_decision end_visit
    find_ongoing complete_visit text_eq normalize trim
a_visit_runs = refl

run-OneActive_example : OneActive 1 (b'a' ∷ b'@' ∷ b'x' ∷ []) (run a_visit empty)
run-OneActive_example = run-OneActive a_visit 1 (b'a' ∷ b'@' ∷ b'x' ∷ []) empty (omega arith)

run-Evolves_example : Evolves with_request.visits (run a_visit with_request).visits
run-Evolves_example = run-Evolves a_visit with_request

abbrev requested : Visit
requested = record {
  id = 50;
  org_id = 1;
  full_name = [];
  visitor_organization = [];
  email = [];
  reason_id = none;
  staff_id = 3;
  start_time = none;
  end_time = none;
  status = pending;
  check_in_picture = none;
  remarks = none;
  created_at = 1000;
  updated_at = 1000;
}

abbrev waiting : Db
waiting = record empty { visits = requested ∷ [] }

second_decision_conflicts_example :
    decide
      (env_at 2000 60)
      (rejecting [])
      50
      (decide (env_at 2000 60) (accepting none) 50 waiting).1
    ≡ (
      err (conflict "Visit already processed or invalid."),
      (decide (env_at 2000 60) (accepting none) 50 waiting).1,
    )
unfolding commit_decision
second_decision_conflicts_example =
    second_decision_conflicts (env_at 2000 60) (env_at 2000 60) (accepting none) (rejecting []) 50
      (accept (env_at 2000 60) none requested) waiting refl

accept_visit_iff_example :
    is_ok (accept_visit (env_at 2000 60) 1 30 Role.staff 50 none waiting).0
    ≡ may_decide Role.staff (find_staff_of_user 30 1 waiting) (find_pending 50 1 waiting)
accept_visit_iff_example = accept_visit_iff (env_at 2000 60) 1 30 Role.staff 50 none waiting

resend_throttled_example :
    (resend_visit_notification
      (env_at 302000 70)
      2
      Role.system
      1
      50
      (resend_visit_notification (env_at 2001 60) 2 Role.system 1 50 waiting).1).0
    ≡ err (bad_request "Please wait before resending notification.")
unfolding resend_visit_notification last_request
resend_throttled_example =
    resend_throttled (env_at 2001 60) (env_at 302000 70) 2 Role.system 1 50 waiting refl
      (omega arith)
