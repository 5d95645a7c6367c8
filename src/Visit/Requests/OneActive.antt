-- ===== src/Visit/Requests/OneActive.antt =====
-- A visitor has at most one active visit in an organisation.
use vms_backend_testing.Base.{◌≤◌, ◌≡◌, true, false, Option, List, [], ◌∷◌, arith, ◌==◌, Ident}
use vms_backend_testing.Base.Text.{Text, text_eq_sound, normalize}
use vms_backend_testing.Base.Table.{count, any}
use vms_backend_testing.Base.Table.Counts.{
  count-create, count-update-le, count-update_many-le, count-eq-zero_of_any,
}
use vms_backend_testing.Visit.Model.{Mail, Visit, NotificationAction, Staff, Db, Env, StartVisitDto}
use vms_backend_testing.Visit.Access.{is_active_for, send, update_visit, visits-send}
use vms_backend_testing.Visit.Start.{new_visit, request_visit, start_visit}
use vms_backend_testing.Visit.Finish.{complete, complete_visit, end_visit, end_visit_qr}
use vms_backend_testing.Visit.Decide.{
  accept, reject, is_pending_visit, check_decision, commit_decision, accept_visit, reject_visit,
}
use vms_backend_testing.Visit.Remind.{resend_visit_notification}
use vms_backend_testing.Visit.Requests.{Request, start, finish, finish_qr, resend, handle, run}

-- The organisation and the e-mail have at most one visit that is PENDING, ACCEPTED or ONGOING.
abbrev pub OneActive : Ident → Text → Db → Type 0
OneActive org_id email db = count (is_active_for org_id email) db.visits ≤ 1

module _ (env : Env) (o : Ident) (email : Text) where
  request_visit-OneActive :
      (org_id : Ident) (dto : StartVisitDto) (host : Staff) (image : Option Text) (db : Db)
      → any (is_active_for org_id (normalize dto.email)) db.visits ≡ false
      → OneActive o email db
      → OneActive o email (request_visit env org_id dto host image db).1
  unfolding request_visit send new_visit
  request_visit-OneActive org_id dto host image db quiet h = ground (
    arith,
    count-create (is_active_for o email) (new_visit env org_id dto image) db.visits,
    count-eq-zero_of_any (is_active_for org_id (normalize dto.email)) db.visits quiet,
    text_eq_sound (normalize dto.email) email,
  )

  complete_visit-OneActive :
      (id : Ident) (db : Db) → OneActive o email db → OneActive o email (complete_visit env id db).1
  unfolding complete_visit
  complete_visit-OneActive id db h = ground (
    arith,
    count-update-le (is_active_for o email) (λ v. v.id == id) (complete env) db.visits
        (λ v e. absurd (ground arith)),
    visits-send env (Mail.visit_end_to_visitor id) (update_visit id (complete env) db),
    visits-send env (Mail.visit_end_to_host id)
        (send env (Mail.visit_end_to_visitor id) (update_visit id (complete env) db)).1,
  )

  commit_decision-OneActive :
      (id : Ident) (f : Visit → Visit) (action : NotificationAction) (db : Db)
      → ((v : Visit)
          → is_pending_visit id v ≡ true
          → is_active_for o email (f v) ≡ true
          → is_active_for o email v ≡ true)
      → OneActive o email db
      → OneActive o email (commit_decision id f action db).1
  unfolding commit_decision
  commit_decision-OneActive id f action db keep h =
      ground
        (arith, count-update_many-le (is_active_for o email) (is_pending_visit id) f db.visits keep)

  accept-OneActive :
      (id : Ident) (reason : Option Text) (db : Db)
      → OneActive o email db
      → OneActive o email (commit_decision id (accept env reason) NotificationAction.accepted db).1
  accept-OneActive id reason db h =
      commit_decision-OneActive id (accept env reason) NotificationAction.accepted db
        (λ v p a. ground arith) h

  reject-OneActive :
      (id : Ident) (reason : Text) (db : Db)
      → OneActive o email db
      → OneActive o email (commit_decision id (reject env reason) NotificationAction.rejected db).1
  reject-OneActive id reason db h =
      commit_decision-OneActive id (reject env reason) NotificationAction.rejected db
        (λ v p a. ground arith) h

  -- One request of any organisation keeps it so.
  handle-OneActive :
      (org_id : Ident) (r : Request) (db : Db)
      → OneActive o email db
      → OneActive o email (handle env org_id r db)
  unfolding handle start_visit end_visit end_visit_qr accept_visit reject_visit check_decision
      resend_visit_notification
  handle-OneActive org_id (start system_id dto picture) db h =
      grind (arith, request_visit-OneActive)
  handle-OneActive org_id (finish full_name email system_id role) db h =
      grind (arith, complete_visit-OneActive)
  handle-OneActive org_id (finish_qr role visit_id) db h = grind (arith, complete_visit-OneActive)
  handle-OneActive org_id (Request.accept user_id role visit_id reason) db h =
      grind (arith, accept-OneActive, visits-send)
  handle-OneActive org_id (Request.reject user_id role visit_id reason) db h =
      grind (arith, reject-OneActive, visits-send)
  handle-OneActive org_id (resend system_id role visit_id) db h = grind arith

-- Requests are served one after the other: if an e-mail has at most one active visit in an
-- organisation, then it has at most one after any requests of any organisations, whatever they
-- answer and whatever fails outside.
pub run-OneActive :
    (requests : List (Env × Ident × Request)) (o : Ident) (email : Text) (db : Db)
    → OneActive o email db
    → OneActive o email (run requests db)
unfolding run
run-OneActive [] o email db h = h
run-OneActive ((env, org_id, r) ∷ rest) o email db h =
    run-OneActive rest o email (handle env org_id r db) (handle-OneActive env o email org_id r db h)
