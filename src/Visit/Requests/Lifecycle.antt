-- ===== src/Visit/Requests/Lifecycle.antt =====
-- Every request moves visits only along their life.
use vms_backend_testing.Base.{◌≡◌, true, Option, List, [], ◌∷◌, arith, ◌==◌, Ident}
use vms_backend_testing.Base.Text.{Text}
use vms_backend_testing.Visit.Model.{Visit, NotificationAction, Staff, Mail, Db, Env, StartVisitDto}
use vms_backend_testing.Visit.Access.{send, update_visit, visits-send}
use vms_backend_testing.Visit.Start.{new_visit, request_visit, start_visit}
use vms_backend_testing.Visit.Finish.{complete, complete_visit, end_visit, end_visit_qr}
use vms_backend_testing.Visit.Decide.{
  accept, reject, is_pending_visit, check_decision, commit_decision, accept_visit, reject_visit,
}
use vms_backend_testing.Visit.Remind.{resend_visit_notification}
use vms_backend_testing.Visit.Requests.{Request, start, finish, finish_qr, resend, handle, run}
use vms_backend_testing.Visit.Evolution.{
  Evolved, Evolves, Evolves-refl, Evolves-trans, Evolves-create, Evolves-update_many,
  Evolves-update,
}

module _ (env : Env) where
  request_visit-Evolves :
      (org_id : Ident) (dto : StartVisitDto) (host : Staff) (image : Option Text) (db : Db)
      → Evolves db.visits (request_visit env org_id dto host image db).1.visits
  unfolding request_visit send
  request_visit-Evolves org_id dto host image db =
      ground
        (arith, Evolves-refl db.visits, Evolves-create (new_visit env org_id dto image) db.visits)

  complete_visit-Evolves :
      (id : Ident) (db : Db) → Evolves db.visits (complete_visit env id db).1.visits
  unfolding complete_visit
  complete_visit-Evolves id db = ground (
    arith,
    Evolves-update (λ v. v.id == id) (complete env) db.visits (λ v. ground arith),
    visits-send env (Mail.visit_end_to_visitor id) (update_visit id (complete env) db),
    visits-send env (Mail.visit_end_to_host id)
        (send env (Mail.visit_end_to_visitor id) (update_visit id (complete env) db)).1,
  )

commit_decision-Evolves :
    (id : Ident) (f : Visit → Visit) (action : NotificationAction) (db : Db)
    → ((v : Visit) → is_pending_visit id v ≡ true → Evolved v (f v))
    → Evolves db.visits (commit_decision id f action db).1.visits
unfolding commit_decision
commit_decision-Evolves id f action db h =
    ground (arith, Evolves-refl db.visits, Evolves-update_many (is_pending_visit id) f db.visits h)

module _ (env : Env) where
  accept-Evolves :
      (id : Ident) (reason : Option Text) (db : Db)
      → Evolves db.visits
          (commit_decision id (accept env reason) NotificationAction.accepted db).1.visits
  accept-Evolves id reason db =
      commit_decision-Evolves id (accept env reason) NotificationAction.accepted db
        (λ v p. ground arith)

  reject-Evolves :
      (id : Ident) (reason : Text) (db : Db)
      → Evolves db.visits
          (commit_decision id (reject env reason) NotificationAction.rejected db).1.visits
  reject-Evolves id reason db =
      commit_decision-Evolves id (reject env reason) NotificationAction.rejected db
        (λ v p. ground arith)

  handle-Evolves :
      (org_id : Ident) (r : Request) (db : Db) → Evolves db.visits (handle env org_id r db).visits
  unfolding handle start_visit end_visit end_visit_qr accept_visit reject_visit check_decision
      resend_visit_notification
  handle-Evolves org_id (start system_id dto picture) db =
      grind (arith, request_visit-Evolves, Evolves-refl)
  handle-Evolves org_id (finish full_name email system_id role) db =
      grind (arith, complete_visit-Evolves, Evolves-refl)
  handle-Evolves org_id (finish_qr role visit_id) db =
      grind (arith, complete_visit-Evolves, Evolves-refl)
  handle-Evolves org_id (Request.accept user_id role visit_id reason) db =
      grind (arith, accept-Evolves, Evolves-refl, visits-send)
  handle-Evolves org_id (Request.reject user_id role visit_id reason) db =
      grind (arith, reject-Evolves, Evolves-refl, visits-send)
  handle-Evolves org_id (resend system_id role visit_id) db = grind (arith, Evolves-refl)

pub run-Evolves :
    (requests : List (Env × Ident × Request)) (db : Db) → Evolves db.visits (run requests db).visits
unfolding run
run-Evolves [] db = Evolves-refl db.visits
run-Evolves ((env, org_id, r) ∷ rest) db =
    let next = handle env org_id r db in
    Evolves-trans db.visits next.visits (run rest next).visits (handle-Evolves env org_id r db)
      (run-Evolves rest next)
