-- ===== src/Visit/Requests.antt =====
-- Every request that changes visits, as one type, and runs of them.
pub mod OneActive
pub mod Lifecycle
use vms_backend_testing.Base.{Option, List, [], ◌∷◌, ◌++◌, Ident}
use vms_backend_testing.Base.Text.{Text}
use vms_backend_testing.Base.Request.{Action, ◌>>◌, pure}
use vms_backend_testing.Base.Role.{Role}
use vms_backend_testing.Visit.Model.{Db, Env, StartVisitDto}
use vms_backend_testing.Visit.Start.{start_visit}
use vms_backend_testing.Visit.Finish.{end_visit, end_visit_qr}
use vms_backend_testing.Visit.Decide.{accept_visit, reject_visit}
use vms_backend_testing.Visit.Remind.{resend_visit_notification}

-- The parameters of each method, without its organisation.
pub data Request : Type 0 where
  start : Ident → StartVisitDto → Option Ident → Request
  finish : Text → Text → Option Ident → Option Role → Request
  finish_qr : Role → Ident → Request
  accept : Ident → Role → Ident → Option Text → Request
  reject : Ident → Role → Ident → Text → Request
  resend : Ident → Role → Ident → Request

-- What a request of the organisation `org_id` does to the tables, whatever it answers.
unfoldable pub handle : Env → Ident → Request → Db → Db
handle env org_id (start system_id dto picture) db =
    (start_visit env org_id system_id dto picture db).1
handle env org_id (finish full_name email system_id role) db =
    (end_visit env org_id full_name email system_id role db).1
handle env org_id (finish_qr role visit_id) db = (end_visit_qr env org_id role visit_id db).1
handle env org_id (accept user_id role visit_id reason) db =
    (accept_visit env org_id user_id role visit_id reason db).1
handle env org_id (reject user_id role visit_id reason) db =
    (reject_visit env org_id user_id role visit_id reason db).1
handle env org_id (resend system_id role visit_id) db =
    (resend_visit_notification env system_id role org_id visit_id db).1

-- The requests of all organisations in the order in which the server serves them, each with its
-- clock and the outcomes of the outside world.
unfoldable pub run : List (Env × Ident × Request) → Db → Db
run [] db = db
run ((env, org_id, r) ∷ rest) db = run rest (handle env org_id r db)
